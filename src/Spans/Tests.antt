-- ===== src/Spans/Tests.antt =====
-- Six layers, of which the third is linear and the last a mixture of experts.
use autoresearch_mlx_go_ane.Prelude.{ℕ, ◌≡◌, refl, Bool, length, ◌==◌}
use autoresearch_mlx_go_ane.Prelude.Modify.{All}
use autoresearch_mlx_go_ane.Spans.{
  full_attention_dense_offsets, build_direct_spans, direct_span_layer_count,
}
use autoresearch_mlx_go_ane.Spans.Cover.{layers_of, IsRun, dense_layers, build_direct_spans-cover}

abbrev is_moe : ℕ → Bool
is_moe i = i == 5

abbrev is_linear : ℕ → Bool
is_linear i = i == 2

build_direct_spans-cover_example :
    (layers_of (build_direct_spans (full_attention_dense_offsets 6 is_moe is_linear))
      ≡ dense_layers is_moe is_linear 0 6)
    × All IsRun (build_direct_spans (full_attention_dense_offsets 6 is_moe is_linear))
    × (direct_span_layer_count
          (build_direct_spans (full_attention_dense_offsets 6 is_moe is_linear))
        ≡ length (dense_layers is_moe is_linear 0 6))
build_direct_spans-cover_example = build_direct_spans-cover 6 is_moe is_linear

two_spans : length (build_direct_spans (full_attention_dense_offsets 6 is_moe is_linear)) ≡ 2
unfolding build_direct_spans full_attention_dense_offsets
two_spans = refl
