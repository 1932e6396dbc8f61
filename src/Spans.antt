-- ===== src/Spans.antt =====
-- decode/plane.go: which layers are run by one compiled block. A map from layers to offsets is the
-- list of its entries for the layers 0, 1, ..., `numLayers - 1`; a map of spans is the list of its
-- spans in the order of their first layers.
pub mod Cover
mod Tests
use autoresearch_mlx_go_ane.Prelude.{
  ℕ, zero, suc, ◌+◌, ◌*◌, Bool, true, false, not, ◌&&◌, ◌||◌, List, [], ◌∷◌, ◌++◌, Option, none,
  some, ltb, ◌==◌, if◌then◌else◌, length, drop,
}

pub record Span : Type 0 where
  pub start_layer : ℕ
  pub layer_offset : ℕ
  pub layers : List ℕ

-- The loop of fullAttentionDenseOffsets from layer `i` with `n` layers left; a nil provider answers
-- false.
pub dense_from : (ℕ → Bool) → (ℕ → Bool) → ℕ → ℕ → ℕ → List (Option ℕ)
dense_from is_linear is_moe i offset zero = []
dense_from is_linear is_moe i offset (suc n) =
    let skipped = dense_from is_linear is_moe (i + 1) offset n in
    let taken = dense_from is_linear is_moe (i + 1) (offset + 1) n in
    if is_linear i then none ∷ skipped else if is_moe i then none ∷ skipped else some offset ∷ taken

unfoldable pub full_attention_dense_offsets : ℕ → (ℕ → Bool) → (ℕ → Bool) → List (Option ℕ)
unfolding dense_from
full_attention_dense_offsets num_layers is_moe is_linear =
    dense_from is_linear is_moe 0 0 num_layers

-- The inner loop of buildDirectSpans: the layers from `j` on whose offsets go on from `next`.
pub extend : ℕ → ℕ → List (Option ℕ) → List ℕ
extend j next [] = []
extend j next (none ∷ os) = []
extend j next (some o ∷ os) =
    let rest = extend (j + 1) (next + 1) os in if o == next then j ∷ rest else []

-- The outer loop from layer `i`, whose entry is the first of the list.
pub spans_from : ℕ → ℕ → List (Option ℕ) → List Span
unfolding extend
spans_from zero i os = []
spans_from (suc fuel) i [] = []
spans_from (suc fuel) i (none ∷ os) = spans_from fuel (i + 1) os
spans_from (suc fuel) i (some o ∷ os) =
    let more = extend (i + 1) (o + 1) os in
    record { start_layer = i; layer_offset = o; layers = i ∷ more }
    ∷ spans_from fuel (i + 1 + length more) (drop (length more) os)

-- Each round of the outer loop passes at least one layer.
unfoldable pub build_direct_spans : List (Option ℕ) → List Span
unfolding spans_from
build_direct_spans offsets = spans_from (length offsets) 0 offsets

unfoldable pub direct_span_layer_count : List Span → ℕ
direct_span_layer_count [] = 0
direct_span_layer_count (s ∷ ss) = length s.layers + direct_span_layer_count ss
