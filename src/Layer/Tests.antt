-- ===== src/Layer/Tests.antt =====
-- A layer over numbers: the input norm adds 1, the other norm doubles, the MLP adds 5.
use autoresearch_mlx_go_ane.Prelude.{
  ℕ, suc, ◌+◌, ◌≡◌, refl, subst, true, false, [], ◌∷◌, none, some,
}
use autoresearch_mlx_go_ane.Layer.{
  good, bad, skipped, handled, LayerEnv, layer_forward, ffn, finish_ffn,
}
use autoresearch_mlx_go_ane.Layer.Paths.{NearFfn, IsFaithful}
use autoresearch_mlx_go_ane.Layer.Reference.{Computes, layer_forward-Computes}
use autoresearch_mlx_go_ane.Layer.Views.{Finishes, layer_forward-Finishes}
use autoresearch_mlx_go_ane.Layer.Disable.{GpuGives, fell_back, stage_failure_keeps_plane}
use autoresearch_mlx_go_ane.Layer.Total.{GpuWorks, Gives, layer_forward-Gives}

-- The fused norm answers, with view 7.
abbrev pub toy_layer : LayerEnv ℕ ℕ ℕ ℕ
toy_layer = record {
  input_norm = λ x. good (suc x);
  attention = λ c n. (good (n + c), suc c);
  add = λ x y. good (x + y);
  post_norm = λ h. good (h + h);
  fallback_mlp = λ n. good (n + 5);
  is_moe = false;
  dense_stage = none;
  prepare = λ x attn. none;
  dense_output_prepared = λ packed. bad 1;
  dense_output_from_inputs = λ x attn. skipped;
  dense_output_from_residual = λ h. handled (h + h + 5, 7 ∷ []);
  dense_output = λ n. bad 2;
  moe_output = λ n. bad 3;
  residual_norm = λ h out. skipped;
  residual_add = λ h out. skipped;
  same_dtype = λ h out. true;
  cast = λ h out. good h;
}

abbrev pub Same : ℕ → ℕ → Type 0
Same m n = m ≡ n

toy_NearFfn : (h : ℕ) → NearFfn Same toy_layer h (h + h + 5)
toy_NearFfn h = record {
  post = h + h;
  is_post = refl;
  answer = record { mlp = h + h + 5; is_mlp = refl; near = refl };
}

pub toy_layer-IsFaithful : IsFaithful Same toy_layer
toy_layer-IsFaithful = record {
  near_refl = λ m. refl;
  prepares =
      λ x attn h packed out views e f. absurd (let bad_one : none ≡ some (h, packed) = e in cc);
  inputs =
      λ x attn h out views e. absurd (let bad_one : skipped ≡ handled (h, out, views) = e in cc);
  residuals = λ h out views e.
      let same : h + h + 5 ≡ out = cc in subst (NearFfn Same toy_layer h) same (toy_NearFfn h);
  dense = λ n out views e. absurd (let bad_one : bad 2 ≡ good (out, views) = e in cc);
  moe = λ n out views e. absurd (let bad_one : bad 3 ≡ good (out, views) = e in cc);
  fused_add = λ h out r e. cc;
}

layer_forward-Computes_example :
    Computes Same toy_layer 4 10 none 80 (layer_forward toy_layer false none 4 10 none).cache
unfolding layer_forward ffn finish_ffn
layer_forward-Computes_example =
    layer_forward-Computes Same toy_layer toy_layer-IsFaithful false none 4 10 80 none none (7 ∷ [])
      refl

layer_forward-Finishes_example :
    Finishes toy_layer none 5 (ffn toy_layer 10 15) (layer_forward toy_layer false none 4 10 none)
layer_forward-Finishes_example = layer_forward-Finishes toy_layer 10 none {n = 11} refl refl

toy_layer-GpuWorks : GpuWorks toy_layer
toy_layer-GpuWorks = record {
  norms = λ x e q. cc;
  attends = λ c n e q. cc;
  adds = λ x y e q. cc;
  post_norms = λ h e q. cc;
  mlps = λ n e q. cc;
  casts = λ h out e q. cc;
  fused_norms = λ h out e q. cc;
  fused_adds = λ h out e q. cc;
}

layer_forward-Gives_example : Gives (layer_forward toy_layer false none 4 10 none).outcome
layer_forward-Gives_example = layer_forward-Gives toy_layer toy_layer-GpuWorks false none 4 10 none

-- The same layer, where the stage cannot be built.
abbrev unbuilt_layer : LayerEnv ℕ ℕ ℕ ℕ
unbuilt_layer = record toy_layer { dense_stage = some 9 }

unbuilt_layer-GpuGives : GpuGives unbuilt_layer 10 15 80
unbuilt_layer-GpuGives = record {
  residual = 25;
  is_residual = refl;
  post = 50;
  is_post = refl;
  mlp = 55;
  is_mlp = refl;
  is_sum = refl;
}

stage_failure_keeps_plane_example :
    layer_forward unbuilt_layer false none 4 10 none ≡ fell_back unbuilt_layer 80 none 5
stage_failure_keeps_plane_example =
    stage_failure_keeps_plane unbuilt_layer 10 none {n = 11} {attn = 15} {e = 9} refl refl
      unbuilt_layer-GpuGives refl refl
