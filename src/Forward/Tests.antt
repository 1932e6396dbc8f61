-- ===== src/Forward/Tests.antt =====
-- Two layers of the kind of Layer/Tests.antt, and a head that adds 1 and multiplies by nothing.
use autoresearch_mlx_go_ane.Prelude.{
  ℕ, suc, ◌+◌, ◌≡◌, refl, sym, ap, ◌∙◌, true, false, List, [], ◌∷◌, none, some,
}
use autoresearch_mlx_go_ane.Layer.{
  Result, Fused, handled, skipped, bad, good, LayerEnv, layer_forward, ffn, finish_ffn,
}
use autoresearch_mlx_go_ane.Layer.Tests.{toy_layer, Same, toy_layer-IsFaithful}
use autoresearch_mlx_go_ane.Layer.Paths.{NearFfn, IsFaithful}
use autoresearch_mlx_go_ane.Forward.{
  ForwardEnv, layers_from, use_decode_plane, forward_from_embeddings,
}
use autoresearch_mlx_go_ane.Forward.Views.{forward_releases_nothing}
use autoresearch_mlx_go_ane.Forward.Chain.{IsModel, AreLinked, forward-IsModel}

abbrev toy_env : ForwardEnv ℕ ℕ ℕ ℕ
toy_env = record {
  shape_is_step = true;
  gpu_fallback = false;
  has_hook = true;
  cast_embeddings = λ x. good x;
  direct = λ i h caches. (caches, none);
  final_norm = λ h. good (suc h);
  lm_head = some 3;
  embed_weight = good 4;
  transpose = λ w. good w;
  matmul = λ out w. good (out + w);
  eval_logits = λ r. none;
  synchronize = none;
}

abbrev two_layers : List (LayerEnv ℕ ℕ ℕ ℕ)
two_layers = toy_layer ∷ toy_layer ∷ []

-- A layer whose fused norm prepares the input norm of the next layer.
abbrev norming_layer : LayerEnv ℕ ℕ ℕ ℕ
norming_layer = record toy_layer { residual_norm = λ h out. handled (suc (h + out)) }

norming_layer-IsFaithful : IsFaithful Same norming_layer
norming_layer-IsFaithful = keeps toy_layer-IsFaithful
  where
    near : (h out : ℕ) → NearFfn Same toy_layer h out → NearFfn Same norming_layer h out
    near h out n = record {
      post = n.post;
      is_post = n.is_post;
      answer = record { mlp = n.answer.mlp; is_mlp = n.answer.is_mlp; near = n.answer.near };
    }

    keeps : IsFaithful Same toy_layer → IsFaithful Same norming_layer
    keeps t = record {
      near_refl = t.near_refl;
      prepares =
          λ x attn h packed out views e f. absurd (let no : none ≡ some (h, packed) = e in cc);
      inputs =
          λ x attn h out views e. absurd (let no : skipped ≡ handled (h, out, views) = e in cc);
      residuals = λ h out views e. near h out (t.residuals h out views e);
      dense = λ n out views e. absurd (let no : bad 2 ≡ good (out, views) = e in cc);
      moe = λ n out views e. absurd (let no : bad 3 ≡ good (out, views) = e in cc);
      fused_add = t.fused_add;
    }

abbrev normed_layers : List (LayerEnv ℕ ℕ ℕ ℕ)
normed_layers = norming_layer ∷ toy_layer ∷ []

normed_layers-AreLinked : AreLinked Same normed_layers
normed_layers-AreLinked = (linked, (tt, tt))
  where
    linked :
        (h out q r : ℕ)
        → ◌≡◌ {A = Fused ℕ ℕ} (handled (suc (h + out))) (handled q)
        → ◌≡◌ {A = Result ℕ ℕ} (good (h + out)) (good r)
        → (n : ℕ) × (◌≡◌ {A = Result ℕ ℕ} (good (suc r)) (good n)) × (q ≡ n)
    linked h out q r e f =
        let sum : h + out ≡ r = cc in
        let norm : suc (h + out) ≡ q = cc in (suc r, refl, sym norm ∙ ap suc sum)

forward-IsModel_example : IsModel Same toy_env normed_layers (λ i. 4) 10 504
unfolding forward_from_embeddings use_decode_plane layers_from layer_forward ffn finish_ffn
forward-IsModel_example =
    forward-IsModel Same toy_env normed_layers none (λ i. 4) 10 504 refl
      (norming_layer-IsFaithful, (toy_layer-IsFaithful, tt)) normed_layers-AreLinked refl

-- Both layers lent view 7, and neither was released.
two_views_lent :
    (forward_from_embeddings toy_env two_layers none (λ i. 4) 10).walk.lent ≡ 7 ∷ 7 ∷ []
unfolding forward_from_embeddings use_decode_plane layers_from layer_forward ffn finish_ffn
two_views_lent = refl

forward_releases_nothing_example :
    (forward_from_embeddings toy_env two_layers none (λ i. 4) 10).released ≡ []
unfolding forward_from_embeddings use_decode_plane layers_from layer_forward ffn finish_ffn
forward_releases_nothing_example =
    forward_releases_nothing toy_env two_layers none (λ i. 4) 10 {r = 504} refl
