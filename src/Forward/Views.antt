-- ===== src/Forward/Views.antt =====
-- decode/dispatch.go, forwardFromEmbeddingsWithHook: what becomes of the output views of a pass.
use autoresearch_mlx_go_ane.Prelude.{
  ℕ, zero, suc, ◌-◌, ◌≡◌, refl, ap, Bool, true, false, List, [], ◌∷◌, ◌++◌, Option, none, some,
  if◌then◌else◌,
}
use autoresearch_mlx_go_ane.Layer.{
  Result, good, bad, LayerEnv, Outcome, gives, fails, Layered, layer_forward,
}
use autoresearch_mlx_go_ane.Layer.Views.{layer_forward-released}
use autoresearch_mlx_go_ane.Forward.{
  Block, ForwardEnv, Walk, Walked, base_model, logits, after_layer, one_layer, after_block,
  ask_direct, next_layers, block_or_layer, layers_from, after_walk, start_walk, cast_pass,
  use_decode_plane, forward_from_embeddings,
}

module _ {A E V C : Type 0} (env : ForwardEnv A E V C) where
  after_layer-released :
      (w : Walk A E V C) (i : ℕ) (l : Layered A E V C) (o : Outcome A E V)
      → ((out : A) (next : Option A) (views : List V) → o ≡ gives out next views → l.released ≡ [])
      → w.released ≡ []
      → (after_layer w i l o).error ≡ none
      → (after_layer w i l o).walk.released ≡ []
  after_layer-released w i l (gives out next views) f e q = rw (e, f out next views refl) refl
  after_layer-released w i l (fails x) f e q = cc

  one_layer-released :
      (gpu : Bool) (l : LayerEnv A E V C) (i : ℕ) (w : Walk A E V C)
      → w.released ≡ []
      → (one_layer gpu l i w).error ≡ none
      → (one_layer gpu l i w).walk.released ≡ []
  one_layer-released gpu l i w e q =
      after_layer-released w i (layer_forward l gpu w.disabled (w.caches i) w.h w.prepared_norm)
        (layer_forward l gpu w.disabled (w.caches i) w.h w.prepared_norm).outcome
        (λ out next views f.
          layer_forward-released l gpu w.disabled (w.caches i) w.h out w.prepared_norm next views f)
        e q

  -- What the rest of a loop is assumed to keep.
  KeepsNone : (ℕ → Walk A E V C → Walked A E V C) → Type 0
  KeepsNone rest =
      (skip : ℕ) (w : Walk A E V C)
      → w.released ≡ []
      → (rest skip w).error ≡ none
      → (rest skip w).walk.released ≡ []

  next_layers-released :
      (rest : ℕ → Walk A E V C → Walked A E V C) (w : Walked A E V C) (o : Option E)
      → KeepsNone rest
      → w.error ≡ o
      → (w.error ≡ none → w.walk.released ≡ [])
      → (next_layers env rest w o).error ≡ none
      → (next_layers env rest w o).walk.released ≡ []
  unfolding KeepsNone
  next_layers-released rest w none k e f q = k 0 w.walk (f e) q
  next_layers-released rest w (some x) k e f q = f q

  block_or_layer-released :
      (l : LayerEnv A E V C) (i : ℕ) (w : Walk A E V C) (rest : ℕ → Walk A E V C → Walked A E V C)
      (o : (ℕ → C) × Option (Block A V))
      → KeepsNone rest
      → w.released ≡ []
      → (block_or_layer env l i w rest o).error ≡ none
      → (block_or_layer env l i w rest o).walk.released ≡ []
  unfolding KeepsNone
  block_or_layer-released l i w rest (caches, some b) k e q =
      k (b.last_layer - i) (after_block (record w { caches = caches }) b) e q
  block_or_layer-released l i w rest (caches, none) k e q =
      let one = one_layer env.gpu_fallback l i (record w { caches = caches }) in
      next_layers-released rest one one.error k refl
        (one_layer-released env.gpu_fallback l i (record w { caches = caches }) e) q

  layers_from-released : (ls : List (LayerEnv A E V C)) (i : ℕ) → KeepsNone (layers_from env ls i)
  unfolding layers_from KeepsNone
  layers_from-released [] i skip w e q = e
  layers_from-released (l ∷ ls) i (suc skip) w e q = layers_from-released ls (suc i) skip w e q
  layers_from-released (l ∷ ls) i zero w e q =
      block_or_layer-released l i w (layers_from env ls (suc i)) (ask_direct env i w)
        (layers_from-released ls (suc i)) e q

  walked-released :
      (w : Walked A E V C) (o : Option E) (r : A)
      → w.error ≡ o
      → (w.error ≡ none → w.walk.released ≡ [])
      → after_walk env w o ≡ logits r
      → w.walk.released ≡ []
  walked-released w none r e f q = f e
  walked-released w (some x) r e f q = cc

  cast_pass-released :
      (ls : List (LayerEnv A E V C)) (d : Option E) (caches : ℕ → C) (x r : A) (o : Result E A)
      → (cast_pass env ls d caches x o).outcome ≡ logits r
      → (cast_pass env ls d caches x o).released ≡ []
  unfolding KeepsNone
  cast_pass-released ls d caches x r (bad e) q = cc
  cast_pass-released ls d caches x r (good h) q =
      let w = layers_from env ls 0 0 (start_walk env h d caches) in
      ap (λ (vs : List V). vs ++ [])
        (walked-released w w.error r refl
          (layers_from-released ls 0 0 (start_walk env h d caches) refl) q)

  -- A forward pass that gives logits has released none of the output views that its layers and
  -- direct blocks lent.
  pub forward_releases_nothing :
      (ls : List (LayerEnv A E V C)) (d : Option E) (caches : ℕ → C) (x : A) {r : A}
      → (forward_from_embeddings env ls d caches x).outcome ≡ logits r
      → (forward_from_embeddings env ls d caches x).released ≡ []
  unfolding forward_from_embeddings
  forward_releases_nothing ls d caches x {r} q = choose (use_decode_plane env d) q
    where
      choose :
          (b : Bool)
          → (if b then cast_pass env ls d caches x (env.cast_embeddings x) else record {
            outcome = base_model;
            walk = start_walk env x d caches;
            released = [];
          }).outcome
            ≡ logits r
          → (if b then cast_pass env ls d caches x (env.cast_embeddings x) else record {
            outcome = base_model;
            walk = start_walk env x d caches;
            released = [];
          }).released
            ≡ []
      choose true f = cast_pass-released ls d caches x r (env.cast_embeddings x) f
      choose false f = refl
