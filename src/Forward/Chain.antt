-- ===== src/Forward/Chain.antt =====
-- decode/dispatch.go, forwardFromEmbeddingsWithHook: a pass against the chain of the model's layers.
use autoresearch_mlx_go_ane.Prelude.{
  ℕ, suc, ◌≡◌, refl, subst, ap, sym, Bool, true, false, List, [], ◌∷◌, Option, none, some,
  if◌then◌else◌,
}
use autoresearch_mlx_go_ane.Prelude.Modify.{All}
use autoresearch_mlx_go_ane.Layer.{
  Result, good, bad, handled, plain_add, LayerEnv, Outcome, gives, fails, Layered, layer_forward,
}
use autoresearch_mlx_go_ane.Layer.Paths.{IsFaithful}
use autoresearch_mlx_go_ane.Layer.Reference.{Computes, layer_forward-Computes}
use autoresearch_mlx_go_ane.Layer.NextNorm.{Carries, layer_forward-Carries}
use autoresearch_mlx_go_ane.Forward.{
  ForwardEnv, Walk, Walked, base_model, logits, store, after_layer, one_layer, layer_then,
  block_or_layer, layers_from, head_weight, evaluated, projected, transposed, weighted, headed,
  after_walk, start_walk, cast_pass, use_decode_plane, forward_from_embeddings,
}

module _ {A E V C : Type 0} (Near : A → A → Type 0) where
  -- The layer's own input norm of `x`, or something near it.
  abbrev pub IsNormOf : LayerEnv A E V C → A → Option A → Type 0
  IsNormOf l x none = Unit
  IsNormOf l x (some q) = (n : A) × (l.input_norm x ≡ good n) × Near q n

  -- What the fused norm of a layer promises: it gives the next layer's input norm of the output.
  abbrev pub IsLinkedTo : LayerEnv A E V C → List (LayerEnv A E V C) → Type 0
  IsLinkedTo l [] = Unit
  IsLinkedTo l (k ∷ ls) =
      (h out q r : A)
      → l.residual_norm h out ≡ handled q
      → plain_add l h out ≡ good r
      → (n : A) × (k.input_norm r ≡ good n) × Near q n

  abbrev pub AreLinked : List (LayerEnv A E V C) → Type 0
  AreLinked [] = Unit
  AreLinked (l ∷ ls) = IsLinkedTo l ls × AreLinked ls

  -- The hidden state goes through the layers one by one, each as the model defines it, with its own
  -- cache, on its own input norm of that state or a prepared norm near it.
  pub data Chain : List (LayerEnv A E V C) → ℕ → (ℕ → C) → A → A → Type 0 where
    stop : {i : ℕ} {caches : ℕ → C} {x : A} → Chain [] i caches x x
    step :
        {l : LayerEnv A E V C} {ls : List (LayerEnv A E V C)} {i : ℕ} {caches : ℕ → C} {x r y : A}
        {p : Option A} {after : C}
        → IsNormOf l x p
        → Computes Near l (caches i) x p r after
        → Chain ls (suc i) (store caches i after) r y
        → Chain (l ∷ ls) i caches x y

  -- The head of the model on the last hidden state.
  pub record IsHead (env : ForwardEnv A E V C) (h r : A) : Type 0 where
    pub out : A
    pub is_norm : env.final_norm h ≡ good out
    pub weight : A
    pub is_weight : head_weight env env.lm_head ≡ good weight
    pub flipped : A
    pub is_flipped : env.transpose weight ≡ good flipped
    pub is_product : env.matmul out flipped ≡ good r

  pub record IsModel (env : ForwardEnv A E V C) (ls : List (LayerEnv A E V C)) (caches : ℕ → C)
      (x r : A) : Type 0 where
    pub first : A
    pub is_first : env.cast_embeddings x ≡ good first
    pub last : A
    pub is_chain : Chain ls 0 caches first last
    pub is_head : IsHead env last r

  module _ (env : ForwardEnv A E V C) (hooked : env.has_hook ≡ true) where
    ChainsOn : List (LayerEnv A E V C) → ℕ → Walk A E V C → Walked A E V C → Type 0
    ChainsOn ls i w r = r.error ≡ none → Chain ls i w.caches w.h r.walk.h

    -- The norm prepared for the first of the layers, if any, is near its own.
    IsPrepared : List (LayerEnv A E V C) → A → Option A → Type 0
    IsPrepared [] x p = Unit
    IsPrepared (l ∷ ls) x p = IsNormOf l x p

    Carries-IsPrepared :
        (l : LayerEnv A E V C) (ls : List (LayerEnv A E V C)) (r : A) (next : Option A)
        → IsLinkedTo l ls
        → Carries l r next
        → IsPrepared ls r next
    unfolding IsPrepared
    Carries-IsPrepared l [] r next k h = tt
    Carries-IsPrepared l (m ∷ ls) r none k h = tt
    Carries-IsPrepared l (m ∷ ls) r (some q) k h = k h.residual h.out q r h.is_norm h.is_sum

    layer-ChainsOn :
        (l : LayerEnv A E V C) (ls : List (LayerEnv A E V C)) (i : ℕ) (w : Walk A E V C)
        (a : Layered A E V C) (o : Outcome A E V)
        → ((out : A) (next : Option A) (views : List V)
            → o ≡ gives out next views
            → Computes Near l (w.caches i) w.h w.prepared_norm out a.cache × IsPrepared ls out next)
        → IsNormOf l w.h w.prepared_norm
        → ((v : Walk A E V C)
            → IsPrepared ls v.h v.prepared_norm
            → ChainsOn ls (suc i) v (layers_from env ls (suc i) 0 v))
        → ChainsOn (l ∷ ls) i w (layer_then env (layers_from env ls (suc i)) (after_layer w i a o))
    unfolding ChainsOn
    layer-ChainsOn l ls i w a (gives out next views) f n k q =
        let (computes, prepared) = f out next views refl in
        step n computes (k (after_layer w i a (gives out next views)).walk prepared q)
    layer-ChainsOn l ls i w a (fails e) f n k q = cc

    layers_from_hooked :
        (l : LayerEnv A E V C) (ls : List (LayerEnv A E V C)) (i : ℕ) (w : Walk A E V C)
        → layers_from env (l ∷ ls) i 0 w
          ≡ layer_then env (layers_from env ls (suc i)) (one_layer env.gpu_fallback l i w)
    unfolding layers_from
    layers_from_hooked l ls i w =
        ap
          (λ b.
            block_or_layer env l i w (layers_from env ls (suc i))
              (if b then (w.caches, none) else env.direct i w.h w.caches))
          hooked

    layers_from-ChainsOn :
        (ls : List (LayerEnv A E V C)) (i : ℕ)
        → All (IsFaithful Near) ls
        → AreLinked ls
        → (w : Walk A E V C) → IsPrepared ls w.h w.prepared_norm
        → ChainsOn ls i w (layers_from env ls i 0 w)
    unfolding layers_from ChainsOn IsPrepared
    layers_from-ChainsOn [] i ok linked w n = λ q. stop
    layers_from-ChainsOn (l ∷ ls) i ok linked w n =
        subst (ChainsOn (l ∷ ls) i w) (sym (layers_from_hooked l ls i w)) (
          layer-ChainsOn l ls i w
            (layer_forward l env.gpu_fallback w.disabled (w.caches i) w.h w.prepared_norm)
            (layer_forward l env.gpu_fallback w.disabled (w.caches i) w.h w.prepared_norm).outcome
            (λ out next views f. (
              layer_forward-Computes Near l ok.0 env.gpu_fallback w.disabled (w.caches i) w.h out
                  w.prepared_norm next views f,
              Carries-IsPrepared l ls out next linked.0 (
                  layer_forward-Carries Near l ok.0 env.gpu_fallback w.disabled (w.caches i) w.h out
                    w.prepared_norm next views f),
            ))
            n (layers_from-ChainsOn ls (suc i) ok.1 linked.1))

    -- No norm is prepared for the first layer.
    start-IsPrepared : (ls : List (LayerEnv A E V C)) (x : A) → IsPrepared ls x none
    unfolding IsPrepared
    start-IsPrepared [] x = tt
    start-IsPrepared (l ∷ ls) x = tt

  module _ (env : ForwardEnv A E V C) where
    evaluated-good : (o r : A) (e s : Option E) → evaluated env o e s ≡ logits r → o ≡ r
    evaluated-good o r none none q = cc
    evaluated-good o r none (some x) q = cc
    evaluated-good o r (some x) s q = cc

    projected-good : (r : A) (o : Result E A) → projected env o ≡ logits r → o ≡ good r
    projected-good r (bad e) q = cc
    projected-good r (good p) q = ap good (choose env.gpu_fallback q)
      where
        choose :
            (b : Bool)
            → (if b then logits p else evaluated env p (env.eval_logits p) env.synchronize)
              ≡ logits r
            → p ≡ r
        choose true f = cc
        choose false f = evaluated-good p r (env.eval_logits p) env.synchronize f

    transposed-IsHead :
        (h out w r : A) (t : Result E A)
        → env.final_norm h ≡ good out
        → head_weight env env.lm_head ≡ good w
        → env.transpose w ≡ t
        → transposed env out t ≡ logits r
        → IsHead env h r
    transposed-IsHead h out w r (bad e) n k f q = cc
    transposed-IsHead h out w r (good t) n k f q = record {
      out = out;
      is_norm = n;
      weight = w;
      is_weight = k;
      flipped = t;
      is_flipped = f;
      is_product = projected-good r (env.matmul out t) q;
    }

    weighted-IsHead :
        (h out r : A) (w : Result E A)
        → env.final_norm h ≡ good out
        → head_weight env env.lm_head ≡ w
        → weighted env out w ≡ logits r
        → IsHead env h r
    weighted-IsHead h out r (bad e) n k q = cc
    weighted-IsHead h out r (good w) n k q =
        transposed-IsHead h out w r (env.transpose w) n k refl q

    headed-IsHead :
        (h r : A) (n : Result E A) → env.final_norm h ≡ n → headed env n ≡ logits r → IsHead env h r
    headed-IsHead h r (bad e) n q = cc
    headed-IsHead h r (good out) n q =
        weighted-IsHead h out r (head_weight env env.lm_head) n refl q

    after_walk-ends :
        (w : Walked A E V C) (o : Option E) (r : A)
        → w.error ≡ o
        → after_walk env w o ≡ logits r
        → (w.error ≡ none) × IsHead env w.walk.h r
    after_walk-ends w (some e) r f q = cc
    after_walk-ends w none r f q = (f, headed-IsHead w.walk.h r (env.final_norm w.walk.h) refl q)

    cast_pass-IsModel :
        (ls : List (LayerEnv A E V C)) (d : Option E) (caches : ℕ → C) (x r : A) (o : Result E A)
        → env.has_hook ≡ true
        → All (IsFaithful Near) ls
        → AreLinked ls
        → env.cast_embeddings x ≡ o
        → (cast_pass env ls d caches x o).outcome ≡ logits r
        → IsModel env ls caches x r
    unfolding ChainsOn
    cast_pass-IsModel ls d caches x r (bad e) hooked ok linked f q = cc
    cast_pass-IsModel ls d caches x r (good h) hooked ok linked f q =
        let w = layers_from env ls 0 0 (start_walk env h d caches) in
        let (e, hd) = after_walk-ends w w.error r refl q in
        record {
          first = h;
          is_first = f;
          last = w.walk.h;
          is_chain =
              layers_from-ChainsOn env hooked ls 0 ok linked (start_walk env h d caches)
                (start-IsPrepared env hooked ls h) e;
          is_head = hd;
        }

    -- With a hook, when what the stages and the fused routines of every layer promise holds, and
    -- the fused norm of a layer gives something near the next layer's input norm of the layer's
    -- output: the logits of a forward pass are the model's. The embeddings go through every layer
    -- once, in order, each with its own cache and on its own input norm of the hidden state or a
    -- prepared norm near it, and then through the final norm and the head.
    pub forward-IsModel :
        (ls : List (LayerEnv A E V C)) (d : Option E) (caches : ℕ → C) (x r : A)
        → env.has_hook ≡ true
        → All (IsFaithful Near) ls
        → AreLinked ls
        → (forward_from_embeddings env ls d caches x).outcome ≡ logits r
        → IsModel env ls caches x r
    unfolding forward_from_embeddings
    forward-IsModel ls d caches x r hooked ok linked q = choose (use_decode_plane env d) q
      where
        choose :
            (b : Bool)
            → (if b then cast_pass env ls d caches x (env.cast_embeddings x) else record {
              outcome = base_model;
              walk = start_walk env x d caches;
              released = [];
            }).outcome
              ≡ logits r
            → IsModel env ls caches x r
        choose true f =
            cast_pass-IsModel ls d caches x r (env.cast_embeddings x) hooked ok linked refl f
        choose false f = cc
