-- ===== src/Layer/Reference.antt =====
-- decode/dispatch.go, layerForward: every path of a layer against the layer as the model defines it.
use autoresearch_mlx_go_ane.Prelude.{
  ◌≡◌, refl, ap, sym, ◌∙◌, ◌⊎◌, inl, inr, Bool, true, false, List, [], Option, none, some, ◌||◌,
  if◌then◌else◌,
}
use autoresearch_mlx_go_ane.Layer.{
  Result, good, bad, Fused, broke, skipped, handled, LayerEnv, Ffn, done, broken, returns, Outcome,
  gives, fails, is_some, ffn, add_mlp, fallback_normed, fallback_added, combined, plain_add,
  residual_added, residual_normed, finish_ffn, gpu_normed, gpu_only, attended, normed, norm_of,
  layer_forward,
}
use autoresearch_mlx_go_ane.Layer.Views.{chosen-cache}
use autoresearch_mlx_go_ane.Layer.Paths.{NearFfn, IsFaithful, Ends, ffn-Ends}

module _ {A E V C : Type 0} (Near : A → A → Type 0) where
  -- A layer's output: the residual of the attention, plus something near the MLP of its norm.
  pub record IsLayerOf (env : LayerEnv A E V C) (x attn r : A) : Type 0 where
    pub residual : A
    pub is_residual : env.add x attn ≡ good residual
    pub part : A
    pub is_part : NearFfn Near env residual part
    pub is_sum : (plain_add env residual part ≡ good r) ⊎ (env.add residual part ≡ good r)

  -- The attention of a layer and the cache after it, where both the norm and the attention succeed.
  pub record Attends (env : LayerEnv A E V C) (c : C) (x : A) (prepared_norm : Option A) (attn : A)
      (after : C) : Type 0 where
    pub norm : A
    pub is_norm : norm_of env x prepared_norm ≡ good norm
    pub is_attention : env.attention c norm ≡ (good attn, after)

  pub record Computes (env : LayerEnv A E V C) (c : C) (x : A) (prepared_norm : Option A) (r : A)
      (after : C) : Type 0 where
    pub attn : A
    pub attends : Attends env c x prepared_norm attn after
    pub is_layer : IsLayerOf env x attn r

  module _ (env : LayerEnv A E V C) (ok : IsFaithful Near env) where
    open ok use {near_refl, prepares, inputs, residuals, dense, moe, fused_add}

    add_mlp-IsLayerOf :
        (x attn h n r : A) (next : Option A) (views : List V) (o : Result E A)
        → env.add x attn ≡ good h
        → env.post_norm h ≡ good n
        → env.fallback_mlp n ≡ o
        → add_mlp env h o ≡ gives r next views
        → IsLayerOf env x attn r
    add_mlp-IsLayerOf x attn h n r next views (bad e) a p q f = cc
    add_mlp-IsLayerOf x attn h n r next views (good m) a p q f = record {
      residual = h;
      is_residual = a;
      part = m;
      is_part = record {
        post = n;
        is_post = p;
        answer = record { mlp = m; is_mlp = q; near = near_refl m };
      };
      is_sum = inr (sum (env.add h m) f);
    }
      where
        sum :
            (o : Result E A)
            → ◌≡◌ {A = Outcome A E V}
                (elim o [ good out ↦ gives out none [] | bad e ↦ fails e ])
                (gives r next views)
            → o ≡ good r
        sum (good out) g = cc
        sum (bad e) g = cc

    fallback_normed-IsLayerOf :
        (x attn h r : A) (d err : Option E) (c : C) (next : Option A) (views : List V)
        (o : Result E A)
        → env.add x attn ≡ good h
        → env.post_norm h ≡ o
        → (fallback_normed env d c h err o).outcome ≡ gives r next views
        → IsLayerOf env x attn r
    fallback_normed-IsLayerOf x attn h r d err c next views (bad e) a p f = cc
    fallback_normed-IsLayerOf x attn h r d err c next views (good n) a p f =
        add_mlp-IsLayerOf x attn h n r next views (env.fallback_mlp n) a p refl f

    fallback_added-IsLayerOf :
        (x attn r : A) (d : Option E) (c : C) (next : Option A) (views : List V) (o : Result E A)
        → env.add x attn ≡ o
        → (fallback_added env d c none o).outcome ≡ gives r next views
        → IsLayerOf env x attn r
    fallback_added-IsLayerOf x attn r d c next views (bad e) a f = cc
    fallback_added-IsLayerOf x attn r d c next views (good h) a f =
        fallback_normed-IsLayerOf x attn h r d none c next views (env.post_norm h) a refl f

    combined-gives :
        (d : Option E) (c : C) (vs views : List V) (next next' : Option A) (r : A) (o : Result E A)
        → (combined env d c vs next o).outcome ≡ gives r next' views
        → o ≡ good r
    combined-gives d c vs views next next' r (good out) f = cc
    combined-gives d c vs views next next' r (bad e) f = cc

    pub residual_added-gives :
        (d : Option E) (c : C) (h out r : A) (vs views : List V) (next next' : Option A)
        (o : Fused E A)
        → env.residual_add h out ≡ o
        → (residual_added env d c h out vs next o).outcome ≡ gives r next' views
        → plain_add env h out ≡ good r
    residual_added-gives d c h out r vs views next next' (broke e) p f = cc
    residual_added-gives d c h out r vs views next next' (handled q) p f =
        let same : q ≡ r = cc in fused_add h out r (rw (p, same) refl)
    residual_added-gives d c h out r vs views next next' skipped p f =
        combined-gives d c vs views next next' r (plain_add env h out) f

    residual_normed-gives :
        (d : Option E) (c : C) (h out r : A) (vs views : List V) (next : Option A) (o : Fused E A)
        → (residual_normed env d c h out vs o).outcome ≡ gives r next views
        → plain_add env h out ≡ good r
    residual_normed-gives d c h out r vs views next (broke e) f = cc
    residual_normed-gives d c h out r vs views next (handled q) f =
        residual_added-gives d c h out r vs views (some q) next (env.residual_add h out) refl f
    residual_normed-gives d c h out r vs views next skipped f =
        residual_added-gives d c h out r vs views none next (env.residual_add h out) refl f

    finish_ffn-IsLayerOf :
        (x attn r : A) (d : Option E) (c : C) (next : Option A) (views : List V) (o : Ffn A E V)
        → Ends Near env ok x attn o
        → (finish_ffn env d c x attn o).outcome ≡ gives r next views
        → IsLayerOf env x attn r
    unfolding finish_ffn Ends
    finish_ffn-IsLayerOf x attn r d c next views (returns e) known f = cc
    finish_ffn-IsLayerOf x attn r d c next views (done h out vs) known f = record {
      residual = h;
      is_residual = known.0;
      part = out;
      is_part = known.1;
      is_sum = inl (residual_normed-gives d c h out r vs views next (env.residual_norm h out) f);
    }
    finish_ffn-IsLayerOf x attn r d c next views (broken none none e) known f =
        fallback_added-IsLayerOf x attn r d c next views (env.add x attn) refl f
    finish_ffn-IsLayerOf x attn r d c next views (broken none (some n) e) known f = cc
    finish_ffn-IsLayerOf x attn r d c next views (broken (some h) none e) known f =
        fallback_normed-IsLayerOf x attn h r d none c next views (env.post_norm h) known refl f
    finish_ffn-IsLayerOf x attn r d c next views (broken (some h) (some n) e) known f =
        fallback_normed-IsLayerOf x attn h r d (some e) c next views (good n) known.0 known.1 f

    gpu_normed-IsLayerOf :
        (x attn h r : A) (d : Option E) (c : C) (next : Option A) (views : List V) (o : Result E A)
        → env.add x attn ≡ good h
        → env.post_norm h ≡ o
        → (gpu_normed env d c h o).outcome ≡ gives r next views
        → IsLayerOf env x attn r
    gpu_normed-IsLayerOf x attn h r d c next views (bad e) a p f = cc
    gpu_normed-IsLayerOf x attn h r d c next views (good n) a p f =
        add_mlp-IsLayerOf x attn h n r next views (env.fallback_mlp n) a p refl f

    gpu_only-IsLayerOf :
        (x attn r : A) (d : Option E) (c : C) (next : Option A) (views : List V) (o : Result E A)
        → env.add x attn ≡ o
        → (gpu_only env d c o).outcome ≡ gives r next views
        → IsLayerOf env x attn r
    gpu_only-IsLayerOf x attn r d c next views (bad e) a f = cc
    gpu_only-IsLayerOf x attn r d c next views (good h) a f =
        gpu_normed-IsLayerOf x attn h r d c next views (env.post_norm h) a refl f

    -- Which of the two paths a layer takes once its attention is there.
    chosen-IsLayerOf :
        (x attn r : A) (d : Option E) (c : C) (next : Option A) (views : List V) (gpu : Bool)
        → (if gpu
            then gpu_only env d c (env.add x attn)
            else finish_ffn env d c x attn (ffn env x attn)).outcome
          ≡ gives r next views
        → IsLayerOf env x attn r
    chosen-IsLayerOf x attn r d c next views true f =
        gpu_only-IsLayerOf x attn r d c next views (env.add x attn) refl f
    chosen-IsLayerOf x attn r d c next views false f =
        finish_ffn-IsLayerOf x attn r d c next views (ffn env x attn) (ffn-Ends Near env ok x attn)
          f

    attended-Computes :
        (c : C) (x n r : A) (p : Option A) (d : Option E) (next : Option A) (views : List V)
        (gpu : Bool) (o : Result E A × C)
        → norm_of env x p ≡ good n
        → env.attention c n ≡ o
        → (attended env gpu d x o).outcome ≡ gives r next views
        → Computes env c x p r (attended env gpu d x o).cache
    attended-Computes c x n r p d next views gpu (bad e, c') q a f = cc
    attended-Computes c x n r p d next views gpu (good attn, c') q a f = record {
      attn = attn;
      attends = record {
        norm = n;
        is_norm = q;
        is_attention =
            a ∙ ap (λ k. (good attn, k)) (sym (chosen-cache env x attn d c' (is_some d || gpu)));
      };
      is_layer = chosen-IsLayerOf x attn r d c' next views (is_some d || gpu) f;
    }

    normed-Computes :
        (c : C) (x r : A) (p : Option A) (d : Option E) (next : Option A) (views : List V)
        (gpu : Bool) (o : Result E A)
        → norm_of env x p ≡ o
        → (normed env gpu d c x o).outcome ≡ gives r next views
        → Computes env c x p r (normed env gpu d c x o).cache
    normed-Computes c x r p d next views gpu (bad e) q f = cc
    normed-Computes c x r p d next views gpu (good n) q f =
        attended-Computes c x n r p d next views gpu (env.attention c n) q refl f

    -- When what the stages and the fused routines promise holds, every output of `layerForward`, on
    -- whichever path, accelerator, error fallback or GPU only, is the layer's: its attention ran
    -- once, on the prepared norm or the input norm, and left the cache as returned, and the output
    -- is the attention's residual plus something near the MLP of its norm.
    pub layer_forward-Computes :
        (gpu : Bool) (d : Option E) (c : C) (x r : A) (prepared_norm next : Option A)
        (views : List V)
        → (layer_forward env gpu d c x prepared_norm).outcome ≡ gives r next views
        → Computes env c x prepared_norm r (layer_forward env gpu d c x prepared_norm).cache
    unfolding layer_forward
    layer_forward-Computes gpu d c x r p next views f =
        normed-Computes c x r p d next views gpu (norm_of env x p) refl f
