-- ===== src/Layer/Total.antt =====
-- decode/dispatch.go, layerForward: no failure of a stage fails a layer.
use autoresearch_mlx_go_ane.Prelude.{
  refl, ◌≢◌, Bool, true, false, List, [], Option, none, some, ◌||◌, if◌then◌else◌,
}
use autoresearch_mlx_go_ane.Layer.{
  Result, good, bad, Fused, broke, skipped, handled, LayerEnv, Ffn, done, broken, returns, Outcome,
  gives, fails, is_some, dispatch_normed, standard_normed, from_residual, norm_only, from_inputs,
  prepared, try_prepared, dense_ffn, moe_normed, moe_ffn, ffn, add_mlp, fallback_normed,
  fallback_norm, fallback_added, fallback, combined, plain_add, residual_added, residual_normed,
  finish_ffn, gpu_normed, gpu_only, attended, normed, norm_of, layer_forward,
}

module _ {A E : Type 0} where
  abbrev pub IsGood : Result E A → Type 0
  IsGood o = (e : E) → o ≢ bad e

  abbrev pub IsWhole : Fused E A → Type 0
  IsWhole o = (e : E) → o ≢ broke e

module _ {A E V : Type 0} where
  unfoldable pub Gives : Outcome A E V → Type 0
  Gives (gives out next views) = Unit
  Gives (fails e) = ⊥

  -- The feed-forward part goes on, to `postFFN` or to the error fallback.
  GoesOn : Ffn A E V → Type 0
  GoesOn (done h out views) = Unit
  GoesOn (broken h n e) = Unit
  GoesOn (returns e) = ⊥

module _ {A E V C : Type 0} where
  -- What runs on the GPU succeeds: nothing is asked of the stages.
  pub record GpuWorks (env : LayerEnv A E V C) : Type 0 where
    pub norms : (x : A) → IsGood (env.input_norm x)
    pub attends : (c : C) (n : A) → IsGood (env.attention c n).0
    pub adds : (x y : A) → IsGood (env.add x y)
    pub post_norms : (h : A) → IsGood (env.post_norm h)
    pub mlps : (n : A) → IsGood (env.fallback_mlp n)
    pub casts : (h out : A) → IsGood (env.cast h out)
    pub fused_norms : (h out : A) → IsWhole (env.residual_norm h out)
    pub fused_adds : (h out : A) → IsWhole (env.residual_add h out)

  module _ (env : LayerEnv A E V C) (ok : GpuWorks env) where
    open ok use {norms, attends, adds, post_norms, mlps, casts, fused_norms, fused_adds}

    dispatch-GoesOn : (h n : A) (o : Result E (A × List V)) → GoesOn (dispatch_normed env h n o)
    unfolding GoesOn
    dispatch-GoesOn h n (good (out, views)) = tt
    dispatch-GoesOn h n (bad e) = tt

    standard-GoesOn : (h : A) (o : Result E A) → IsGood o → GoesOn (standard_normed env h o)
    standard-GoesOn h (good n) k = dispatch-GoesOn h n (env.dense_output n)
    standard-GoesOn h (bad e) k = absurd (k e refl)

    from_residual-GoesOn : (h : A) (o : Fused E (A × List V)) → GoesOn (from_residual env h o)
    unfolding GoesOn
    from_residual-GoesOn h (broke e) = tt
    from_residual-GoesOn h (handled (out, views)) = tt
    from_residual-GoesOn h skipped = standard-GoesOn h (env.post_norm h) (post_norms h)

    norm_only-GoesOn : (o : Result E A) → IsGood o → GoesOn (norm_only env o)
    norm_only-GoesOn (good h) k = from_residual-GoesOn h (env.dense_output_from_residual h)
    norm_only-GoesOn (bad e) k = absurd (k e refl)

    from_inputs-GoesOn :
        (x attn : A) (o : Fused E (A × A × List V)) → GoesOn (from_inputs env x attn o)
    unfolding GoesOn
    from_inputs-GoesOn x attn (broke e) = tt
    from_inputs-GoesOn x attn (handled (h, out, views)) = tt
    from_inputs-GoesOn x attn skipped = norm_only-GoesOn (env.add x attn) (adds x attn)

    prepared-GoesOn : (x attn h : A) (o : Result E (A × List V)) → GoesOn (prepared env x attn h o)
    unfolding GoesOn
    prepared-GoesOn x attn h (good (out, views)) = tt
    prepared-GoesOn x attn h (bad e) =
        from_inputs-GoesOn x attn (env.dense_output_from_inputs x attn)

    try_prepared-GoesOn : (x attn : A) (o : Option (A × A)) → GoesOn (try_prepared env x attn o)
    try_prepared-GoesOn x attn (some (h, packed)) =
        prepared-GoesOn x attn h (env.dense_output_prepared packed)
    try_prepared-GoesOn x attn none =
        from_inputs-GoesOn x attn (env.dense_output_from_inputs x attn)

    dense_ffn-GoesOn : (x attn : A) (o : Option E) → GoesOn (dense_ffn env x attn o)
    unfolding GoesOn
    dense_ffn-GoesOn x attn (some e) = tt
    dense_ffn-GoesOn x attn none = try_prepared-GoesOn x attn (env.prepare x attn)

    moe_normed-GoesOn : (h : A) (o : Result E A) → IsGood o → GoesOn (moe_normed env h o)
    moe_normed-GoesOn h (good n) k = dispatch-GoesOn h n (env.moe_output n)
    moe_normed-GoesOn h (bad e) k = absurd (k e refl)

    moe_ffn-GoesOn : (o : Result E A) → IsGood o → GoesOn (moe_ffn env o)
    moe_ffn-GoesOn (good h) k = moe_normed-GoesOn h (env.post_norm h) (post_norms h)
    moe_ffn-GoesOn (bad e) k = absurd (k e refl)

    ffn-GoesOn : (x attn : A) → GoesOn (ffn env x attn)
    unfolding ffn
    ffn-GoesOn x attn = pick env.is_moe
      where
        pick :
            (b : Bool)
            → GoesOn
                (if b then moe_ffn env (env.add x attn) else dense_ffn env x attn env.dense_stage)
        pick true = moe_ffn-GoesOn (env.add x attn) (adds x attn)
        pick false = dense_ffn-GoesOn x attn env.dense_stage

    add_mlp-Gives : (h : A) (o : Result E A) → IsGood o → Gives (add_mlp env h o)
    unfolding Gives
    add_mlp-Gives h (bad e) k = absurd (k e refl)
    add_mlp-Gives h (good m) k = sum (env.add h m) (adds h m)
      where
        sum :
            (o : Result E A)
            → IsGood o
            → Gives {V = V} (elim o [ good out ↦ gives out none [] | bad e ↦ fails e ])
        sum (good out) k' = tt
        sum (bad e) k' = absurd (k' e refl)

    fallback_normed-Gives :
        (d err : Option E) (c : C) (h : A) (o : Result E A)
        → IsGood o
        → Gives (fallback_normed env d c h err o).outcome
    fallback_normed-Gives d err c h (good n) k = add_mlp-Gives h (env.fallback_mlp n) (mlps n)
    fallback_normed-Gives d err c h (bad e) k = absurd (k e refl)

    fallback_norm-Gives :
        (d err : Option E) (c : C) (h : A) (n : Option A)
        → Gives (fallback_norm env d c h n err).outcome
    fallback_norm-Gives d err c h (some n) = fallback_normed-Gives d err c h (good n) (λ e q. cc)
    fallback_norm-Gives d err c h none =
        fallback_normed-Gives d none c h (env.post_norm h) (post_norms h)

    fallback_added-Gives :
        (d : Option E) (c : C) (n : Option A) (o : Result E A)
        → IsGood o
        → Gives (fallback_added env d c n o).outcome
    fallback_added-Gives d c n (good h) k = fallback_norm-Gives d none c h n
    fallback_added-Gives d c n (bad e) k = absurd (k e refl)

    fallback-Gives :
        (d : Option E) (c : C) (x attn : A) (h n : Option A) (e : E)
        → Gives (fallback env d c x attn h n e).outcome
    fallback-Gives d c x attn (some h) n e = fallback_norm-Gives d (some e) c h n
    fallback-Gives d c x attn none n e = fallback_added-Gives d c n (env.add x attn) (adds x attn)

    plain_add-IsGood : (h out : A) → IsGood (plain_add env h out)
    plain_add-IsGood h out = pick (env.same_dtype h out)
      where
        after_cast :
            (o : Result E A) → IsGood o → IsGood (elim o [ good g ↦ env.add g out | bad e ↦ bad e ])
        after_cast (good g) k = adds g out
        after_cast (bad e) k = absurd (k e refl)

        pick :
            (b : Bool)
            → IsGood (
                if b
                then env.add h out
                else elim (env.cast h out) [ good g ↦ env.add g out | bad e ↦ bad e ])
        pick true = adds h out
        pick false = after_cast (env.cast h out) (casts h out)

    combined-Gives :
        (d : Option E) (c : C) (views : List V) (next : Option A) (o : Result E A)
        → IsGood o
        → Gives (combined env d c views next o).outcome
    unfolding Gives
    combined-Gives d c views next (good out) k = tt
    combined-Gives d c views next (bad e) k = absurd (k e refl)

    residual_added-Gives :
        (d : Option E) (c : C) (h out : A) (views : List V) (next : Option A) (o : Fused E A)
        → IsWhole o
        → Gives (residual_added env d c h out views next o).outcome
    residual_added-Gives d c h out views next (broke e) k = absurd (k e refl)
    residual_added-Gives d c h out views next (handled r) k =
        combined-Gives d c views next (good r) (λ e q. cc)
    residual_added-Gives d c h out views next skipped k =
        combined-Gives d c views next (plain_add env h out) (plain_add-IsGood h out)

    residual_normed-Gives :
        (d : Option E) (c : C) (h out : A) (views : List V) (o : Fused E A)
        → IsWhole o
        → Gives (residual_normed env d c h out views o).outcome
    residual_normed-Gives d c h out views (broke e) k = absurd (k e refl)
    residual_normed-Gives d c h out views (handled r) k =
        residual_added-Gives d c h out views (some r) (env.residual_add h out) (fused_adds h out)
    residual_normed-Gives d c h out views skipped k =
        residual_added-Gives d c h out views none (env.residual_add h out) (fused_adds h out)

    finish_ffn-Gives :
        (d : Option E) (c : C) (x attn : A) (o : Ffn A E V)
        → GoesOn o
        → Gives (finish_ffn env d c x attn o).outcome
    unfolding finish_ffn GoesOn
    finish_ffn-Gives d c x attn (done h out views) k =
        residual_normed-Gives d c h out views (env.residual_norm h out) (fused_norms h out)
    finish_ffn-Gives d c x attn (broken h n e) k = fallback-Gives d c x attn h n e
    finish_ffn-Gives d c x attn (returns e) k = absurd k

    gpu_normed-Gives :
        (d : Option E) (c : C) (h : A) (o : Result E A)
        → IsGood o
        → Gives (gpu_normed env d c h o).outcome
    gpu_normed-Gives d c h (good n) k = add_mlp-Gives h (env.fallback_mlp n) (mlps n)
    gpu_normed-Gives d c h (bad e) k = absurd (k e refl)

    gpu_only-Gives :
        (d : Option E) (c : C) (o : Result E A) → IsGood o → Gives (gpu_only env d c o).outcome
    gpu_only-Gives d c (good h) k = gpu_normed-Gives d c h (env.post_norm h) (post_norms h)
    gpu_only-Gives d c (bad e) k = absurd (k e refl)

    attended-Gives :
        (gpu : Bool) (d : Option E) (x : A) (o : Result E A × C)
        → IsGood o.0
        → Gives (attended env gpu d x o).outcome
    attended-Gives gpu d x (bad e, c) k = absurd (k e refl)
    attended-Gives gpu d x (good attn, c) k = choose (is_some d || gpu)
      where
        choose :
            (b : Bool)
            → Gives
                (if b
                  then gpu_only env d c (env.add x attn)
                  else finish_ffn env d c x attn (ffn env x attn)).outcome
        choose true = gpu_only-Gives d c (env.add x attn) (adds x attn)
        choose false = finish_ffn-Gives d c x attn (ffn env x attn) (ffn-GoesOn x attn)

    normed-Gives :
        (gpu : Bool) (d : Option E) (c : C) (x : A) (o : Result E A)
        → IsGood o
        → Gives (normed env gpu d c x o).outcome
    normed-Gives gpu d c x (good n) k = attended-Gives gpu d x (env.attention c n) (attends c n)
    normed-Gives gpu d c x (bad e) k = absurd (k e refl)

    norm_of-IsGood : (x : A) (p : Option A) → IsGood (norm_of env x p)
    norm_of-IsGood x (some n) = λ e q. cc
    norm_of-IsGood x none = norms x

    -- When the norms, the attention, the adds, the casts, the MLP and the fused residual routines
    -- succeed, `layerForward` gives an output, whatever the stages answer and whether or not the
    -- plane is disabled.
    pub layer_forward-Gives :
        (gpu : Bool) (d : Option E) (c : C) (x : A) (p : Option A)
        → Gives (layer_forward env gpu d c x p).outcome
    unfolding layer_forward
    layer_forward-Gives gpu d c x p = normed-Gives gpu d c x (norm_of env x p) (norm_of-IsGood x p)
