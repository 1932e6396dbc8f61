-- ===== src/Layer/Paths.antt =====
-- decode/dispatch.go, layerForward: what is known of `h`, the norm and the output where each path of the
-- feed-forward part ends, if the stages and the fused routines keep their promises.
use autoresearch_mlx_go_ane.Prelude.{
  ◌≡◌, refl, Bool, true, false, List, Option, none, some, if◌then◌else◌,
}
use autoresearch_mlx_go_ane.Layer.{
  Result, good, bad, Fused, broke, skipped, handled, LayerEnv, Ffn, done, broken, returns,
  dispatch_normed, standard_normed, from_residual, norm_only, from_inputs, prepared, try_prepared,
  dense_ffn, moe_normed, moe_ffn, ffn, plain_add,
}

module _ {A E V C : Type 0} (Near : A → A → Type 0) where
  -- The accelerator's answer to a normed input is near what the MLP of the model gives.
  pub record NearMlp (env : LayerEnv A E V C) (n out : A) : Type 0 where
    pub mlp : A
    pub is_mlp : env.fallback_mlp n ≡ good mlp
    pub near : Near mlp out

  -- From the attention's residual on: the norm, and the accelerator's answer to it.
  pub record NearFfn (env : LayerEnv A E V C) (h out : A) : Type 0 where
    pub post : A
    pub is_post : env.post_norm h ≡ good post
    pub answer : NearMlp env post out

  -- What the stages and the fused routines promise.
  pub record IsFaithful (env : LayerEnv A E V C) : Type 0 where
    pub near_refl : (m : A) → Near m m
    pub prepares :
        (x attn h packed out : A) (views : List V)
        → env.prepare x attn ≡ some (h, packed)
        → env.dense_output_prepared packed ≡ good (out, views)
        → (env.add x attn ≡ good h) × NearFfn env h out
    pub inputs :
        (x attn h out : A) (views : List V)
        → env.dense_output_from_inputs x attn ≡ handled (h, out, views)
        → (env.add x attn ≡ good h) × NearFfn env h out
    pub residuals :
        (h out : A) (views : List V)
        → env.dense_output_from_residual h ≡ handled (out, views)
        → NearFfn env h out
    pub dense :
        (n out : A) (views : List V) → env.dense_output n ≡ good (out, views) → NearMlp env n out
    pub moe :
        (n out : A) (views : List V) → env.moe_output n ≡ good (out, views) → NearMlp env n out
    pub fused_add :
        (h out r : A) → env.residual_add h out ≡ handled r → plain_add env h out ≡ good r

  module _ (env : LayerEnv A E V C) (ok : IsFaithful env) where
    open ok use {near_refl, prepares, inputs, residuals, dense, moe, fused_add}

    -- What is known where the feed-forward part ends.
    unfoldable pub Ends : A → A → Ffn A E V → Type 0
    Ends x attn (done h out views) = (env.add x attn ≡ good h) × NearFfn env h out
    Ends x attn (broken none n e) = n ≡ none
    Ends x attn (broken (some h) none e) = env.add x attn ≡ good h
    Ends x attn (broken (some h) (some n) e) =
        (env.add x attn ≡ good h) × (env.post_norm h ≡ good n)
    Ends x attn (returns e) = Unit

    dispatch_normed-Ends :
        (x attn h n : A) (o : Result E (A × List V))
        → env.add x attn ≡ good h
        → env.post_norm h ≡ good n
        → ((out : A) (views : List V) → o ≡ good (out, views) → NearMlp env n out)
        → Ends x attn (dispatch_normed env h n o)
    unfolding Ends
    dispatch_normed-Ends x attn h n (bad e) a p f = (a, p)
    dispatch_normed-Ends x attn h n (good (out, views)) a p f =
        (a, record { post = n; is_post = p; answer = f out views refl })

    standard-Ends :
        (x attn h : A) (o : Result E A)
        → env.post_norm h ≡ o
        → env.add x attn ≡ good h
        → Ends x attn (standard_normed env h o)
    unfolding Ends
    standard-Ends x attn h (bad e) p a = tt
    standard-Ends x attn h (good n) p a =
        dispatch_normed-Ends x attn h n (env.dense_output n) a p (dense n)

    from_residual-Ends :
        (x attn h : A) (o : Fused E (A × List V))
        → env.dense_output_from_residual h ≡ o
        → env.add x attn ≡ good h
        → Ends x attn (from_residual env h o)
    unfolding Ends
    from_residual-Ends x attn h (broke e) p a = a
    from_residual-Ends x attn h (handled (out, views)) p a = (a, residuals h out views p)
    from_residual-Ends x attn h skipped p a = standard-Ends x attn h (env.post_norm h) refl a

    norm_only-Ends :
        (x attn : A) (o : Result E A) → env.add x attn ≡ o → Ends x attn (norm_only env o)
    unfolding Ends
    norm_only-Ends x attn (bad e) a = tt
    norm_only-Ends x attn (good h) a =
        from_residual-Ends x attn h (env.dense_output_from_residual h) refl a

    from_inputs-Ends :
        (x attn : A) (o : Fused E (A × A × List V))
        → env.dense_output_from_inputs x attn ≡ o
        → Ends x attn (from_inputs env x attn o)
    unfolding Ends
    from_inputs-Ends x attn (broke e) p = refl
    from_inputs-Ends x attn (handled (h, out, views)) p = inputs x attn h out views p
    from_inputs-Ends x attn skipped p = norm_only-Ends x attn (env.add x attn) refl

    prepared-Ends :
        (x attn h packed : A) (o : Result E (A × List V))
        → env.prepare x attn ≡ some (h, packed)
        → env.dense_output_prepared packed ≡ o
        → Ends x attn (prepared env x attn h o)
    unfolding Ends
    prepared-Ends x attn h packed (good (out, views)) p q = prepares x attn h packed out views p q
    prepared-Ends x attn h packed (bad e) p q =
        from_inputs-Ends x attn (env.dense_output_from_inputs x attn) refl

    try_prepared-Ends :
        (x attn : A) (o : Option (A × A))
        → env.prepare x attn ≡ o
        → Ends x attn (try_prepared env x attn o)
    try_prepared-Ends x attn (some (h, packed)) p =
        prepared-Ends x attn h packed (env.dense_output_prepared packed) p refl
    try_prepared-Ends x attn none p =
        from_inputs-Ends x attn (env.dense_output_from_inputs x attn) refl

    dense_ffn-Ends : (x attn : A) (o : Option E) → Ends x attn (dense_ffn env x attn o)
    unfolding Ends
    dense_ffn-Ends x attn (some e) = refl
    dense_ffn-Ends x attn none = try_prepared-Ends x attn (env.prepare x attn) refl

    moe_normed-Ends :
        (x attn h : A) (o : Result E A)
        → env.post_norm h ≡ o
        → env.add x attn ≡ good h
        → Ends x attn (moe_normed env h o)
    unfolding Ends
    moe_normed-Ends x attn h (bad e) p a = tt
    moe_normed-Ends x attn h (good n) p a =
        dispatch_normed-Ends x attn h n (env.moe_output n) a p (moe n)

    moe_ffn-Ends : (x attn : A) (o : Result E A) → env.add x attn ≡ o → Ends x attn (moe_ffn env o)
    unfolding Ends
    moe_ffn-Ends x attn (bad e) a = tt
    moe_ffn-Ends x attn (good h) a = moe_normed-Ends x attn h (env.post_norm h) refl a

    pub ffn-Ends : (x attn : A) → Ends x attn (ffn env x attn)
    unfolding ffn
    ffn-Ends x attn = pick env.is_moe
      where
        pick :
            (b : Bool)
            → Ends x attn
                (if b then moe_ffn env (env.add x attn) else dense_ffn env x attn env.dense_stage)
        pick true = moe_ffn-Ends x attn (env.add x attn) refl
        pick false = dense_ffn-Ends x attn env.dense_stage
