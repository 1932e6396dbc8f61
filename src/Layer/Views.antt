-- ===== src/Layer/Views.antt =====
-- decode/dispatch.go, layerForward: what becomes of the output views, of the cache and of the plane.
use autoresearch_mlx_go_ane.Prelude.{
  ◌≡◌, refl, subst, ap, sym, ◌∙◌, ◌⊎◌, inl, inr, Bool, true, false, List, [], Option, none, some,
  ◌||◌, if◌then◌else◌,
}
use autoresearch_mlx_go_ane.Layer.{
  Result, good, bad, Fused, broke, skipped, handled, LayerEnv, Ffn, done, broken, returns, Outcome,
  gives, fails, Layered, is_some, disable, ffn, add_mlp, fallback_normed, fallback_added, fallback,
  combined, plain_add, residual_added, residual_normed, finish_ffn, gpu_normed, gpu_only, attended,
  normed, norm_of, layer_forward,
}

module _ {A E V : Type 0} where
  -- `views` were lent: a return without an error hands them on, one with an error has released them.
  unfoldable pub IsSettled : List V → Outcome A E V → List V → Type 0
  IsSettled views (gives out next handed) released = (handed ≡ views) × (released ≡ [])
  IsSettled views (fails e) released = released ≡ views

  -- The views that the feed-forward part took.
  abbrev pub views_of : Ffn A E V → List V
  views_of (done h out views) = views
  views_of (broken h n e) = []
  views_of (returns e) = []

  -- The error that is left in `err` when `disable` is called: none, once a value is recomputed.
  abbrev pub left_error : Ffn A E V → Option E
  left_error (broken (some h) (some n) e) = some e
  left_error (broken (some h) none e) = none
  left_error (broken none n e) = none
  left_error (done h out views) = none
  left_error (returns e) = none

module _ {A E V C : Type 0} where
  -- The layer leaves the cache `c`, the plane as `d`, and the views settled.
  pub record Leaves (d : Option E) (c : C) (views : List V) (l : Layered A E V C) : Type 0 where
    pub cache : l.cache ≡ c
    pub plane : l.disabled ≡ d
    pub settled : IsSettled views l.outcome l.released

  module _ (env : LayerEnv A E V C) where
    add_mlp-IsSettled : (h : A) (o : Result E A) → IsSettled [] (add_mlp env h o) []
    unfolding IsSettled
    add_mlp-IsSettled h (bad e) = refl
    add_mlp-IsSettled h (good m) = sum (env.add h m)
      where
        sum :
            (o : Result E A)
            → IsSettled {V = V} [] (elim o [ good out ↦ gives out none [] | bad e ↦ fails e ]) []
        sum (good out) = (refl, refl)
        sum (bad e) = refl

    combined-Leaves :
        (d : Option E) (c : C) (views : List V) (next : Option A) (o : Result E A)
        → Leaves d c views (combined env d c views next o)
    unfolding IsSettled
    combined-Leaves d c views next (good out) = record {
      cache = refl;
      plane = refl;
      settled = (refl, refl);
    }
    combined-Leaves d c views next (bad e) = record { cache = refl; plane = refl; settled = refl }

    residual_added-Leaves :
        (d : Option E) (c : C) (h out : A) (views : List V) (next : Option A) (o : Fused E A)
        → Leaves d c views (residual_added env d c h out views next o)
    unfolding IsSettled
    residual_added-Leaves d c h out views next (broke e) = record {
      cache = refl;
      plane = refl;
      settled = refl;
    }
    residual_added-Leaves d c h out views next (handled r) = combined-Leaves d c views next (good r)
    residual_added-Leaves d c h out views next skipped =
        combined-Leaves d c views next (plain_add env h out)

    residual_normed-Leaves :
        (d : Option E) (c : C) (h out : A) (views : List V) (o : Fused E A)
        → Leaves d c views (residual_normed env d c h out views o)
    unfolding IsSettled
    residual_normed-Leaves d c h out views (broke e) = record {
      cache = refl;
      plane = refl;
      settled = refl;
    }
    residual_normed-Leaves d c h out views (handled r) =
        residual_added-Leaves d c h out views (some r) (env.residual_add h out)
    residual_normed-Leaves d c h out views skipped =
        residual_added-Leaves d c h out views none (env.residual_add h out)

    gpu_normed-Leaves :
        (d : Option E) (c : C) (h : A) (o : Result E A) → Leaves d c [] (gpu_normed env d c h o)
    unfolding IsSettled
    gpu_normed-Leaves d c h (bad e) = record { cache = refl; plane = refl; settled = refl }
    gpu_normed-Leaves d c h (good n) = record {
      cache = refl;
      plane = refl;
      settled = add_mlp-IsSettled h (env.fallback_mlp n);
    }

    pub gpu_only-Leaves :
        (d : Option E) (c : C) (o : Result E A) → Leaves d c [] (gpu_only env d c o)
    unfolding IsSettled
    gpu_only-Leaves d c (bad e) = record { cache = refl; plane = refl; settled = refl }
    gpu_only-Leaves d c (good h) = gpu_normed-Leaves d c h (env.post_norm h)

    -- The error fallback leaves the plane as it was, or disabled by `err`.
    pub record Falls (d err : Option E) (c : C) (l : Layered A E V C) : Type 0 where
      pub plane_after : Option E
      pub plane_is : (plane_after ≡ d) ⊎ (plane_after ≡ disable d err)
      pub leaves : Leaves plane_after c [] l

    fallback_normed-Falls :
        (d : Option E) (c : C) (h : A) (err : Option E) (o : Result E A)
        → Falls d err c (fallback_normed env d c h err o)
    unfolding IsSettled
    fallback_normed-Falls d c h err (bad e) = record {
      plane_after = d;
      plane_is = inl refl;
      leaves = record { cache = refl; plane = refl; settled = refl };
    }
    fallback_normed-Falls d c h err (good n) = record {
      plane_after = disable d err;
      plane_is = inr refl;
      leaves = record {
        cache = refl;
        plane = refl;
        settled = add_mlp-IsSettled h (env.fallback_mlp n);
      };
    }

    fallback_added-Falls :
        (d : Option E) (c : C) (n : Option A) (o : Result E A)
        → Falls d none c (fallback_added env d c n o)
    unfolding IsSettled
    fallback_added-Falls d c n (bad e) = record {
      plane_after = d;
      plane_is = inl refl;
      leaves = record { cache = refl; plane = refl; settled = refl };
    }
    fallback_added-Falls d c (some n) (good h) = fallback_normed-Falls d c h none (good n)
    fallback_added-Falls d c none (good h) = fallback_normed-Falls d c h none (env.post_norm h)

    fallback-Falls :
        (d : Option E) (c : C) (x attn : A) (h n : Option A) (e : E)
        → Falls d (left_error {V = V} (broken h n e)) c (fallback env d c x attn h n e)
    fallback-Falls d c x attn (some h) (some n) e = fallback_normed-Falls d c h (some e) (good n)
    fallback-Falls d c x attn (some h) none e = fallback_normed-Falls d c h none (env.post_norm h)
    fallback-Falls d c x attn none n e = fallback_added-Falls d c n (env.add x attn)

    -- What is known of a layer once its feed-forward part has ended.
    pub record Finishes (d : Option E) (c : C) (o : Ffn A E V) (l : Layered A E V C) : Type 0 where
      pub plane_after : Option E
      pub plane_is : (plane_after ≡ d) ⊎ (plane_after ≡ disable d (left_error o))
      pub leaves : Leaves plane_after c (views_of o) l

    pub finish_ffn-Finishes :
        (d : Option E) (c : C) (x attn : A) (o : Ffn A E V)
        → Finishes d c o (finish_ffn env d c x attn o)
    unfolding finish_ffn IsSettled
    finish_ffn-Finishes d c x attn (done h out views) = record {
      plane_after = d;
      plane_is = inl refl;
      leaves = residual_normed-Leaves d c h out views (env.residual_norm h out);
    }
    finish_ffn-Finishes d c x attn (broken h n e) =
        let f = fallback-Falls d c x attn h n e in
        record { plane_after = f.plane_after; plane_is = f.plane_is; leaves = f.leaves }
    finish_ffn-Finishes d c x attn (returns e) = record {
      plane_after = d;
      plane_is = inl refl;
      leaves = record { cache = refl; plane = refl; settled = refl };
    }

    pub chosen-cache :
        (x attn : A) (d : Option E) (c : C) (gpu : Bool)
        → (if gpu
            then gpu_only env d c (env.add x attn)
            else finish_ffn env d c x attn (ffn env x attn)).cache
          ≡ c
    chosen-cache x attn d c true = let l = gpu_only-Leaves d c (env.add x attn) in l.cache
    chosen-cache x attn d c false =
        let f = finish_ffn-Finishes d c x attn (ffn env x attn) in let l = f.leaves in l.cache

    pub attended_parts :
        (x n attn : A) (p : Option A) (c c' : C)
        → norm_of env x p ≡ good n
        → env.attention c n ≡ (good attn, c')
        → layer_forward env false none c x p ≡ finish_ffn env none c' x attn (ffn env x attn)
    unfolding layer_forward
    attended_parts x n attn p c c' q a =
        ap (normed env false none c x) q ∙ ap (attended env false none x) a

    -- On a plane in service, when a layer's norm and attention succeed: the cache is as the
    -- attention left it; the views that the feed-forward part took are handed on with an output,
    -- and released with an error; and the plane is in service still or disabled by the error that
    -- is left when the fallback disables it.
    pub layer_forward-Finishes :
        (x : A) (p : Option A) {n attn : A} {c c' : C}
        → norm_of env x p ≡ good n
        → env.attention c n ≡ (good attn, c')
        → Finishes none c' (ffn env x attn) (layer_forward env false none c x p)
    layer_forward-Finishes x p {n} {attn} {c} {c'} q a =
        subst (Finishes none c' (ffn env x attn)) (sym (attended_parts x n attn p c c' q a))
          (finish_ffn-Finishes none c' x attn (ffn env x attn))

    IsSettled-released :
        (views : List V) (o : Outcome A E V) (released handed : List V) (out : A) (next : Option A)
        → IsSettled views o released
        → o ≡ gives out next handed
        → released ≡ []
    unfolding IsSettled
    IsSettled-released views (gives a b c) released handed out next k f = k.1
    IsSettled-released views (fails e) released handed out next k f = cc

    chosen-released :
        (x attn out : A) (d : Option E) (c : C) (next : Option A) (handed : List V) (gpu : Bool)
        → (if gpu
            then gpu_only env d c (env.add x attn)
            else finish_ffn env d c x attn (ffn env x attn)).outcome
          ≡ gives out next handed
        → (if gpu
            then gpu_only env d c (env.add x attn)
            else finish_ffn env d c x attn (ffn env x attn)).released
          ≡ []
    chosen-released x attn out d c next handed true f =
        let l = gpu_only-Leaves d c (env.add x attn) in
        IsSettled-released [] (gpu_only env d c (env.add x attn)).outcome
          (gpu_only env d c (env.add x attn)).released handed out next l.settled f
    chosen-released x attn out d c next handed false f =
        let g = finish_ffn-Finishes d c x attn (ffn env x attn) in
        let l = g.leaves in
        IsSettled-released (views_of (ffn env x attn))
          (finish_ffn env d c x attn (ffn env x attn)).outcome
          (finish_ffn env d c x attn (ffn env x attn)).released handed out next l.settled f

    attended-released :
        (gpu : Bool) (d : Option E) (x out : A) (next : Option A) (handed : List V)
        (o : Result E A × C)
        → (attended env gpu d x o).outcome ≡ gives out next handed
        → (attended env gpu d x o).released ≡ []
    attended-released gpu d x out next handed (bad e, c) f = refl
    attended-released gpu d x out next handed (good attn, c) f =
        chosen-released x attn out d c next handed (is_some d || gpu) f

    normed-released :
        (gpu : Bool) (d : Option E) (c : C) (x out : A) (next : Option A) (handed : List V)
        (o : Result E A)
        → (normed env gpu d c x o).outcome ≡ gives out next handed
        → (normed env gpu d c x o).released ≡ []
    normed-released gpu d c x out next handed (bad e) f = refl
    normed-released gpu d c x out next handed (good n) f =
        attended-released gpu d x out next handed (env.attention c n) f

    pub layer_forward-released :
        (gpu : Bool) (d : Option E) (c : C) (x out : A) (p next : Option A) (handed : List V)
        → (layer_forward env gpu d c x p).outcome ≡ gives out next handed
        → (layer_forward env gpu d c x p).released ≡ []
    unfolding layer_forward
    layer_forward-released gpu d c x out p next handed f =
        normed-released gpu d c x out next handed (norm_of env x p) f
