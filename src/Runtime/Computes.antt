-- ===== src/Runtime/Computes.antt =====
-- runtime.go, Linear: its outcome, by the path that it takes.
use autoresearch_mlx_go_ane.Prelude.{
  ℕ, ◌≡◌, refl, subst, Bool, true, false, [], Option, none, some, if◌then◌else◌,
}
use autoresearch_mlx_go_ane.Layer.{Result, good, bad}
use autoresearch_mlx_go_ane.Routing.{RouteDecision}
use autoresearch_mlx_go_ane.Runtime.{
  ane, mlx, Backend, LinearFault, routing, Why, no_reason, routed, failed, Executor, RuntimeEnv,
  VjpState, Traced, LinearOutcome, gives, fails, panics, ClosureAnswer, output, error, panic,
  linear_ane, linear_mlx, after_run, validate_linear_inputs,
}
use autoresearch_mlx_go_ane.Runtime.Call.{
  linear_ane_with_vjp, without_closure, by_mlx, settle_ane, run_ane, on_route, maybe_route,
  with_executor, validated, linear,
}
use autoresearch_mlx_go_ane.Runtime.Origin.{
  linear_mlx-ByMlx, Origin, Source, Sourced, with_vjp-Sourced, direct-Sourced,
}

module _ {A F E : Type 0} (env : RuntimeEnv A F E) (x w : A) (b i o : ℕ) where
  -- An outcome that gives an array tells where it is from.
  abbrev pub Tells : LinearOutcome A E → Type 0
  Tells t = (y : A) (k : Backend) (why : Why E) → t ≡ gives y k why → Origin env x w b i o k y

  same-Origin :
      (y z : A) (k l : Backend) (why v : Why E)
      → ◌≡◌ {A = LinearOutcome A E} (gives z l v) (gives y k why)
      → Origin env x w b i o l z
      → Origin env x w b i o k y
  same-Origin y z k l why v e s =
      subst (λ (p : Backend × A). Origin env x w b i o p.0 p.1)
        (λ j. (backend_of (e j), array_of (e j))) s
    where
      backend_of : LinearOutcome A E → Backend
      backend_of (gives a c u) = c
      backend_of (fails f) = l
      backend_of panics = l

      array_of : LinearOutcome A E → A
      array_of (gives a c u) = a
      array_of (fails f) = z
      array_of panics = z

  by_mlx-Tells : (why : Why E) → Tells (by_mlx env why (linear_mlx env x w)).result
  by_mlx-Tells why y k v q = made (linear_mlx env x w).result refl q
    where
      made :
          (r : Result (LinearFault E) A)
          → (linear_mlx env x w).result ≡ r
          → (elim r as (λ _. LinearOutcome A E) [ good z ↦ gives z mlx why | bad e ↦ fails e ])
            ≡ gives y k v
          → Origin env x w b i o k y
      made (bad e) f q' = cc
      made (good z) f q' = same-Origin y z k mlx v why q' (linear_mlx-ByMlx env x w z f)

  module _ (ex : Executor F E) (d : RouteDecision) where
    lifted :
        (k : Backend) (y : A)
        → env.executor ≡ some ex
        → maybe_route env ex w b i o env.router ≡ good d
        → d.use_ane ≡ true
        → Source env ex x w b i o k y
        → Origin env x w b i o k y
    lifted mlx y e r u s = s
    lifted ane y e r u s = (ex, e, s, (d, r, u))

    settled-Tells :
        (r : Traced A (ClosureAnswer A E)) (f : ClosureAnswer A E)
        → env.executor ≡ some ex
        → maybe_route env ex w b i o env.router ≡ good d
        → d.use_ane ≡ true
        → Sourced env ex x w b i o f
        → Tells (settle_ane env x w r f).result
    settled-Tells r (output z l v) e g u s y k why q =
        same-Origin y z k l why v q (lifted l z e g u (s z l v refl))
    settled-Tells r panic e g u s y k why q = cc
    settled-Tells r (error x₁) e g u s y k why q = choose env.allow_fallback q
      where
        choose :
            (c : Bool)
            → (if c
                then after_run env r (by_mlx env (failed x₁) (linear_mlx env x w))
                else record { made = r.made; freed = r.freed; result = fails x₁ }).result
              ≡ gives y k why
            → Origin env x w b i o k y
        choose true q' = by_mlx-Tells (failed x₁) y k why q'
        choose false q' = cc

    run_ane-Tells :
        (s : VjpState E) (vjp : Bool)
        → env.executor ≡ some ex
        → maybe_route env ex w b i o env.router ≡ good d
        → d.use_ane ≡ true
        → Tells (run_ane env ex x w b i o s vjp).1.result
    run_ane-Tells s true e g u =
        settled-Tells (linear_ane_with_vjp env ex x w b i o (record s { vjp = none })).1
          (linear_ane_with_vjp env ex x w b i o (record s { vjp = none })).1.result e g u
          (with_vjp-Sourced env ex x w b i o (record s { vjp = none }))
    run_ane-Tells s false e g u =
        settled-Tells (without_closure env (linear_ane env ex x w b i o))
          (without_closure env (linear_ane env ex x w b i o)).result e g u
          (direct-Sourced env ex x w b i o)

  on_route-Tells :
      (ex : Executor F E) (s : VjpState E) (vjp : Bool) (r : Result (LinearFault E) RouteDecision)
      → env.executor ≡ some ex
      → maybe_route env ex w b i o env.router ≡ r
      → Tells (on_route env ex x w b i o s vjp r).1.result
  on_route-Tells ex s vjp (bad f) e g y k why q = cc
  on_route-Tells ex s vjp (good d) e g y k why q = choose d.use_ane env.allow_fallback refl q
    where
      choose :
          (c f : Bool)
          → d.use_ane ≡ c
          → (if c
              then run_ane env ex x w b i o s vjp
              else if f
              then (s, by_mlx env (routed d.reason) (linear_mlx env x w))
              else (
                s,
                record { made = []; freed = []; result = fails (routing d.reason) },
              )).1.result
            ≡ gives y k why
          → Origin env x w b i o k y
      choose true f u q' = run_ane-Tells ex d s vjp e g u y k why q'
      choose false true u q' = by_mlx-Tells (routed d.reason) y k why q'
      choose false false u q' = cc

  -- When `Linear` or `linearForward` gives an array for valid inputs `x` and `w`: it is the product
  -- with the transposed weights where the backend is MLX; and where it is the accelerator, it is
  -- what the executor made of the cells of both, in as many cells as the output has, and the
  -- router, if the runtime has one, has let the layer through.
  pub linear-Tells :
      (ox ow : Option A) (s : VjpState E) (vjp : Bool) (y : A) (k : Backend) (why : Why E)
      → validate_linear_inputs env ox ow ≡ good (x, w, b, i, o)
      → (linear env ox ow s vjp).1.result ≡ gives y k why
      → Origin env x w b i o k y
  unfolding linear
  linear-Tells ox ow s vjp y k why v q =
      executed env.executor refl (subst (λ z. (validated env z s vjp).1.result ≡ gives y k why) v q)
    where
      executed :
          (ex : Option (Executor F E))
          → env.executor ≡ ex
          → (with_executor env ex x w b i o s vjp).1.result ≡ gives y k why
          → Origin env x w b i o k y
      executed none e q' = by_mlx-Tells no_reason y k why q'
      executed (some ex) e q' =
          on_route-Tells ex s vjp (maybe_route env ex w b i o env.router) e refl y k why q'
