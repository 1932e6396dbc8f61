-- ===== src/Runtime/Fallback.antt =====
-- runtime.go and linear_vjp.go: the fallback to MLX, where it is allowed.
use autoresearch_mlx_go_ane.Prelude.{
  ℕ, ◌≡◌, refl, sym, ap, subst, Bool, true, false, List, [], Option, none, some, if◌then◌else◌,
}
use autoresearch_mlx_go_ane.Prelude.Int.{ℤ}
use autoresearch_mlx_go_ane.Layer.{Result, good, bad}
use autoresearch_mlx_go_ane.Routing.{LinearRouter, LinearRouteInput, RouteDecision}
use autoresearch_mlx_go_ane.Runtime.{
  ane, mlx, Backend, LinearFault, routing, platform, Why, no_reason, compile_trace, routed, failed,
  Executor, RuntimeEnv, VjpState, Traced, LinearOutcome, gives, fails, panics, ClosureAnswer,
  output, error, panic, linear_ane, linear_mlx, after_run, validate_linear_inputs,
}
use autoresearch_mlx_go_ane.Runtime.Call.{
  route_input, active_router, shape_for, probe_model, probe_route, route_question, decide_route,
  route_linear, forward_mlx, forward_ane, closure_forward, taken, applied, with_closure,
  linear_ane_with_vjp, without_closure, by_mlx, settle_ane, run_ane, on_route, maybe_route,
  with_executor, validated, linear,
}

module _ {A F E : Type 0} (env : RuntimeEnv A F E) (x w : A) (b i o : ℕ) where
  -- MLX computes the layer.
  abbrev pub MlxWorks : A → Type 0
  MlxWorks z = (linear_mlx env x w).result ≡ good z

  abbrev Gives : LinearOutcome A E → Type 0
  Gives (gives y k why) = Unit {0}
  Gives (fails e) = ⊥
  Gives panics = ⊥

  abbrev Calm : ClosureAnswer A E → Type 0
  Calm (output y k why) = Unit {0}
  Calm (error e) = Unit {0}
  Calm panic = ⊥

  module _ (z : A) (works : MlxWorks z) where
    by_mlx-Gives : (why : Why E) → Gives (by_mlx env why (linear_mlx env x w)).result
    by_mlx-Gives why =
        subst
          (λ (r : Result (LinearFault E) A).
            Gives
              (elim r as (λ _. LinearOutcome A E) [ good y ↦ gives y mlx why | bad e ↦ fails e ]))
          (sym works) tt

    forward_mlx-Calm : (why : Why E) → Calm (forward_mlx env why (linear_mlx env x w)).result
    forward_mlx-Calm why =
        subst
          (λ (r : Result (LinearFault E) A).
            Calm (elim r as (λ _. ClosureAnswer A E) [ good y ↦ output y mlx why | bad e ↦ panic ]))
          (sym works) tt

    forward-Calm : (ex : Executor F E) → Calm (closure_forward env ex x w b i o).result
    unfolding closure_forward
    forward-Calm ex = choose env.is_compiling (linear_ane env ex x w b i o)
      where
        after :
            (r : Traced A (Result (LinearFault E) A)) (c : Result (LinearFault E) A)
            → Calm (forward_ane env x w r c).result
        after r (good y) = tt
        after r (bad e) = forward_mlx-Calm (failed e)

        choose :
            (c : Bool) (r : Traced A (Result (LinearFault E) A))
            → Calm
                (if c
                  then forward_mlx env compile_trace (linear_mlx env x w)
                  else forward_ane env x w r r.result).result
        choose true r = forward_mlx-Calm compile_trace
        choose false r = after r r.result

    applied-Calm : (f : ClosureAnswer A E) → Calm f → Calm (applied env f)
    applied-Calm (output y k why) c = out env.after_apply
      where
        out : (e : Option E) → Calm (taken env y k why e)
        out none = tt
        out (some e) = tt
    applied-Calm (error e) c = tt
    applied-Calm panic c = c

    with_vjp-Calm :
        (ex : Executor F E) (s : VjpState E)
        → Calm (linear_ane_with_vjp env ex x w b i o s).1.result
    unfolding linear_ane_with_vjp
    with_vjp-Calm ex s = built s.has_handle env.custom_vjp
      where
        built : (h : Bool) (e : Option E) → Calm (with_closure env ex x w b i o s h e).1.result
        built true e = applied-Calm (closure_forward env ex x w b i o).result (forward-Calm ex)
        built false none = applied-Calm (closure_forward env ex x w b i o).result (forward-Calm ex)
        built false (some e) = tt

    direct-Calm : (r : Traced A (Result (LinearFault E) A)) → Calm (without_closure env r).result
    direct-Calm r = made r.result
      where
        made :
            (c : Result (LinearFault E) A)
            → Calm (elim c as (λ _. ClosureAnswer A E) [
              | good y ↦ output y ane no_reason
              | bad e ↦ error e
            ])
        made (good y) = tt
        made (bad e) = tt

    settled-Gives :
        (r : Traced A (ClosureAnswer A E)) (f : ClosureAnswer A E)
        → env.allow_fallback ≡ true
        → Calm f
        → Gives (settle_ane env x w r f).result
    settled-Gives r (output y k why) a c = tt
    settled-Gives r panic a c = c
    settled-Gives r (error e) a c =
        subst
          (λ h.
            Gives
              (if h
                then after_run env r (by_mlx env (failed e) (linear_mlx env x w))
                else record { made = r.made; freed = r.freed; result = fails e }).result)
          (sym a) (by_mlx-Gives (failed e))

    run_ane-Gives :
        (ex : Executor F E) (s : VjpState E) (vjp : Bool)
        → env.allow_fallback ≡ true
        → Gives (run_ane env ex x w b i o s vjp).1.result
    run_ane-Gives ex s true a =
        settled-Gives (linear_ane_with_vjp env ex x w b i o (record s { vjp = none })).1
          (linear_ane_with_vjp env ex x w b i o (record s { vjp = none })).1.result a
          (with_vjp-Calm ex (record s { vjp = none }))
    run_ane-Gives ex s false a =
        settled-Gives (without_closure env (linear_ane env ex x w b i o)) _ a
          (direct-Calm (linear_ane env ex x w b i o))

    on_route-Gives :
        (ex : Executor F E) (s : VjpState E) (vjp : Bool) (d : RouteDecision)
        → env.allow_fallback ≡ true
        → Gives (on_route env ex x w b i o s vjp (good d)).1.result
    on_route-Gives ex s vjp d a = choose d.use_ane env.allow_fallback a
      where
        apart : false ≡ true → ⊥
        apart e = cc

        choose :
            (c f : Bool)
            → f ≡ true
            → Gives
                (if c
                  then run_ane env ex x w b i o s vjp
                  else if f
                  then (s, by_mlx env (routed d.reason) (linear_mlx env x w))
                  else (
                    s,
                    record { made = []; freed = []; result = fails (routing d.reason) },
                  )).1.result
        choose true f e = run_ane-Gives ex s vjp a
        choose false true e = by_mlx-Gives (routed d.reason)
        choose false false e = absurd (apart e)

  -- The router has an answer when the cells of the weights can be read.
  route_question-good :
      (ex : Executor F E) (ws : List F)
      → env.to_slice w ≡ good ws
      → (q : LinearRouteInput) × (route_question env ex w b i o ≡ good q)
  unfolding route_question
  route_question-good ex ws e = by_route ex.has_route_model
    where
      dims : ℤ × ℤ × ℤ
      dims = shape_for env ex.route_shape b i o

      by_model :
          (m : Option (ℕ → ℕ → ℕ → ℕ → Bool))
          → (q : LinearRouteInput) × (probe_model env ex w b i o dims m ≡ good q)
      by_model none = (_, refl)
      by_model (some has) = (
        route_input env ex dims true (has b i o (env.hash_cells ws)),
        ap
            (λ (r : Result E (List F)). elim r as (λ _. Result (LinearFault E) LinearRouteInput) [
              | bad f ↦ bad (platform f)
              | good us ↦ good (route_input env ex dims true (has b i o (env.hash_cells us)))
            ])
            e,
      )

      by_route :
          (p : Option (ℤ → ℤ → ℤ → Bool))
          → (q : LinearRouteInput) × (probe_route env ex w b i o dims p ≡ good q)
      by_route none = by_model ex.has_model
      by_route (some has) = (_, refl)

  maybe_route-good :
      (ex : Executor F E) (ws : List F) (r : LinearRouter)
      → env.to_slice w ≡ good ws
      → (d : RouteDecision) × (maybe_route env ex w b i o r ≡ good d)
  unfolding route_linear
  maybe_route-good ex ws none e = (_, refl)
  maybe_route-good ex ws (some cfg) e =
      let (q, f) = route_question-good ex ws e in decided (active_router env) q f
    where
      decided :
          (a : LinearRouter) (q : LinearRouteInput)
          → route_question env ex w b i o ≡ good q
          → (d : RouteDecision) × (decide_route env a (route_question env ex w b i o) ≡ good d)
      decided none q f = (_, refl)
      decided (some c) q f = (_, ap (decide_route env (some c)) f)

  given :
      (t : LinearOutcome A E)
      → Gives t
      → (y : A) × (k : Backend) × (why : Why E) × (t ≡ gives y k why)
  given (gives y k why) g = (y, k, why, refl)
  given (fails e) g = absurd g
  given panics g = absurd g

  -- When the fallback is allowed, the inputs are valid, the cells of the weights can be read and
  -- MLX computes the layer, a linear call gives an array, whatever the router decides and whatever
  -- the closure and the executor answer.
  pub linear-Gives :
      (ox ow : Option A) (s : VjpState E) (vjp : Bool) (z : A) (ws : List F)
      → validate_linear_inputs env ox ow ≡ good (x, w, b, i, o)
      → env.allow_fallback ≡ true
      → MlxWorks z
      → env.to_slice w ≡ good ws
      → (y : A) × (k : Backend) × (why : Why E) × ((linear env ox ow s vjp).1.result
          ≡ gives y k why)
  unfolding linear
  linear-Gives ox ow s vjp z ws v a works read =
      given (linear env ox ow s vjp).1.result
        (subst (λ r. Gives (validated env r s vjp).1.result) (sym v) (executed env.executor))
    where
      executed :
          (ex : Option (Executor F E)) → Gives (with_executor env ex x w b i o s vjp).1.result
      executed none = by_mlx-Gives z works no_reason
      executed (some ex) =
          let (d, f) = maybe_route-good ex ws env.router read in
          subst (λ r. Gives (on_route env ex x w b i o s vjp r).1.result) (sym f)
            (on_route-Gives z works ex s vjp d a)
