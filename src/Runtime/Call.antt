-- ===== src/Runtime/Call.antt =====
-- runtime.go, Linear, and linear_vjp.go: the route, the closure, and the fallback to MLX.
use autoresearch_mlx_go_ane.Prelude.{ℕ, Bool, true, false, [], Option, none, some, if◌then◌else◌}
use autoresearch_mlx_go_ane.Prelude.Int.{ℤ, pos}
use autoresearch_mlx_go_ane.Layer.{Result, good, bad}
use autoresearch_mlx_go_ane.Routing.{
  LinearRouter, LinearRouteInput, RouteDecision, eligible, decide_linear,
}
use autoresearch_mlx_go_ane.Runtime.{
  ane, mlx, Backend, LinearFault, routing, platform, Why, no_reason, compile_trace, routed, failed,
  Executor, RuntimeEnv, VjpState, Traced, LinearOutcome, gives, fails, panics, ClosureAnswer,
  output, error, panic, linear_ane, linear_mlx, after_run, validate_linear_inputs,
}

abbrev pub is_given {ℓ} : {A : Type ℓ} → Option A → Bool
is_given none = false
is_given (some a) = true

module _ {A F E : Type 0} (env : RuntimeEnv A F E) where
  abbrev pub training_or : LinearRouter → LinearRouter
  training_or none = env.router
  training_or (some cfg) = some cfg

  unfoldable pub active_router : LinearRouter
  active_router = if env.is_training then training_or env.training_router else env.router

  abbrev pub shape_for : Option (ℕ → ℕ → ℕ → ℤ × ℤ × ℤ) → ℕ → ℕ → ℕ → ℤ × ℤ × ℤ
  shape_for none batch in_dim out_dim = (pos batch, pos in_dim, pos out_dim)
  shape_for (some f) batch in_dim out_dim = f batch in_dim out_dim

  abbrev pub size_or : Option ℤ → ℤ
  size_or none = pos 0
  size_or (some n) = n

  -- The input of the router, once it is known whether the model is cached.
  abbrev pub route_input : Executor F E → ℤ × ℤ × ℤ → Bool → Bool → LinearRouteInput
  route_input ex dims known hit = record {
    batch = dims.0;
    in_dim = dims.1;
    out_dim = dims.2;
    cache_known = known;
    cache_hit = hit;
    cache_size = size_or ex.cache_size;
  }

  abbrev pub probe_model :
      Executor F E
      → A
      → ℕ
      → ℕ
      → ℕ
      → ℤ × ℤ × ℤ
      → Option (ℕ → ℕ → ℕ → ℕ → Bool)
      → Result (LinearFault E) LinearRouteInput
  probe_model ex w batch in_dim out_dim dims none =
      good (route_input ex dims (is_given ex.cache_size) false)
  probe_model ex w batch in_dim out_dim dims (some has) = elim (env.to_slice w) [
    | bad e ↦ bad (platform e)
    | good ws ↦ good (route_input ex dims true (has batch in_dim out_dim (env.hash_cells ws)))
  ]

  abbrev pub probe_route :
      Executor F E
      → A
      → ℕ
      → ℕ
      → ℕ
      → ℤ × ℤ × ℤ
      → Option (ℤ → ℤ → ℤ → Bool)
      → Result (LinearFault E) LinearRouteInput
  probe_route ex w batch in_dim out_dim dims none =
      probe_model ex w batch in_dim out_dim dims ex.has_model
  probe_route ex w batch in_dim out_dim dims (some has) =
      good (route_input ex dims true (has dims.0 dims.1 dims.2))

  -- What routeLinear asks the router.
  unfoldable pub route_question :
      Executor F E → A → ℕ → ℕ → ℕ → Result (LinearFault E) LinearRouteInput
  route_question ex w batch in_dim out_dim =
      probe_route ex w batch in_dim out_dim (shape_for ex.route_shape batch in_dim out_dim)
        ex.has_route_model

  abbrev pub decide_route :
      LinearRouter → Result (LinearFault E) LinearRouteInput → Result (LinearFault E) RouteDecision
  decide_route none q = good (record { use_ane = true; reason = eligible })
  decide_route (some cfg) (bad e) = bad e
  decide_route (some cfg) (good inp) = good (decide_linear (some cfg) inp)

  unfoldable pub route_linear : Executor F E → A → ℕ → ℕ → ℕ → Result (LinearFault E) RouteDecision
  unfolding active_router route_question
  route_linear ex w batch in_dim out_dim =
      decide_route active_router (route_question ex w batch in_dim out_dim)

  -- The forward function of the closure, after the accelerator failed, or in a trace.
  abbrev pub forward_mlx :
      Why E → Traced A (Result (LinearFault E) A) → Traced A (ClosureAnswer A E)
  forward_mlx why r = record {
    made = r.made;
    freed = r.freed;
    result = elim r.result [ good y ↦ output y mlx why | bad e ↦ panic ];
  }

  abbrev pub forward_ane :
      A
      → A
      → Traced A (Result (LinearFault E) A)
      → Result (LinearFault E) A
      → Traced A (ClosureAnswer A E)
  forward_ane x w r (good y) = record {
    made = r.made;
    freed = r.freed;
    result = output y ane no_reason;
  }
  forward_ane x w r (bad e) = after_run env r (forward_mlx (failed e) (linear_mlx env x w))

  unfoldable pub closure_forward : Executor F E → A → A → ℕ → ℕ → ℕ → Traced A (ClosureAnswer A E)
  closure_forward ex x w batch in_dim out_dim =
      if env.is_compiling
      then forward_mlx compile_trace (linear_mlx env x w)
      else let r = linear_ane env ex x w batch in_dim out_dim in forward_ane x w r r.result

  -- The output is taken out of the closure's result, which can fail.
  abbrev pub taken : A → Backend → Why E → Option E → ClosureAnswer A E
  taken y b why none = output y b why
  taken y b why (some e) = error (platform e)

  abbrev pub applied : ClosureAnswer A E → ClosureAnswer A E
  applied (output y b why) = taken y b why env.after_apply
  applied (error e) = error e
  applied panic = panic

  abbrev pub said : Option (Backend × Why E) → ClosureAnswer A E → Option (Backend × Why E)
  said v (output y b why) = some (b, why)
  said v (error e) = v
  said v panic = v

  abbrev pub apply_closure :
      VjpState E → Traced A (ClosureAnswer A E) → VjpState E × Traced A (ClosureAnswer A E)
  apply_closure s r = (
    record { has_handle = true; vjp = said s.vjp r.result },
    record { made = r.made; freed = r.freed; result = applied r.result },
  )

  abbrev pub with_closure :
      Executor F E
      → A
      → A
      → ℕ
      → ℕ
      → ℕ
      → VjpState E
      → Bool
      → Option E
      → VjpState E × Traced A (ClosureAnswer A E)
  with_closure ex x w batch in_dim out_dim s false (some e) =
      (s, record { made = []; freed = []; result = error (platform e) })
  with_closure ex x w batch in_dim out_dim s false none =
      apply_closure s (closure_forward ex x w batch in_dim out_dim)
  with_closure ex x w batch in_dim out_dim s true e =
      apply_closure s (closure_forward ex x w batch in_dim out_dim)

  unfoldable pub linear_ane_with_vjp :
      Executor F E → A → A → ℕ → ℕ → ℕ → VjpState E → VjpState E × Traced A (ClosureAnswer A E)
  linear_ane_with_vjp ex x w batch in_dim out_dim s =
      with_closure ex x w batch in_dim out_dim s s.has_handle env.custom_vjp

  abbrev pub without_closure : Traced A (Result (LinearFault E) A) → Traced A (ClosureAnswer A E)
  without_closure r = record {
    made = r.made;
    freed = r.freed;
    result = elim r.result [ good y ↦ output y ane no_reason | bad e ↦ error e ];
  }

  -- A result by MLX, or an error of it.
  abbrev pub by_mlx : Why E → Traced A (Result (LinearFault E) A) → Traced A (LinearOutcome A E)
  by_mlx why r = record {
    made = r.made;
    freed = r.freed;
    result = elim r.result [ good y ↦ gives y mlx why | bad e ↦ fails e ];
  }

  -- After the accelerator's part: its output with what the closure said, or the fallback.
  abbrev pub settle_ane :
      A → A → Traced A (ClosureAnswer A E) → ClosureAnswer A E → Traced A (LinearOutcome A E)
  settle_ane x w r (output y b why) = record {
    made = r.made;
    freed = r.freed;
    result = gives y b why;
  }
  settle_ane x w r (error e) =
      if env.allow_fallback
      then after_run env r (by_mlx (failed e) (linear_mlx env x w))
      else record { made = r.made; freed = r.freed; result = fails e }
  settle_ane x w r panic = record { made = r.made; freed = r.freed; result = panics }

  abbrev pub finish_ane :
      A → A → VjpState E × Traced A (ClosureAnswer A E) → VjpState E × Traced A (LinearOutcome A E)
  finish_ane x w (s, r) = (s, settle_ane x w r r.result)

  abbrev pub run_ane :
      Executor F E
      → A
      → A
      → ℕ
      → ℕ
      → ℕ
      → VjpState E
      → Bool
      → VjpState E × Traced A (LinearOutcome A E)
  run_ane ex x w batch in_dim out_dim s true =
      finish_ane x w (linear_ane_with_vjp ex x w batch in_dim out_dim (record s { vjp = none }))
  run_ane ex x w batch in_dim out_dim s false =
      finish_ane x w (s, without_closure (linear_ane env ex x w batch in_dim out_dim))

  -- The router has decided, or could not be asked.
  abbrev pub on_route :
      Executor F E
      → A
      → A
      → ℕ
      → ℕ
      → ℕ
      → VjpState E
      → Bool
      → Result (LinearFault E) RouteDecision
      → VjpState E × Traced A (LinearOutcome A E)
  on_route ex x w batch in_dim out_dim s vjp (bad e) =
      (s, record { made = []; freed = []; result = fails e })
  on_route ex x w batch in_dim out_dim s vjp (good d) =
      if d.use_ane
      then run_ane ex x w batch in_dim out_dim s vjp
      else if env.allow_fallback
      then (s, by_mlx (routed d.reason) (linear_mlx env x w))
      else (s, record { made = []; freed = []; result = fails (routing d.reason) })

  -- The router is asked only when the runtime has one.
  abbrev pub maybe_route :
      Executor F E → A → ℕ → ℕ → ℕ → LinearRouter → Result (LinearFault E) RouteDecision
  maybe_route ex w batch in_dim out_dim none = good (record { use_ane = true; reason = eligible })
  maybe_route ex w batch in_dim out_dim (some cfg) = route_linear ex w batch in_dim out_dim

  abbrev pub with_executor :
      Option (Executor F E)
      → A
      → A
      → ℕ
      → ℕ
      → ℕ
      → VjpState E
      → Bool
      → VjpState E × Traced A (LinearOutcome A E)
  with_executor none x w batch in_dim out_dim s vjp = (s, by_mlx no_reason (linear_mlx env x w))
  with_executor (some ex) x w batch in_dim out_dim s vjp =
      on_route ex x w batch in_dim out_dim s vjp (maybe_route ex w batch in_dim out_dim env.router)

  abbrev pub validated :
      Result (LinearFault E) (A × A × ℕ × ℕ × ℕ)
      → VjpState E
      → Bool
      → VjpState E × Traced A (LinearOutcome A E)
  validated (bad e) s vjp = (s, record { made = []; freed = []; result = fails e })
  validated (good (x, w, batch, in_dim, out_dim)) s vjp =
      with_executor env.executor x w batch in_dim out_dim s vjp

  -- `linear`: with the closure for gradients, as Linear, or without it, as linearForward.
  unfoldable pub linear :
      Option A → Option A → VjpState E → Bool → VjpState E × Traced A (LinearOutcome A E)
  linear x w s vjp = validated (validate_linear_inputs env x w) s vjp
