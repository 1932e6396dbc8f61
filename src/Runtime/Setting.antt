-- ===== src/Runtime/Setting.antt =====
-- runtime.go and linear_vjp.go: the fallback to MLX, where it is not allowed.
use autoresearch_mlx_go_ane.Prelude.{
  ℕ, ◌≡◌, ◌∙◌, ap, Bool, true, false, [], Option, none, some, if◌then◌else◌,
}
use autoresearch_mlx_go_ane.Layer.{Result, good, bad}
use autoresearch_mlx_go_ane.Routing.{RouteDecision}
use autoresearch_mlx_go_ane.Runtime.{
  ane, mlx, LinearFault, routing, no_reason, compile_trace, routed, failed, Executor, RuntimeEnv,
  VjpState, gives, fails, ClosureAnswer, output, error, panic, linear_ane, linear_mlx, after_run,
  validate_linear_inputs,
}
use autoresearch_mlx_go_ane.Runtime.Call.{
  forward_mlx, forward_ane, closure_forward, taken, applied, with_closure, linear_ane_with_vjp,
  without_closure, by_mlx, settle_ane, run_ane, on_route, maybe_route, with_executor, validated,
  linear,
}
use autoresearch_mlx_go_ane.Runtime.Fallback.{MlxWorks}

module _ {A F E : Type 0} (env : RuntimeEnv A F E) (x w : A) (b i o : ℕ) where
  -- A layer that the router lets through reaches the accelerator's part.
  reaches :
      (ex : Executor F E) (d : RouteDecision) (ox ow : Option A) (s : VjpState E) (vjp : Bool)
      → validate_linear_inputs env ox ow ≡ good (x, w, b, i, o)
      → env.executor ≡ some ex
      → maybe_route env ex w b i o env.router ≡ good d
      → d.use_ane ≡ true
      → (linear env ox ow s vjp).1.result ≡ (run_ane env ex x w b i o s vjp).1.result
  unfolding linear
  reaches ex d ox ow s vjp v has route lets =
      ap (λ r. (validated env r s vjp).1.result) v
      ∙ ap (λ t. (with_executor env t x w b i o s vjp).1.result) has
      ∙ ap (λ r. (on_route env ex x w b i o s vjp r).1.result) route
      ∙ ap
          (λ c.
            (if c
              then run_ane env ex x w b i o s vjp
              else if env.allow_fallback
              then (s, by_mlx env (routed d.reason) (linear_mlx env x w))
              else (
                s,
                record { made = []; freed = []; result = fails (routing d.reason) },
              )).1.result)
          lets

  direct-fails :
      (ex : Executor F E) (e : LinearFault E) (s : VjpState E)
      → env.allow_fallback ≡ false
      → (linear_ane env ex x w b i o).result ≡ bad e
      → (run_ane env ex x w b i o s false).1.result ≡ fails e
  direct-fails ex e s a broken =
      let r = linear_ane env ex x w b i o in
      ap
        (λ (c : Result (LinearFault E) A).
          (settle_ane env x w (without_closure env r) (elim c as (λ _. ClosureAnswer A E) [
            | good y ↦ output y ane no_reason
            | bad f ↦ error f
          ])).result)
        broken
      ∙ ap
          (λ c.
            (if c
              then after_run env (without_closure env r)
                  (by_mlx env (failed e) (linear_mlx env x w))
              else record { made = r.made; freed = r.freed; result = fails e }).result)
          a

  forward-mlx :
      (ex : Executor F E) (z : A) (e : LinearFault E)
      → (linear_ane env ex x w b i o).result ≡ bad e
      → MlxWorks env x w b i o z
      → env.is_compiling ≡ false
      → (closure_forward env ex x w b i o).result ≡ output z mlx (failed e)
  unfolding closure_forward
  forward-mlx ex z e broken works live =
      let r = linear_ane env ex x w b i o in
      ap
        (λ c.
          (if c
            then forward_mlx env compile_trace (linear_mlx env x w)
            else forward_ane env x w r r.result).result)
        live
      ∙ ap (λ c. (forward_ane env x w r c).result) broken
      ∙ ap
          (λ (c : Result (LinearFault E) A). elim c as (λ _. ClosureAnswer A E) [
            | good y ↦ output y mlx (failed e)
            | bad f ↦ panic
          ])
          works

  closure-output :
      (ex : Executor F E) (z : A) (e : LinearFault E) (s : VjpState E)
      → (closure_forward env ex x w b i o).result ≡ output z mlx (failed e)
      → env.custom_vjp ≡ none
      → env.after_apply ≡ none
      → (linear_ane_with_vjp env ex x w b i o s).1.result ≡ output z mlx (failed e)
  unfolding linear_ane_with_vjp
  closure-output ex z e s f none_wrong out = built s.has_handle
    where
      went : applied env (closure_forward env ex x w b i o).result ≡ output z mlx (failed e)
      went = ap (applied env) f ∙ ap (taken env z mlx (failed e)) out

      built :
          (h : Bool)
          → (with_closure env ex x w b i o s h env.custom_vjp).1.result ≡ output z mlx (failed e)
      built true = went
      built false = ap (λ c. (with_closure env ex x w b i o s false c).1.result) none_wrong ∙ went

  -- When the fallback is not allowed, the router lets the layer through, and the executor's part
  -- fails while MLX computes the layer and the closure works outside a trace: `linearForward`
  -- fails, but `Linear` gives the array that MLX computes.
  pub linear_ignores_setting :
      (ex : Executor F E) (d : RouteDecision) (ox ow : Option A) (s : VjpState E) (z : A)
      (e : LinearFault E)
      → validate_linear_inputs env ox ow ≡ good (x, w, b, i, o)
      → env.allow_fallback ≡ false
      → env.executor ≡ some ex
      → maybe_route env ex w b i o env.router ≡ good d
      → d.use_ane ≡ true
      → (linear_ane env ex x w b i o).result ≡ bad e
      → MlxWorks env x w b i o z
      → env.is_compiling ≡ false
      → env.custom_vjp ≡ none
      → env.after_apply ≡ none
      → ((linear env ox ow s false).1.result ≡ fails e)
        × ((linear env ox ow s true).1.result ≡ gives z mlx (failed e))
  linear_ignores_setting ex d ox ow s z e v a has route lets broken works live closure out =
      let p = linear_ane_with_vjp env ex x w b i o (record s { vjp = none }) in
      (
        reaches ex d ox ow s false v has route lets ∙ direct-fails ex e s a broken,
        reaches ex d ox ow s true v has route lets
            ∙ ap (λ f. (settle_ane env x w p.1 f).result)
                (closure-output ex z e (record s { vjp = none })
                  (forward-mlx ex z e broken works live) closure out),
      )
