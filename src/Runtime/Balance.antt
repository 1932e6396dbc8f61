-- ===== src/Runtime/Balance.antt =====
-- runtime.go and linear_vjp.go: the arrays that a linear call makes for its own use.
use autoresearch_mlx_go_ane.Prelude.{
  ℕ, ◌≡◌, refl, ap, Bool, true, false, not, List, [], ◌∷◌, ◌++◌, Option, none, some, if◌then◌else◌,
}
use autoresearch_mlx_go_ane.Layer.{Result, good, bad}
use autoresearch_mlx_go_ane.Routing.{RouteDecision}
use autoresearch_mlx_go_ane.Runtime.{
  LinearFault, compile_trace, routed, failed, wrong_dtype, Executor, RuntimeEnv, VjpState, Traced,
  CellView, fails, ClosureAnswer, output, error, panic, eval_view, look_at, copied, contiguous_view,
  ane_with_w, ane_with_x, linear_ane, mlx_with, linear_mlx, validate_linear_inputs, after_run,
  routing,
}
use autoresearch_mlx_go_ane.Runtime.Call.{
  forward_mlx, forward_ane, closure_forward, with_closure, linear_ane_with_vjp, settle_ane, run_ane,
  on_route, maybe_route, with_executor, validated, linear, by_mlx, without_closure,
}

module _ {A F E : Type 0} (env : RuntimeEnv A F E) where
  -- On an error a view has dropped its copies.
  Drops : CellView A (Result (LinearFault E) (List F)) → Type 0
  Drops v = (e : LinearFault E) → v.cells ≡ bad e → v.copies ≡ v.dropped

  eval_view-Drops : (v : A) (copies : List A) (o : Option E) → Drops (eval_view env v copies o)
  unfolding Drops
  eval_view-Drops v copies (some x) e q = refl
  eval_view-Drops v copies none e q = looked (env.cells_of v) q
    where
      looked :
          (o : Option (List F))
          → (look_at env copies o).cells ≡ bad e
          → (look_at env copies o).copies ≡ (look_at env copies o).dropped
      looked none q' = refl
      looked (some xs) q' = cc

  copied-Drops : (o : Result E A) → Drops (copied env o)
  unfolding Drops
  copied-Drops (bad x) e q = refl
  copied-Drops (good v) e q = eval_view-Drops v (v ∷ []) (env.eval_array v) e q

  contiguous_view-Drops : (a : A) → Drops (contiguous_view env a)
  unfolding contiguous_view Drops
  contiguous_view-Drops a e q = choose (env.is_float32 a) (env.is_contiguous a) q
    where
      viewed : Bool → Bool → CellView A (Result (LinearFault E) (List F))
      viewed b c =
          if not b
          then record { copies = []; dropped = []; cells = bad wrong_dtype }
          else if c
          then eval_view env a [] (env.eval_array a)
          else copied env (env.contiguous a)

      choose :
          (b c : Bool) → (viewed b c).cells ≡ bad e → (viewed b c).copies ≡ (viewed b c).dropped
      choose false c q' = refl
      choose true true q' = eval_view-Drops a [] (env.eval_array a) e q'
      choose true false q' = copied-Drops (env.contiguous a) e q'

  abbrev pub IsBalanced : {R : Type 0} → Traced A R → Type 0
  IsBalanced r = r.made ≡ r.freed

  linear_ane-IsBalanced :
      (ex : Executor F E) (x w : A) (b i o : ℕ) → IsBalanced (linear_ane env ex x w b i o)
  unfolding linear_ane Drops
  linear_ane-IsBalanced ex x w b i o =
      with_x (contiguous_view env x).cells (contiguous_view-Drops x)
    where
      v : CellView A (Result (LinearFault E) (List F))
      v = contiguous_view env x

      u : CellView A (Result (LinearFault E) (List F))
      u = contiguous_view env w

      with_w :
          (xs : List F) (c : Result (LinearFault E) (List F))
          → ((e : LinearFault E) → c ≡ bad e → u.copies ≡ u.dropped)
          → IsBalanced (ane_with_w env ex b i o v.copies xs u c)
      with_w xs (bad e) f = ap (λ l. l ++ v.copies) (f e refl)
      with_w xs (good ws) f = refl

      with_x :
          (c : Result (LinearFault E) (List F))
          → ((e : LinearFault E) → c ≡ bad e → v.copies ≡ v.dropped)
          → IsBalanced (ane_with_x env ex w b i o v c)
      with_x (bad e) f = f e refl
      with_x (good xs) f = with_w xs u.cells (contiguous_view-Drops w)

  linear_mlx-IsBalanced : (x w : A) → IsBalanced (linear_mlx env x w)
  unfolding linear_mlx
  linear_mlx-IsBalanced x w = transposed (env.transpose w)
    where
      transposed : (t : Result E A) → IsBalanced (mlx_with env x t)
      transposed (bad e) = refl
      transposed (good t) = refl

  both_balanced : {l₁ l₂ m₁ m₂ : List A} → l₁ ≡ m₁ → l₂ ≡ m₂ → l₂ ++ l₁ ≡ m₂ ++ m₁
  both_balanced p q = λ i. q i ++ p i

  forward-IsBalanced :
      (ex : Executor F E) (x w : A) (b i o : ℕ) → IsBalanced (closure_forward env ex x w b i o)
  unfolding closure_forward
  forward-IsBalanced ex x w b i o = choose env.is_compiling
    where
      r : Traced A (Result (LinearFault E) A)
      r = linear_ane env ex x w b i o

      after : (c : Result (LinearFault E) A) → IsBalanced (forward_ane env x w r c)
      after (good y) = linear_ane-IsBalanced ex x w b i o
      after (bad e) = both_balanced (linear_ane-IsBalanced ex x w b i o) (linear_mlx-IsBalanced x w)

      choose :
          (c : Bool)
          → IsBalanced (
              if c
              then forward_mlx env compile_trace (linear_mlx env x w)
              else forward_ane env x w r r.result)
      choose true = linear_mlx-IsBalanced x w
      choose false = after r.result

  with_vjp-IsBalanced :
      (ex : Executor F E) (x w : A) (b i o : ℕ) (s : VjpState E)
      → IsBalanced (linear_ane_with_vjp env ex x w b i o s).1
  unfolding linear_ane_with_vjp
  with_vjp-IsBalanced ex x w b i o s = built s.has_handle env.custom_vjp
    where
      built : (h : Bool) (e : Option E) → IsBalanced (with_closure env ex x w b i o s h e).1
      built true e = forward-IsBalanced ex x w b i o
      built false none = forward-IsBalanced ex x w b i o
      built false (some e) = refl

  settled-IsBalanced :
      (x w : A) (r : Traced A (ClosureAnswer A E)) (f : ClosureAnswer A E)
      → IsBalanced r
      → IsBalanced (settle_ane env x w r f)
  settled-IsBalanced x w r (output y b why) k = k
  settled-IsBalanced x w r panic k = k
  settled-IsBalanced x w r (error e) k = choose env.allow_fallback
    where
      choose :
          (c : Bool)
          → IsBalanced (
              if c
              then after_run env r (by_mlx env (failed e) (linear_mlx env x w))
              else record { made = r.made; freed = r.freed; result = fails e })
      choose true = both_balanced k (linear_mlx-IsBalanced x w)
      choose false = k

  run_ane-IsBalanced :
      (ex : Executor F E) (x w : A) (b i o : ℕ) (s : VjpState E) (vjp : Bool)
      → IsBalanced (run_ane env ex x w b i o s vjp).1
  run_ane-IsBalanced ex x w b i o s true =
      let p = linear_ane_with_vjp env ex x w b i o (record s { vjp = none }) in
      settled-IsBalanced x w p.1 p.1.result
        (with_vjp-IsBalanced ex x w b i o (record s { vjp = none }))
  run_ane-IsBalanced ex x w b i o s false =
      settled-IsBalanced x w (without_closure env (linear_ane env ex x w b i o)) _
        (linear_ane-IsBalanced ex x w b i o)

  on_route-IsBalanced :
      (ex : Executor F E) (x w : A) (b i o : ℕ) (s : VjpState E) (vjp : Bool)
      (d : Result (LinearFault E) RouteDecision)
      → IsBalanced (on_route env ex x w b i o s vjp d).1
  on_route-IsBalanced ex x w b i o s vjp (bad e) = refl
  on_route-IsBalanced ex x w b i o s vjp (good d) = choose d.use_ane env.allow_fallback
    where
      choose :
          (c f : Bool)
          → IsBalanced
              (if c
                then run_ane env ex x w b i o s vjp
                else if f
                then (s, by_mlx env (routed d.reason) (linear_mlx env x w))
                else (s, record { made = []; freed = []; result = fails (routing d.reason) })).1
      choose true f = run_ane-IsBalanced ex x w b i o s vjp
      choose false true = linear_mlx-IsBalanced x w
      choose false false = refl

  validated-IsBalanced :
      (v : Result (LinearFault E) (A × A × ℕ × ℕ × ℕ)) (s : VjpState E) (vjp : Bool)
      → IsBalanced (validated env v s vjp).1
  validated-IsBalanced (bad e) s vjp = refl
  validated-IsBalanced (good (x, w, b, i, o)) s vjp = executed env.executor
    where
      executed : (ex : Option (Executor F E)) → IsBalanced (with_executor env ex x w b i o s vjp).1
      executed none = linear_mlx-IsBalanced x w
      executed (some ex) =
          on_route-IsBalanced ex x w b i o s vjp (maybe_route env ex w b i o env.router)

  -- Every array that a linear call makes for its own use, the contiguous copies of its inputs and
  -- the transposed weights, is freed when it returns, in whatever way it does.
  pub linear-IsBalanced :
      (x w : Option A) (s : VjpState E) (vjp : Bool) → IsBalanced (linear env x w s vjp).1
  unfolding linear
  linear-IsBalanced x w s vjp = validated-IsBalanced (validate_linear_inputs env x w) s vjp
