-- ===== src/Runtime/Origin.antt =====
-- runtime.go and linear_vjp.go: where the output of a linear call comes from.
use autoresearch_mlx_go_ane.Prelude.{
  ℕ, ◌*◌, ◌≡◌, refl, subst, Bool, true, false, List, Option, none, some, ◌==◌, ==_iff,
  if◌then◌else◌, length,
}
use autoresearch_mlx_go_ane.Layer.{Result, good, bad}
use autoresearch_mlx_go_ane.Routing.{RouteDecision}
use autoresearch_mlx_go_ane.Runtime.{
  ane, mlx, Backend, LinearFault, wrong_length, Why, no_reason, compile_trace, failed, Executor,
  RuntimeEnv, VjpState, Traced, CellView, ClosureAnswer, output, error, panic, contiguous_view,
  materialized, executor_answered, ane_with_w, ane_with_x, linear_ane, mlx_with, linear_mlx,
}
use autoresearch_mlx_go_ane.Runtime.Call.{
  forward_mlx, forward_ane, closure_forward, taken, applied, with_closure, linear_ane_with_vjp,
  without_closure, maybe_route,
}

module _ {A F E : Type 0} (env : RuntimeEnv A F E) where
  -- The accelerator's output for `x` and `w`: what the executor made of their cells, in as many
  -- cells as the output has.
  pub record ByAne (ex : Executor F E) (x w : A) (b i o : ℕ) (y : A) : Type 0 where
    pub xs : List F
    pub ws : List F
    pub ys : List F
    pub is_x : (contiguous_view env x).cells ≡ good xs
    pub is_w : (contiguous_view env w).cells ≡ good ws
    pub is_linear : ex.run_linear xs ws b i o ≡ good ys
    pub is_sized : length ys ≡ b * o
    pub is_output : env.from_slice ys b o ≡ good y

  -- The output of MLX: the product with the transposed weights.
  pub record ByMlx (x w y : A) : Type 0 where
    pub turned : A
    pub is_turned : env.transpose w ≡ good turned
    pub is_product : env.matmul x turned ≡ good y

  materialized-good : (r : Result E A) (y : A) → materialized env r ≡ good y → r ≡ good y
  materialized-good (bad e) y q = cc
  materialized-good (good z) y q = cc

  answered-good :
      (b o : ℕ) (r : Result E (List F)) (y : A)
      → executor_answered env b o r ≡ good y
      → (ys : List F) × (r ≡ good ys) × (length ys ≡ b * o) × (env.from_slice ys b o ≡ good y)
  answered-good b o (bad e) y q = cc
  answered-good b o (good ys) y q = sized (length ys == b * o) refl q
    where
      sized :
          (c : Bool)
          → (length ys == b * o) ≡ c
          → (if c then materialized env (env.from_slice ys b o) else bad wrong_length) ≡ good y
          → (zs : List F) × (◌≡◌ {A = Result E (List F)} (good ys) (good zs))
            × (length zs ≡ b * o)
            × (env.from_slice zs b o ≡ good y)
      sized true e q' = (ys, refl, (==_iff _ _).0 e, materialized-good _ y q')
      sized false e q' = cc

  linear_ane-ByAne :
      (ex : Executor F E) (x w : A) (b i o : ℕ) (y : A)
      → (linear_ane env ex x w b i o).result ≡ good y
      → ByAne ex x w b i o y
  unfolding linear_ane
  linear_ane-ByAne ex x w b i o y q = with_x (contiguous_view env x).cells refl q
    where
      v : CellView A (Result (LinearFault E) (List F))
      v = contiguous_view env x

      u : CellView A (Result (LinearFault E) (List F))
      u = contiguous_view env w

      with_w :
          (xs : List F) (c : Result (LinearFault E) (List F))
          → v.cells ≡ good xs
          → u.cells ≡ c
          → (ane_with_w env ex b i o v.copies xs u c).result ≡ good y
          → ByAne ex x w b i o y
      with_w xs (bad e) f g q' = cc
      with_w xs (good ws) f g q' =
          let (ys, l, s, m) = answered-good b o (ex.run_linear xs ws b i o) y q' in
          record {
            xs = xs;
            ws = ws;
            ys = ys;
            is_x = f;
            is_w = g;
            is_linear = l;
            is_sized = s;
            is_output = m;
          }

      with_x :
          (c : Result (LinearFault E) (List F))
          → v.cells ≡ c
          → (ane_with_x env ex w b i o v c).result ≡ good y
          → ByAne ex x w b i o y
      with_x (bad e) f q' = cc
      with_x (good xs) f q' = with_w xs u.cells f refl q'

  pub linear_mlx-ByMlx : (x w y : A) → (linear_mlx env x w).result ≡ good y → ByMlx x w y
  unfolding linear_mlx
  linear_mlx-ByMlx x w y q = turned (env.transpose w) refl q
    where
      turned :
          (t : Result E A) → env.transpose w ≡ t → (mlx_with env x t).result ≡ good y → ByMlx x w y
      turned (bad e) f q' = cc
      turned (good t) f q' = record {
        turned = t;
        is_turned = f;
        is_product = materialized-good _ y q';
      }

  -- An output with its backend: the accelerator's only if the router let the layer through.
  abbrev pub Origin : A → A → ℕ → ℕ → ℕ → Backend → A → Type 0
  Origin x w b i o mlx y = ByMlx x w y
  Origin x w b i o ane y =
      (ex : Executor F E) × (env.executor ≡ some ex)
      × ByAne ex x w b i o y
      × ((d : RouteDecision) × (maybe_route env ex w b i o env.router ≡ good d)
          × (d.use_ane ≡ true))

  -- The same, for what the accelerator's part comes to.
  abbrev pub Source : Executor F E → A → A → ℕ → ℕ → ℕ → Backend → A → Type 0
  Source ex x w b i o mlx y = ByMlx x w y
  Source ex x w b i o ane y = ByAne ex x w b i o y

  module _ (ex : Executor F E) (x w : A) (b i o : ℕ) where
    abbrev pub Sourced : ClosureAnswer A E → Type 0
    Sourced f = (y : A) (k : Backend) (why : Why E) → f ≡ output y k why → Source ex x w b i o k y

    same-Source :
        (y z : A) (k l : Backend) (why v : Why E)
        → ◌≡◌ {A = ClosureAnswer A E} (output z l v) (output y k why)
        → Source ex x w b i o l z
        → Source ex x w b i o k y
    same-Source y z k l why v e s =
        subst (λ (p : Backend × A). Source ex x w b i o p.0 p.1)
          (λ j. (backend_of (e j), array_of (e j))) s
      where
        backend_of : ClosureAnswer A E → Backend
        backend_of (output a c u) = c
        backend_of (error f) = l
        backend_of panic = l

        array_of : ClosureAnswer A E → A
        array_of (output a c u) = a
        array_of (error f) = z
        array_of panic = z

    forward_mlx-Sourced : (why : Why E) → Sourced (forward_mlx env why (linear_mlx env x w)).result
    forward_mlx-Sourced why y k v q = made (linear_mlx env x w).result refl q
      where
        made :
            (r : Result (LinearFault E) A)
            → (linear_mlx env x w).result ≡ r
            → (elim r as (λ _. ClosureAnswer A E) [ good z ↦ output z mlx why | bad e ↦ panic ])
              ≡ output y k v
            → Source ex x w b i o k y
        made (bad e) f q' = cc
        made (good z) f q' = same-Source y z k mlx v why q' (linear_mlx-ByMlx x w z f)

    forward-Sourced : Sourced (closure_forward env ex x w b i o).result
    unfolding closure_forward
    forward-Sourced y k v q = choose env.is_compiling q
      where
        r : Traced A (Result (LinearFault E) A)
        r = linear_ane env ex x w b i o

        after :
            (c : Result (LinearFault E) A)
            → r.result ≡ c
            → (forward_ane env x w r c).result ≡ output y k v
            → Source ex x w b i o k y
        after (good z) f q' =
            same-Source y z k ane v no_reason q' (linear_ane-ByAne ex x w b i o z f)
        after (bad e) f q' = forward_mlx-Sourced (failed e) y k v q'

        choose :
            (c : Bool)
            → (if c
                then forward_mlx env compile_trace (linear_mlx env x w)
                else forward_ane env x w r r.result).result
              ≡ output y k v
            → Source ex x w b i o k y
        choose true q' = forward_mlx-Sourced compile_trace y k v q'
        choose false q' = after r.result refl q'

    applied-Sourced : (f : ClosureAnswer A E) → Sourced f → Sourced (applied env f)
    applied-Sourced (error e) s y k v q = cc
    applied-Sourced panic s y k v q = cc
    applied-Sourced (output z l u) s y k v q = out env.after_apply q
      where
        out : (e : Option E) → taken env z l u e ≡ output y k v → Source ex x w b i o k y
        out none q' = s y k v q'
        out (some e) q' = cc

    pub with_vjp-Sourced :
        (s : VjpState E) → Sourced (linear_ane_with_vjp env ex x w b i o s).1.result
    unfolding linear_ane_with_vjp
    with_vjp-Sourced s y k v q = built s.has_handle env.custom_vjp q
      where
        built :
            (h : Bool) (e : Option E)
            → (with_closure env ex x w b i o s h e).1.result ≡ output y k v
            → Source ex x w b i o k y
        built true e q' =
            applied-Sourced (closure_forward env ex x w b i o).result forward-Sourced y k v q'
        built false none q' =
            applied-Sourced (closure_forward env ex x w b i o).result forward-Sourced y k v q'
        built false (some e) q' = cc

    pub direct-Sourced : Sourced (without_closure env (linear_ane env ex x w b i o)).result
    direct-Sourced y k v q = made (linear_ane env ex x w b i o).result refl q
      where
        made :
            (r : Result (LinearFault E) A)
            → (linear_ane env ex x w b i o).result ≡ r
            → (elim r as (λ _. ClosureAnswer A E) [
              | good z ↦ output z ane no_reason
              | bad e ↦ error e
            ])
              ≡ output y k v
            → Source ex x w b i o k y
        made (bad e) f q' = cc
        made (good z) f q' =
            same-Source y z k ane v no_reason q' (linear_ane-ByAne ex x w b i o z f)
