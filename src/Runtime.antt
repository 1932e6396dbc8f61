-- ===== src/Runtime.antt =====
-- runtime.go and linear_vjp.go: a linear layer on the accelerator, or on MLX. `A` is the type of
-- arrays, `F` of floats, `E` of errors. `Run` lists the arrays that a call makes for its own use and
-- those that it frees; the handles of the closure's vectors are left out.
pub mod Call
pub mod Balance
pub mod Origin
pub mod Computes
pub mod Fallback
pub mod Setting
pub mod Tests
use autoresearch_mlx_go_ane.Prelude.{
  ℕ, zero, suc, ◌*◌, Bool, true, false, ◌&&◌, not, List, [], ◌∷◌, ◌++◌, Option, none, some, ◌==◌,
  if◌then◌else◌, length,
}
use autoresearch_mlx_go_ane.Prelude.Int.{ℤ, pos}
use autoresearch_mlx_go_ane.Layer.{Result, good, bad}
use autoresearch_mlx_go_ane.Routing.{
  Reason, LinearRouter, LinearRouteInput, RouteDecision, decide_linear,
}

pub data Backend : Type 0 where
  ane mlx : Backend

pub data LinearFault (E : Type 0) : Type 0 where
  nil_array wrong_dtype wrong_rank in_dim_mismatch no_cells wrong_length : LinearFault E
  routing : Reason → LinearFault E
  platform : E → LinearFault E

-- The reason that a result gives for its fallback.
pub data Why (E : Type 0) : Type 0 where
  no_reason compile_trace : Why E
  routed : Reason → Why E
  failed : LinearFault E → Why E

-- A LinearExecutor with the interfaces that it may have besides.
pub record Executor (F E : Type 0) : Type 0 where
  pub run_linear : List F → List F → ℕ → ℕ → ℕ → Result E (List F)
  pub route_shape : Option (ℕ → ℕ → ℕ → ℤ × ℤ × ℤ)
  pub cache_size : Option ℤ
  pub has_route_model : Option (ℤ → ℤ → ℤ → Bool)
  pub has_model : Option (ℕ → ℕ → ℕ → ℕ → Bool)

-- MLX, the closures of mlxc, and the fields of the Runtime that calls do not change. `custom_vjp`
-- is the error of building the closure, and `after_apply` that of getting its output.
pub record RuntimeEnv (A F E : Type 0) : Type 0 where
  pub executor : Option (Executor F E)
  pub allow_fallback : Bool
  pub router : LinearRouter
  pub training_router : LinearRouter
  pub is_training : Bool
  pub is_compiling : Bool
  pub shape : A → List ℕ
  pub is_float32 : A → Bool
  pub is_contiguous : A → Bool
  pub contiguous : A → Result E A
  pub eval_array : A → Option E
  pub cells_of : A → Option (List F)
  pub to_slice : A → Result E (List F)
  pub hash_cells : List F → ℕ
  pub from_slice : List F → ℕ → ℕ → Result E A
  pub transpose : A → Result E A
  pub matmul : A → A → Result E A
  pub custom_vjp : Option E
  pub after_apply : Option E

-- The fields that calls change: whether the closure is built, and what its last forward pass said.
pub record VjpState (E : Type 0) : Type 0 where
  pub has_handle : Bool
  pub vjp : Option (Backend × Why E)

-- The arrays made and freed, the newest first, on the way to a result.
pub record Traced (A R : Type 0) : Type 0 where
  pub made : List A
  pub freed : List A
  pub result : R

-- A copy that a view made is freed by its release function, or at once on an error.
pub record CellView (A R : Type 0) : Type 0 where
  pub copies : List A
  pub dropped : List A
  pub cells : R

pub data LinearOutcome (A E : Type 0) : Type 0 where
  gives : A → Backend → Why E → LinearOutcome A E
  fails : LinearFault E → LinearOutcome A E
  panics : LinearOutcome A E

-- What the forward function of the closure comes to.
pub data ClosureAnswer (A E : Type 0) : Type 0 where
  output : A → Backend → Why E → ClosureAnswer A E
  error : LinearFault E → ClosureAnswer A E
  panic : ClosureAnswer A E

module _ {A F E : Type 0} (env : RuntimeEnv A F E) where
  -- contiguousFloat32View.
  abbrev pub look_at : List A → Option (List F) → CellView A (Result (LinearFault E) (List F))
  look_at copies none = record { copies = copies; dropped = copies; cells = bad no_cells }
  look_at copies (some xs) = record { copies = copies; dropped = []; cells = good xs }

  abbrev pub eval_view : A → List A → Option E → CellView A (Result (LinearFault E) (List F))
  eval_view v copies (some e) = record {
    copies = copies;
    dropped = copies;
    cells = bad (platform e);
  }
  eval_view v copies none = look_at copies (env.cells_of v)

  abbrev pub copied : Result E A → CellView A (Result (LinearFault E) (List F))
  copied (bad e) = record { copies = []; dropped = []; cells = bad (platform e) }
  copied (good v) = eval_view v (v ∷ []) (env.eval_array v)

  unfoldable pub contiguous_view : A → CellView A (Result (LinearFault E) (List F))
  contiguous_view a =
      if not (env.is_float32 a)
      then record { copies = []; dropped = []; cells = bad wrong_dtype }
      else if env.is_contiguous a
      then eval_view a [] (env.eval_array a)
      else copied (env.contiguous a)

  abbrev pub materialized : Result E A → Result (LinearFault E) A
  materialized (bad e) = bad (platform e)
  materialized (good y) = good y

  -- The end of linearANE, on what the executor answers.
  abbrev pub executor_answered : ℕ → ℕ → Result E (List F) → Result (LinearFault E) A
  executor_answered batch out_dim (bad e) = bad (platform e)
  executor_answered batch out_dim (good ys) =
      if length ys == batch * out_dim
      then materialized (env.from_slice ys batch out_dim)
      else bad wrong_length

  abbrev pub ane_with_w :
      Executor F E
      → ℕ
      → ℕ
      → ℕ
      → List A
      → List F
      → CellView A (Result (LinearFault E) (List F))
      → Result (LinearFault E) (List F)
      → Traced A (Result (LinearFault E) A)
  ane_with_w ex batch in_dim out_dim held xs v (bad e) = record {
    made = v.copies ++ held;
    freed = v.dropped ++ held;
    result = bad e;
  }
  ane_with_w ex batch in_dim out_dim held xs v (good ws) = record {
    made = v.copies ++ held;
    freed = v.copies ++ held;
    result = executor_answered batch out_dim (ex.run_linear xs ws batch in_dim out_dim);
  }

  abbrev pub ane_with_x :
      Executor F E
      → A
      → ℕ
      → ℕ
      → ℕ
      → CellView A (Result (LinearFault E) (List F))
      → Result (LinearFault E) (List F)
      → Traced A (Result (LinearFault E) A)
  ane_with_x ex w batch in_dim out_dim v (bad e) = record {
    made = v.copies;
    freed = v.dropped;
    result = bad e;
  }
  ane_with_x ex w batch in_dim out_dim v (good xs) =
      let u = contiguous_view w in ane_with_w ex batch in_dim out_dim v.copies xs u u.cells

  unfoldable pub linear_ane : Executor F E → A → A → ℕ → ℕ → ℕ → Traced A (Result (LinearFault E) A)
  unfolding contiguous_view
  linear_ane ex x w batch in_dim out_dim =
      let v = contiguous_view x in ane_with_x ex w batch in_dim out_dim v v.cells

  abbrev pub mlx_with : A → Result E A → Traced A (Result (LinearFault E) A)
  mlx_with x (bad e) = record { made = []; freed = []; result = bad (platform e) }
  mlx_with x (good t) = record {
    made = t ∷ [];
    freed = t ∷ [];
    result = materialized (env.matmul x t);
  }

  unfoldable pub linear_mlx : A → A → Traced A (Result (LinearFault E) A)
  linear_mlx x w = mlx_with x (env.transpose w)

  -- One call after another.
  abbrev pub after_run : {R S : Type 0} → Traced A R → Traced A S → Traced A S
  after_run first second = record {
    made = second.made ++ first.made;
    freed = second.freed ++ first.freed;
    result = second.result;
  }

  -- validateLinearInputs; a nil array is none.
  abbrev pub dims : List ℕ → List ℕ → Result (LinearFault E) (ℕ × ℕ × ℕ)
  dims (batch ∷ in_dim ∷ []) (out_dim ∷ w_in ∷ []) =
      if in_dim == w_in then good (batch, in_dim, out_dim) else bad in_dim_mismatch
  dims (batch ∷ in_dim ∷ []) ws = bad wrong_rank
  dims xs ws = bad wrong_rank

  unfoldable pub validate_linear_inputs :
      Option A → Option A → Result (LinearFault E) (A × A × ℕ × ℕ × ℕ)
  validate_linear_inputs none w = bad nil_array
  validate_linear_inputs (some x) none = bad nil_array
  validate_linear_inputs (some x) (some w) =
      if env.is_float32 x && env.is_float32 w
      then elim (dims (env.shape x) (env.shape w)) [
        | good (batch, in_dim, out_dim) ↦ good (x, w, batch, in_dim, out_dim)
        | bad e ↦ bad e
      ]
      else bad wrong_dtype
