-- ===== src/Runtime/Tests.antt =====
-- Arrays are lists with a mark: 0 for one that is not contiguous. MLX gives 70 cells, the executor
-- as many as it is asked for, or an error.
use autoresearch_mlx_go_ane.Prelude.{
  ℕ, ◌*◌, ◌≡◌, refl, true, false, List, [], ◌∷◌, none, some, replicate,
}
use autoresearch_mlx_go_ane.Layer.{good, bad}
use autoresearch_mlx_go_ane.Routing.{eligible}
use autoresearch_mlx_go_ane.Runtime.{
  ane, mlx, Backend, platform, Why, failed, no_reason, Executor, RuntimeEnv, VjpState, gives, fails,
  contiguous_view, linear_ane, linear_mlx, validate_linear_inputs,
}
use autoresearch_mlx_go_ane.Runtime.Call.{closure_forward, linear_ane_with_vjp, linear}
use autoresearch_mlx_go_ane.Runtime.Balance.{linear-IsBalanced}
use autoresearch_mlx_go_ane.Runtime.Computes.{linear-Tells}
use autoresearch_mlx_go_ane.Runtime.Origin.{Origin}
use autoresearch_mlx_go_ane.Runtime.Fallback.{linear-Gives}
use autoresearch_mlx_go_ane.Runtime.Setting.{linear_ignores_setting}

abbrev answering : Executor ℕ ℕ
answering = record {
  run_linear = λ xs ws b i o. good (replicate (b * o) 1);
  route_shape = none;
  cache_size = none;
  has_route_model = none;
  has_model = none;
}

-- An input of 2 rows of 3, and weights of 2 rows of 3.
abbrev working : RuntimeEnv (List ℕ) ℕ ℕ
working = record {
  executor = some answering;
  allow_fallback = true;
  router = none;
  training_router = none;
  is_training = false;
  is_compiling = false;
  shape = λ a. 2 ∷ 3 ∷ [];
  is_float32 = λ a. true;
  is_contiguous = λ a. false;
  contiguous = λ a. good (9 ∷ a);
  eval_array = λ a. none;
  cells_of = λ a. some a;
  to_slice = λ a. good a;
  hash_cells = λ a. 0;
  from_slice = λ ys b o. good ys;
  transpose = λ w. good (8 ∷ w);
  matmul = λ x t. good (70 ∷ []);
  custom_vjp = none;
  after_apply = none;
}

abbrev strict : RuntimeEnv (List ℕ) ℕ ℕ
strict = record working {
  executor = some (record answering { run_linear = λ xs ws b i o. bad 5 });
  allow_fallback = false;
}

abbrev idle : VjpState ℕ
idle = record { has_handle = false; vjp = none }

-- The accelerator gives four cells.
runs :
    (linear working (some (1 ∷ [])) (some (2 ∷ [])) idle true).1.result
    ≡ gives (1 ∷ 1 ∷ 1 ∷ 1 ∷ []) ane no_reason
unfolding linear linear_ane_with_vjp closure_forward linear_ane contiguous_view
    validate_linear_inputs
runs = refl

-- Both copies are freed.
frees :
    (linear working (some (1 ∷ [])) (some (2 ∷ [])) idle true).1.freed
    ≡ (9 ∷ 2 ∷ []) ∷ (9 ∷ 1 ∷ []) ∷ []
unfolding linear linear_ane_with_vjp closure_forward linear_ane contiguous_view
    validate_linear_inputs
frees = refl

linear-IsBalanced_example :
    (linear working (some (1 ∷ [])) (some (2 ∷ [])) idle true).1.made
    ≡ (linear working (some (1 ∷ [])) (some (2 ∷ [])) idle true).1.freed
linear-IsBalanced_example = linear-IsBalanced working (some (1 ∷ [])) (some (2 ∷ [])) idle true

linear-Tells_example : Origin working (1 ∷ []) (2 ∷ []) 2 3 2 ane (1 ∷ 1 ∷ 1 ∷ 1 ∷ [])
unfolding validate_linear_inputs
linear-Tells_example =
    linear-Tells working (1 ∷ []) (2 ∷ []) 2 3 2 (some (1 ∷ [])) (some (2 ∷ [])) idle true
      (1 ∷ 1 ∷ 1 ∷ 1 ∷ []) ane no_reason refl runs

linear-Gives_example :
    (y : List ℕ) × (k : Backend) × (why : Why ℕ) × ((linear working
        (some (1 ∷ []))
        (some (2 ∷ []))
        idle
        true).1.result
      ≡ gives y k why)
unfolding validate_linear_inputs linear_mlx
linear-Gives_example =
    linear-Gives working (1 ∷ []) (2 ∷ []) 2 3 2 (some (1 ∷ [])) (some (2 ∷ [])) idle true (70 ∷ [])
      (2 ∷ []) refl refl refl refl

linear_ignores_setting_example :
    ((linear strict (some (1 ∷ [])) (some (2 ∷ [])) idle false).1.result ≡ fails (platform 5))
    × ((linear strict (some (1 ∷ [])) (some (2 ∷ [])) idle true).1.result
        ≡ gives (70 ∷ []) mlx (failed (platform 5)))
unfolding validate_linear_inputs linear_ane contiguous_view linear_mlx
linear_ignores_setting_example =
    linear_ignores_setting strict (1 ∷ []) (2 ∷ []) 2 3 2
      (record answering { run_linear = λ xs ws b i o. bad 5 })
      (record { use_ane = true; reason = eligible }) (some (1 ∷ [])) (some (2 ∷ [])) idle (70 ∷ [])
      (platform 5) refl refl refl refl refl refl refl refl refl refl
