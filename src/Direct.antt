-- ===== src/Direct.antt =====
-- decode/pool.go, the second half: the pool of a direct block. Its code repeats that of a stage's
-- pool and of a prepared run word for word on its own slots, and so do these definitions.
use autoresearch_mlx_go_ane.Prelude.{ℕ, Option, Bool}
use autoresearch_mlx_go_ane.Pool.{Pool, PoolEnv, Acquired, acquire_slot, release_slot}
use autoresearch_mlx_go_ane.Run.{Stage, Run}
use autoresearch_mlx_go_ane.Run.Output.{ViewEnv, View, wait_for_output_ready, output_hidden_view}

abbrev pub acquire_direct_slot : PoolEnv → (Pool → Pool) → Pool → Pool × Acquired
acquire_direct_slot env others b = acquire_slot env others b

abbrev pub release_direct_slot : Pool → ℕ → ℕ → Pool
release_direct_slot b i lease = release_slot b i lease

abbrev pub wait_for_direct_output : ViewEnv → Bool
wait_for_direct_output env = wait_for_output_ready env

abbrev pub direct_output_hidden_view : ViewEnv → Stage → Run → Stage × Option View
direct_output_hidden_view env b r = output_hidden_view env b r
