-- ===== src/Run/Tests.antt =====
-- A stage of one slot on concrete calls.
use autoresearch_mlx_go_ane.Prelude.{refl, Bool, true, false, [], ◌∷◌, arith}
use autoresearch_mlx_go_ane.Pool.{Pool}
use autoresearch_mlx_go_ane.Pool.Tests.{idle_pool, busy_pool, platform}
use autoresearch_mlx_go_ane.Run.{Stage, Run, InputEnv, NormEnv, begin_prepared_input}
use autoresearch_mlx_go_ane.Run.Output.{ViewEnv, gpu_materialize, gpu_wait, output_hidden_view}
use autoresearch_mlx_go_ane.Run.Begin.{Starts, begin_prepared_input-Starts}
use autoresearch_mlx_go_ane.Run.Finish.{Delivers, output_hidden_view-Delivers}

abbrev pub stage_of : Pool → Stage
stage_of p = record {
  pool = p;
  fell_back = false;
  reasons = [];
  zero_copies = 0;
  copy_fallbacks = 0;
}

-- Everything works but the shared copy and its signal, so the input goes through the host.
abbrev pub input : InputEnv
input = record {
  pool_env = platform;
  others = λ p. p;
  evaluator = true;
  synchronizer = true;
  transfer = true;
  has_events = true;
  resets = true;
  aliases = true;
  split_copy = true;
  copies = true;
  signals = true;
  copies_signal = false;
  reads = true;
  writes = true;
  signals_cpu = true;
}

abbrev norm : NormEnv
norm = record {
  pool_env = platform;
  others = λ p. p;
  norm_bridge = true;
  synchronizer = true;
  has_events = true;
  resets = true;
  aliases = true;
  norms = false;
}

abbrev pub view_env : Bool → ViewEnv
view_env alias_works = record {
  mode = gpu_materialize;
  wait_mode = gpu_wait;
  float32 = true;
  aliases = alias_works;
  synchronizer = true;
  wait_bridge = true;
  waits_gpu = true;
  has_signal = true;
  waits_cpu = true;
  split_copy = true;
  buffers = true;
  copies = true;
  casts = true;
  final_casts = true;
  final_copies = true;
}

abbrev locked_pool : Pool
locked_pool = record busy_pool {
  slots = record { in_use = true; lease_seq = 1; locked = true } ∷ [];
}

abbrev run : Run
run = record { slot = 0; seq = 1; synchronized = true; stream_committed = true }

begin_prepared_input-Starts_example :
    Starts (begin_prepared_input input false true (stage_of idle_pool))
begin_prepared_input-Starts_example =
    begin_prepared_input-Starts input false true (stage_of idle_pool) (omega arith)
      ((refl, refl), tt)

output_hidden_view-Delivers_example :
    Delivers (output_hidden_view (view_env true) (stage_of locked_pool) run)
output_hidden_view-Delivers_example =
    output_hidden_view-Delivers (view_env true) (stage_of locked_pool) run (record {
      held = record { in_use = true; lease_seq = 1; locked = true };
      found = refl;
      busy = refl;
      latch_is = refl;
      numbered = refl;
      rest = ((refl, refl), tt);
    })
