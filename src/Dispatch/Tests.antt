-- ===== src/Dispatch/Tests.antt =====
-- Calls for one and for two stages.
use autoresearch_mlx_go_ane.Prelude.{◌≡◌, refl, Bool, true, false, [], ◌∷◌, ◌++◌, map, none, arith}
use autoresearch_mlx_go_ane.Prelude.Modify.{All}
use autoresearch_mlx_go_ane.Pool.{Pool}
use autoresearch_mlx_go_ane.Pool.Tests.{idle_pool, busy_pool}
use autoresearch_mlx_go_ane.Run.{Stage, Run, Outcome, blocked, begin_prepared_input, run_of}
use autoresearch_mlx_go_ane.Run.Output.{output_hidden_view}
use autoresearch_mlx_go_ane.Run.Tests.{stage_of, input, view_env}
use autoresearch_mlx_go_ane.Dispatch.{
  Part, Held, DispatchEnv, go, stop, begin_all, part_of, abort_part, with_stage,
  dispatch_prepared_stages,
}
use autoresearch_mlx_go_ane.Dispatch.Clean.{IsReady, Runs, IsClean, dispatch_one-IsClean}
use autoresearch_mlx_go_ane.Dispatch.Many.{dispatch-IsClean}
use autoresearch_mlx_go_ane.Dispatch.Leaks.{dispatch_eval_leaks}

abbrev answers : DispatchEnv
answers = record { evaluates = true; syncer = true; finalizes = true }

abbrev part : Bool → Bool → Part
part eval_works alias_works = record {
  stage = stage_of idle_pool;
  input = input;
  evals = eval_works;
  view = view_env alias_works;
}

abbrev locked_pool : Pool
locked_pool = record busy_pool {
  slots = record { in_use = true; lease_seq = 1; locked = true } ∷ [];
}

abbrev fallen : Stage
fallen = record (stage_of locked_pool) {
  fell_back = true;
  reasons = autoresearch_mlx_go_ane.Run.by_copy ∷ [];
}

abbrev host_run : Run
host_run = record { slot = 0; seq = 1; synchronized = false; stream_committed = false }

abbrev begun : Bool → Bool → Held
begun eval_works alias_works = (with_stage (part eval_works alias_works) fallen, host_run)

dispatch_one-IsClean_example : IsClean (dispatch_prepared_stages answers (part false true ∷ []))
dispatch_one-IsClean_example =
    dispatch_one-IsClean answers (part false true) (omega arith, ((refl, refl), tt))

two_begin :
    (e v : Bool)
    → begin_all true false (part true v ∷ part e true ∷ []) ≡ go (begun true v ∷ begun e true ∷ [])
unfolding begin_all
two_begin e v = refl

ready : (e v : Bool) → IsReady (part e v)
ready e v = (omega arith, ((refl, refl), tt))

always_shows : (s : Stage) (r : Run) → ¬ ((output_hidden_view (view_env true) s r).1 ≡ none)
unfolding output_hidden_view
always_shows s r e = cc

dispatch-IsClean_example :
    IsClean (dispatch_prepared_stages answers (part true true ∷ part true true ∷ []))
dispatch-IsClean_example =
    dispatch-IsClean answers (part true true ∷ part true true ∷ [])
      (ready true true, (ready true true, tt))
      (
        record { evaluates = refl; shows = always_shows },
        (record { evaluates = refl; shows = always_shows }, tt),
      )

dispatch_eval_leaks_example :
    (dispatch_prepared_stages answers (part true true ∷ part false true ∷ [])
      ≡ stop (map part_of (begun true true ∷ []) ++ map abort_part (begun false true ∷ [])))
    × All Runs (begun true true ∷ [])
dispatch_eval_leaks_example =
    dispatch_eval_leaks answers (part true true) (part false true) [] (begun true true ∷ [])
      (with_stage (part false true) fallen) host_run [] refl refl refl
      (ready true true, (ready false true, tt)) (two_begin false true) (refl, tt) refl

abbrev returned : Stage
returned = record fallen {
  pool = record busy_pool { slots = record { in_use = false; lease_seq = 1; locked = false } ∷ [] };
}

view_fails : output_hidden_view (view_env false) fallen host_run ≡ (returned, none)
unfolding output_hidden_view
view_fails = refl
