-- ===== src/Dispatch/Many.antt =====
-- Calls for any number of stages.
use autoresearch_mlx_go_ane.Prelude.{
  ◌≡◌, refl, Bool, true, not, ◌&&◌, ◌||◌, List, [], ◌∷◌, none, ltb, length, Bool-cases, inl, inr,
}
use autoresearch_mlx_go_ane.Prelude.Modify.{All, All-map}
use autoresearch_mlx_go_ane.Run.{Stage, Run, Outcome, ok, failed, blocked}
use autoresearch_mlx_go_ane.Run.Output.{output_hidden_view}
use autoresearch_mlx_go_ane.Run.Finish.{output_hidden_view-Delivers}
use autoresearch_mlx_go_ane.Dispatch.{
  Part, Held, Shown, DispatchEnv, Step, go, stop, stuck, ◌>>=◌, with_stage, part_of, join_begin,
  begin_all, committed, finalize, join_eval, eval_all, collect_views, finish, dispatch_on,
  dispatch_prepared_stages,
}
use autoresearch_mlx_go_ane.Dispatch.Clean.{
  IsIdle, IsReady, Runs, Shows, Keeps, IsClean, abort-All-IsIdle, begin_all-Keeps, join_view-Keeps,
  IsClean-Keeps, release-All-IsIdle,
}

-- Neither the evaluation of the stage nor its output fails.
pub record IsFine (p : Part) : Type 0 where
  pub evaluates : p.evals ≡ true
  pub shows : (s : Stage) (r : Run) → ¬ ((output_hidden_view p.view s r).1 ≡ none)

abbrev FineRun : Held → Type 0
FineRun h = Runs h × IsFine (part_of h)

abbrev Fines : Step (List Held) → Type 0
Fines (go hs) = All FineRun hs
Fines (stop qs) = All IsIdle qs
Fines (stuck qs) = ⊥

IsFine-with_stage : (p : Part) (s : Stage) → IsFine p → IsFine (with_stage p s)
IsFine-with_stage p s f = record { evaluates = f.evaluates; shows = f.shows }

join_begin-Fines :
    (p : Part) (ps : List Part) (o : Stage × Outcome Run) (rest : Step (List Held))
    → IsFine p
    → Keeps Runs (join_begin p ps o rest)
    → Fines rest
    → Fines (join_begin p ps o rest)
unfolding join_begin
join_begin-Fines p ps (s, ok r) (go hs) f k fs = ((k.0, IsFine-with_stage p s f), fs)
join_begin-Fines p ps (s, ok r) (stop qs) f k fs = k
join_begin-Fines p ps (s, ok r) (stuck qs) f k fs = k
join_begin-Fines p ps (s, failed) rest f k fs = k
join_begin-Fines p ps (s, blocked) rest f k fs = k

begin_all-Fines :
    (m single : Bool) (ps : List Part)
    → All IsReady ps
    → All IsFine ps
    → Fines (begin_all m single ps)
unfolding begin_all
begin_all-Fines m single [] a f = tt
begin_all-Fines m single (p ∷ ps) a f =
    join_begin-Fines p ps _ _ f.0 (begin_all-Keeps m single (p ∷ ps) a)
      (begin_all-Fines m single ps a.1 f.1)

eval_all_fine : (hs : List Held) → All FineRun hs → eval_all hs ≡ go hs
unfolding eval_all join_eval
eval_all_fine [] a = refl
eval_all_fine ((p, r) ∷ hs) a = simp (a.0.1.evaluates, eval_all_fine hs a.1)

collect_views-Keeps : (hs : List Held) → All FineRun hs → Keeps Shows (collect_views hs)
unfolding collect_views
collect_views-Keeps [] a = tt
collect_views-Keeps ((p, r) ∷ hs) a =
    join_view-Keeps p hs _ (collect_views hs) (inr (a.0.1.shows p.stage r))
      (output_hidden_view-Delivers p.view p.stage r a.0.0) (collect_views-Keeps hs a.1)

finish-Keeps : (env : DispatchEnv) (hs : List Held) → All FineRun hs → Keeps Shows (finish env hs)
unfolding finalize
finish-Keeps env hs a = elim (Bool-cases (committed hs || (env.syncer && env.finalizes))) [
  | inl t ↦ rw (t, eval_all_fine hs a) (collect_views-Keeps hs a)
  | inr f ↦ rw f (abort-All-IsIdle hs (All-map FineRun Runs hs (λ h x. x.0) a))
]

bind-Fines :
    (m : Step (List Held)) (f : List Held → Step (List Shown))
    → Fines m
    → ((hs : List Held) → All FineRun hs → Keeps Shows (f hs))
    → Keeps Shows (m >>= f)
bind-Fines (go hs) f k g = g hs k
bind-Fines (stop qs) f k g = k
bind-Fines (stuck qs) f k g = k

-- A call for any number of idle stages, each with at least one slot, of which no evaluation and no
-- output view fails: the call does not wait for a slot's mutex, and an error, of a start, of the
-- shared evaluation or of the stream, leaves every stage idle, and so does a success once its views
-- are released.
pub dispatch-IsClean :
    (env : DispatchEnv) (ps : List Part)
    → All IsReady ps
    → All IsFine ps
    → IsClean (dispatch_prepared_stages env ps)
unfolding dispatch_prepared_stages
dispatch-IsClean env [] a f = release-All-IsIdle [] tt
dispatch-IsClean env (p ∷ ps) a f = on (ltb 0 (length ps)) (p ∷ ps) a f
  where
    on :
        (several : Bool) (qs : List Part)
        → All IsReady qs
        → All IsFine qs
        → IsClean (dispatch_on env several qs)
    on several qs a f = elim (Bool-cases (several && not env.evaluates)) [
      | inl t ↦ rw t (All-map IsReady IsIdle qs (λ q x. x.1) a)
      | inr c ↦ rw c (
          IsClean-Keeps _ (
            bind-Fines (begin_all several (not several) qs) (finish env)
              (begin_all-Fines several (not several) qs a f) (finish-Keeps env)))
    ]
