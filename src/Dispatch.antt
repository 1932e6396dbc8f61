-- ===== src/Dispatch.antt =====
-- decode/dispatch.go: one input goes to several stages at once, and their outputs are collected.
-- The stages of a call are distinct. Timings and the statistics of the call are left out.
pub mod Clean
pub mod Many
pub mod Leaks
mod Tests
use autoresearch_mlx_go_ane.Prelude.{
  ℕ, suc, ◌+◌, Bool, true, false, not, ◌&&◌, ◌||◌, List, [], ◌∷◌, map, Option, none, some, ltb,
  length, if◌then◌else◌, ◌==◌,
}
use autoresearch_mlx_go_ane.Run.{
  Stage, Run, InputEnv, Outcome, ok, failed, blocked, begin_prepared_input, abort,
}
use autoresearch_mlx_go_ane.Run.Output.{ViewEnv, View, output_hidden_view, release_view}

-- A stage of the call, with what the platform answers while it runs. `evals` is the result of
-- the evaluation, synchronous or not.
pub record Part : Type 0 where
  pub stage : Stage
  pub input : InputEnv
  pub evals : Bool
  pub view : ViewEnv

abbrev pub Held : Type 0
Held = Part × Run

abbrev pub Shown : Type 0
Shown = Part × View

pub record DispatchEnv : Type 0 where
  pub evaluates : Bool  -- mlx.Eval of the shared input succeeds
  pub syncer : Bool  -- the first bridge is a bridgeSyncer
  pub finalizes : Bool  -- FinalizeStream succeeds

-- `stop` is a return with an error, `stuck` a goroutine that waits for a slot's mutex.
pub data Step {ℓ} (A : Type ℓ) : Type ℓ where
  go : A → Step A
  stop : List Part → Step A
  stuck : List Part → Step A

infixl 5 ◌>>=◌
abbrev pub ◌>>=◌ {ℓ κ} : {A : Type ℓ} {B : Type κ} → Step A → (A → Step B) → Step B
go a >>= f = f a
stop ps >>= f = stop ps
stuck ps >>= f = stuck ps

abbrev pub with_stage : Part → Stage → Part
with_stage p s = record p { stage = s }

abbrev pub part_of : Held → Part
part_of (p, r) = p

pub abort_part : Held → Part
unfolding abort
abort_part (p, r) = with_stage p (abort p.stage r)

pub release_part : Shown → Part
unfolding release_view
release_part (p, v) = with_stage p (release_view p.stage v)

-- The result of one start, joined to those of the stages after it: an error there aborts it.
pub join_begin : Part → List Part → Stage × Outcome Run → Step (List Held) → Step (List Held)
unfolding abort_part
join_begin p ps (s, ok r) (go hs) = go ((with_stage p s, r) ∷ hs)
join_begin p ps (s, ok r) (stop qs) = stop (abort_part (with_stage p s, r) ∷ qs)
join_begin p ps (s, ok r) (stuck qs) = stuck (with_stage p s ∷ qs)
join_begin p ps (s, failed) _ = stop (with_stage p s ∷ ps)
join_begin p ps (s, blocked) _ = stuck (with_stage p s ∷ ps)

pub begin_all : Bool → Bool → List Part → Step (List Held)
unfolding join_begin begin_prepared_input
begin_all materialized single [] = go []
begin_all materialized single (p ∷ ps) =
    join_begin p ps (begin_prepared_input p.input materialized single p.stage)
      (begin_all materialized single ps)

pub committed : List Held → Bool
committed [] = false
committed ((p, r) ∷ hs) = r.stream_committed || committed hs

-- Where no run has committed the stream, the first bridge finalizes it.
pub finalize : DispatchEnv → List Held → Step (List Held)
unfolding committed abort_part
finalize env hs =
    if committed hs || (env.syncer && env.finalizes) then go hs else stop (map abort_part hs)

-- The result of one evaluation, joined to those after it.
pub join_eval : Held → Step (List Held) → Step (List Held)
join_eval h (go hs) = go (h ∷ hs)
join_eval h (stop qs) = stop (part_of h ∷ qs)
join_eval h (stuck qs) = stuck (part_of h ∷ qs)

-- The first failed evaluation aborts its own run and the runs after it.
pub eval_all : List Held → Step (List Held)
unfolding join_eval abort_part
eval_all [] = go []
eval_all ((p, r) ∷ hs) =
    if p.evals then join_eval (p, r) (eval_all hs) else stop (map abort_part ((p, r) ∷ hs))

-- A failed view releases the views before it.
pub join_view : Part → List Held → Stage × Option View → Step (List Shown) → Step (List Shown)
unfolding release_part
join_view p hs (s, some v) (go vs) = go ((with_stage p s, v) ∷ vs)
join_view p hs (s, some v) (stop qs) = stop (release_part (with_stage p s, v) ∷ qs)
join_view p hs (s, some v) (stuck qs) = stuck (with_stage p s ∷ qs)
join_view p hs (s, none) _ = stop (with_stage p s ∷ map part_of hs)

pub collect_views : List Held → Step (List Shown)
unfolding join_view output_hidden_view
collect_views [] = go []
collect_views ((p, r) ∷ hs) =
    join_view p hs (output_hidden_view p.view p.stage r) (collect_views hs)

-- The call after its starts.
abbrev pub finish : DispatchEnv → List Held → Step (List Shown)
finish env begun = finalize env begun >>= eval_all >>= collect_views

-- The shared input is evaluated first where there are several stages.
pub dispatch_on : DispatchEnv → Bool → List Part → Step (List Shown)
unfolding begin_all finalize eval_all collect_views
dispatch_on env several ps =
    if several && not env.evaluates
    then stop ps
    else (begin_all several (not several) ps >>= finish env)

unfoldable pub dispatch_prepared_stages : DispatchEnv → List Part → Step (List Shown)
unfolding dispatch_on
dispatch_prepared_stages env [] = go []
dispatch_prepared_stages env (p ∷ ps) = dispatch_on env (ltb 0 (length ps)) (p ∷ ps)

unfoldable pub release_output_views : List Shown → List Part
unfolding release_part
release_output_views = map release_part
