-- ===== src/Dispatch/Clean.antt =====
-- Where a call returns every slot that it took.
use autoresearch_mlx_go_ane.Prelude.{
  ◌<◌, ◌≡◌, refl, Bool, true, false, ◌&&◌, ◌||◌, List, [], ◌∷◌, map, ◌⊎◌, Option, none, some,
  length, if◌then◌else◌, Bool-cases, inl, inr,
}
use autoresearch_mlx_go_ane.Prelude.Modify.{All, All-map}
use autoresearch_mlx_go_ane.Run.{Stage, Run, Outcome, ok, failed, blocked, begin_prepared_input}
use autoresearch_mlx_go_ane.Run.Output.{View}
use autoresearch_mlx_go_ane.Run.Idle.{AllParked, Holds}
use autoresearch_mlx_go_ane.Run.Begin.{Starts, begin_prepared_input-Starts}
use autoresearch_mlx_go_ane.Run.Finish.{
  Delivers, abort-AllParked, output_hidden_view-Delivers, release_view-AllParked,
}
use autoresearch_mlx_go_ane.Dispatch.{
  Part, Held, Shown, DispatchEnv, Step, go, stop, stuck, ◌>>=◌, with_stage, part_of, abort_part,
  release_part, join_begin, begin_all, committed, finalize, join_eval, eval_all, join_view,
  collect_views, finish, dispatch_prepared_stages, release_output_views,
}

abbrev pub IsIdle : Part → Type 0
IsIdle p = AllParked p.stage.pool

-- An idle stage that has at least its first slot, as every stage has.
abbrev pub IsReady : Part → Type 0
IsReady p = (0 < length p.stage.pool.slots) × AllParked p.stage.pool

abbrev pub Runs : Held → Type 0
Runs (p, r) = Holds p.stage.pool r.slot r.seq true

abbrev pub Shows : Shown → Type 0
Shows (p, v) = Delivers (p.stage, some v)

-- A step that goes on holds what `P` says, one that stops has left every stage idle.
abbrev pub Keeps {ℓ} : {A : Type ℓ} → (A → Type 0) → Step (List A) → Type 0
Keeps P (go xs) = All P xs
Keeps P (stop qs) = All IsIdle qs
Keeps P (stuck qs) = ⊥

abort_part-IsIdle : (h : Held) → Runs h → IsIdle (abort_part h)
unfolding abort_part
abort_part-IsIdle (p, r) h = abort-AllParked p.stage r h

pub abort-All-IsIdle : (hs : List Held) → All Runs hs → All IsIdle (map abort_part hs)
abort-All-IsIdle [] a = tt
abort-All-IsIdle (h ∷ hs) a = (abort_part-IsIdle h a.0, abort-All-IsIdle hs a.1)

join_begin-Keeps :
    (p : Part) (ps : List Part) (o : Stage × Outcome Run) (rest : Step (List Held))
    → All IsReady ps
    → Starts o
    → Keeps Runs rest
    → Keeps Runs (join_begin p ps o rest)
unfolding join_begin
join_begin-Keeps p ps (s, ok r) (go hs) a h k = (h, k)
join_begin-Keeps p ps (s, ok r) (stop qs) a h k = (abort_part-IsIdle (with_stage p s, r) h, k)
join_begin-Keeps p ps (s, ok r) (stuck qs) a h k = k
join_begin-Keeps p ps (s, failed) rest a h k = (h, All-map _ _ ps (λ q x. x.1) a)
join_begin-Keeps p ps (s, blocked) rest a h k = h

pub begin_all-Keeps :
    (m single : Bool) (ps : List Part) → All IsReady ps → Keeps Runs (begin_all m single ps)
unfolding begin_all
begin_all-Keeps m single [] a = tt
begin_all-Keeps m single (p ∷ ps) a =
    join_begin-Keeps p ps _ _ a.1 (begin_prepared_input-Starts p.input m single p.stage a.0.0 a.0.1)
      (begin_all-Keeps m single ps a.1)

finalize-Keeps : (env : DispatchEnv) (hs : List Held) → All Runs hs → Keeps Runs (finalize env hs)
unfolding finalize
finalize-Keeps env hs a = elim (Bool-cases (committed hs || (env.syncer && env.finalizes))) [
  | inl t ↦ rw t a
  | inr f ↦ rw f (abort-All-IsIdle hs a)
]

pub join_view-Keeps :
    (p : Part) (hs : List Held) (o : Stage × Option View) (rest : Step (List Shown))
    → All (λ (h : Held). IsIdle (part_of h)) hs ⊎ (¬ (o.1 ≡ none))
    → Delivers o
    → Keeps Shows rest
    → Keeps Shows (join_view p hs o rest)
unfolding join_view release_part
join_view-Keeps p hs (s, some v) (go vs) a d k = (d, k)
join_view-Keeps p hs (s, some v) (stop qs) a d k = (release_view-AllParked s v d, k)
join_view-Keeps p hs (s, some v) (stuck qs) a d k = k
join_view-Keeps p hs (s, none) rest (inl a) d k = (d, map_idle hs a)
  where
    map_idle :
        (hs : List Held) → All (λ (h : Held). IsIdle (part_of h)) hs → All IsIdle (map part_of hs)
    map_idle [] a = tt
    map_idle (h ∷ hs) a = (a.0, map_idle hs a.1)
join_view-Keeps p hs (s, none) rest (inr some_view) d k = absurd (some_view refl)

view_one-Keeps : (h : Held) → Runs h → Keeps Shows (collect_views (h ∷ []))
unfolding collect_views
view_one-Keeps (p, r) h =
    join_view-Keeps p [] _ (go []) (inl tt) (output_hidden_view-Delivers p.view p.stage r h) tt

-- Every result of the call leaves its stages idle: a success after `releaseOutputViews`, an error
-- as it is. The call never waits for the mutex of a slot.
abbrev pub IsClean : Step (List Shown) → Type 0
IsClean (go vs) = All IsIdle (release_output_views vs)
IsClean (stop qs) = All IsIdle qs
IsClean (stuck qs) = ⊥

pub release-All-IsIdle : (vs : List Shown) → All Shows vs → All IsIdle (release_output_views vs)
unfolding release_output_views
release-All-IsIdle [] a = tt
release-All-IsIdle ((p, v) ∷ vs) a =
    (release_view-AllParked p.stage v a.0, release-All-IsIdle vs a.1)

pub IsClean-Keeps : (m : Step (List Shown)) → Keeps Shows m → IsClean m
IsClean-Keeps (go vs) k = release-All-IsIdle vs k
IsClean-Keeps (stop qs) k = k
IsClean-Keeps (stuck qs) k = k

eval_one :
    (h : Held) (b : Bool)
    → (part_of h).evals ≡ b
    → eval_all (h ∷ []) ≡ (if b then go (h ∷ []) else stop (abort_part h ∷ []))
unfolding eval_all join_eval
eval_one (p, r) true e = simp e
eval_one (p, r) false e = simp e

eval_view-Keeps : (h : Held) → Runs h → Keeps Shows (eval_all (h ∷ []) >>= collect_views)
eval_view-Keeps h k = elim (Bool-cases (part_of h).evals) [
  | inl t ↦ rw (eval_one h true t) (view_one-Keeps h k)
  | inr f ↦ rw (eval_one h false f) (abort_part-IsIdle h k, tt)
]

module _ (env : DispatchEnv) where
  finish_one-Keeps : (h : Held) → Runs h → Keeps Shows (finish env (h ∷ []))
  unfolding finalize
  finish_one-Keeps h k = elim (Bool-cases (committed (h ∷ []) || (env.syncer && env.finalizes))) [
    | inl t ↦ rw t (eval_view-Keeps h k)
    | inr f ↦ rw f (abort_part-IsIdle h k, tt)
  ]

  one-Keeps :
      (p : Part) (o : Stage × Outcome Run)
      → Starts o
      → Keeps Shows (join_begin p [] o (go []) >>= finish env)
  unfolding join_begin
  one-Keeps p (s, ok r) k = finish_one-Keeps (with_stage p s, r) k
  one-Keeps p (s, failed) k = (k, tt)
  one-Keeps p (s, blocked) k = k

-- A call for one idle stage with at least one slot, as every dense layer makes it: whatever the
-- platform answers, the call does not wait for a slot's mutex, an error leaves the stage idle, and
-- so does a success once its view is released.
pub dispatch_one-IsClean :
    (env : DispatchEnv) (p : Part) → IsReady p → IsClean (dispatch_prepared_stages env (p ∷ []))
unfolding dispatch_prepared_stages
dispatch_one-IsClean env p a = IsClean-Keeps _ (
    one-Keeps env p (begin_prepared_input p.input false true p.stage)
      (begin_prepared_input-Starts p.input false true p.stage a.0 a.1))
