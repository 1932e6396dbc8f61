-- ===== src/Run/Finish.antt =====
-- Ending a run: by `abort`, or by an output view.
use autoresearch_mlx_go_ane.Prelude.{true, false, Option, none, some, Bool-cases, inl, inr}
use autoresearch_mlx_go_ane.Run.{Stage, Run, abort}
use autoresearch_mlx_go_ane.Run.Output.{
  ViewEnv, View, lent, owned, Output, lend, zero_copy, own, lost, own_lost, materialize, deliver,
  output_hidden_view, release_view,
}
use autoresearch_mlx_go_ane.Run.Idle.{
  AllParked, Holds, unlock_slot-Holds, give_back-Holds, release_slot-Holds,
}

-- An abort leaves the stage idle.
pub abort-AllParked :
    (s : Stage) (r : Run) → Holds s.pool r.slot r.seq true → AllParked (abort s r).pool
unfolding abort
abort-AllParked s r h = give_back-Holds s.pool r.slot r.seq h

-- A lent view keeps its slot leased with the mutex free; a view of its own and an error leave the
-- stage idle.
abbrev pub Delivers : Stage × Option View → Type 0
Delivers (s, some (lent i seq)) = Holds s.pool i seq false
Delivers (s, some owned) = AllParked s.pool
Delivers (s, none) = AllParked s.pool

deliver-Delivers :
    (s : Stage) (r : Run) (o : Output) → Holds s.pool r.slot r.seq true → Delivers (deliver s r o)
unfolding deliver
deliver-Delivers s r lend h = unlock_slot-Holds s.pool r.slot r.seq h
deliver-Delivers s r zero_copy h = unlock_slot-Holds s.pool r.slot r.seq h
deliver-Delivers s r own h = give_back-Holds s.pool r.slot r.seq h
deliver-Delivers s r lost h = give_back-Holds s.pool r.slot r.seq h
deliver-Delivers s r own_lost h = give_back-Holds s.pool r.slot r.seq h

-- `outputHiddenView` of a run that alone holds a slot with its mutex, in each mode and whatever the
-- platform answers: a lent view holds that slot with the mutex free, and every other result leaves
-- the stage idle.
pub output_hidden_view-Delivers :
    (env : ViewEnv) (s : Stage) (r : Run)
    → Holds s.pool r.slot r.seq true
    → Delivers (output_hidden_view env s r)
unfolding output_hidden_view
output_hidden_view-Delivers env s r h = elim (Bool-cases env.aliases) [
  | inl t ↦ rw t (deliver-Delivers s r (materialize env env.mode) h)
  | inr f ↦ rw f (deliver-Delivers s r lost h)
]

-- Releasing a view leaves the stage idle: a lent view whose slot alone is leased, with the mutex
-- free, or a view of its own on an idle stage.
pub release_view-AllParked :
    (s : Stage) (v : View) → Delivers (s, some v) → AllParked (release_view s v).pool
unfolding release_view
release_view-AllParked s (lent i seq) h = release_slot-Holds s.pool i seq h
release_view-AllParked s owned h = h
