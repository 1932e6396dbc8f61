-- ===== src/Run/Output.antt =====
-- decode/pool.go: the output view of a run, which lends its slot, holds a copy, or is an error.
use autoresearch_mlx_go_ane.Prelude.{
  ℕ, ◌+◌, Bool, not, ◌&&◌, ◌||◌, Option, none, some, if◌then◌else◌,
}
use autoresearch_mlx_go_ane.Pool.{release_slot}
use autoresearch_mlx_go_ane.Run.{Stage, Run, with_pool, unlock_slot, give_back}

pub data OutputMode : Type 0 where
  copy iosurface_alias gpu_materialize gpu_native : OutputMode

pub data WaitMode : Type 0 where
  cpu_sync gpu_wait : WaitMode

pub record ViewEnv : Type 0 where
  pub mode : OutputMode
  pub wait_mode : WaitMode
  pub float32 : Bool  -- dtype == mlx.Float32
  pub aliases : Bool  -- outputHiddenAlias succeeds
  pub synchronizer : Bool
  pub wait_bridge : Bool  -- slot.bridge is a waitBridge
  pub waits_gpu : Bool  -- WaitForANE succeeds
  pub has_signal : Bool  -- SignalEvent() != nil
  pub waits_cpu : Bool  -- WaitCPU succeeds within two seconds
  pub split_copy : Bool
  pub buffers : Bool  -- outputBuffer succeeds
  pub copies : Bool  -- CopyInto succeeds
  pub casts : Bool  -- Astype to the native dtype succeeds
  pub final_casts : Bool  -- Astype on the copy path succeeds
  pub final_copies : Bool  -- Copy succeeds

-- waitForOutputReady: does it return without an error
pub wait_on : ViewEnv → WaitMode → Bool
wait_on env cpu_sync = env.has_signal && env.waits_cpu
wait_on env gpu_wait = if env.wait_bridge then env.waits_gpu else env.has_signal && env.waits_cpu

pub wait_for_output_ready : ViewEnv → Bool
unfolding wait_on
wait_for_output_ready env = env.synchronizer && wait_on env env.wait_mode

-- How the output leaves the slot: lent with the slot, as a copy of its own, or not at all.
pub data Output : Type 0 where
  lend zero_copy own lost own_lost : Output

-- The fallback path: `onOutputCopy`, an optional cast, and a copy.
pub copy_out : ViewEnv → Output
copy_out env = if (env.float32 || env.final_casts) && env.final_copies then own else own_lost

pub materialize_native : ViewEnv → Output
unfolding copy_out
materialize_native env =
    if env.float32
    then (if not env.buffers
        then lost
        else if env.split_copy && env.copies
        then lend
        else copy_out env)
    else (if env.casts then lend else copy_out env)

pub materialize : ViewEnv → OutputMode → Output
unfolding copy_out wait_for_output_ready materialize_native
materialize env iosurface_alias = if env.float32 then zero_copy else copy_out env
materialize env gpu_materialize =
    if not (wait_for_output_ready env)
    then lost
    else if not env.split_copy
    then copy_out env
    else if not env.buffers || not env.copies
    then lost
    else lend
materialize env gpu_native =
    if not (wait_for_output_ready env) then lost else materialize_native env
materialize env copy = copy_out env

-- `lent` is released by `releaseSlot`; `owned` only frees its array.
pub data View : Type 0 where
  lent : ℕ → ℕ → View
  owned : View

unfoldable pub deliver : Stage → Run → Output → Stage × Option View
unfolding unlock_slot give_back
deliver s r lend = (with_pool s (unlock_slot s.pool r.slot), some (lent r.slot r.seq))
deliver s r zero_copy = (
  record s { pool = unlock_slot s.pool r.slot; zero_copies = s.zero_copies + 1 },
  some (lent r.slot r.seq),
)
deliver s r own = (
  record s { pool = give_back s.pool r.slot r.seq; copy_fallbacks = s.copy_fallbacks + 1 },
  some owned,
)
deliver s r lost = (with_pool s (give_back s.pool r.slot r.seq), none)
deliver s r own_lost =
    (record s { pool = give_back s.pool r.slot r.seq; copy_fallbacks = s.copy_fallbacks + 1 }, none)

unfoldable pub output_hidden_view : ViewEnv → Stage → Run → Stage × Option View
unfolding materialize deliver
output_hidden_view env s r =
    if env.aliases then deliver s r (materialize env env.mode) else deliver s r lost

unfoldable pub release_view : Stage → View → Stage
unfolding release_slot
release_view s (lent i seq) = with_pool s (release_slot s.pool i seq)
release_view s owned = s
