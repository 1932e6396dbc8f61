-- ===== src/Run.antt =====
-- decode/pool.go: the life of a prepared run, from the leased slot to the output view.
-- Timings are left out. The platform's answers (type assertions on the bridge and on the stage,
-- calls of MLX, Metal and the surfaces) are the fields of `InputEnv`, `NormEnv` and `ViewEnv`.
-- `inputCleanup` is nil in every run that the package builds, so `finishInput` does nothing.
pub mod Idle
pub mod Output
pub mod Begin
pub mod Finish
pub mod Tests
use autoresearch_mlx_go_ane.Prelude.{
  ℕ, suc, ◌+◌, Bool, true, false, not, ◌&&◌, ◌||◌, List, [], ◌∷◌, ◌++◌, Option, none, some,
  if◌then◌else◌, get_elem?,
}
use autoresearch_mlx_go_ane.Prelude.Modify.{modify}
use autoresearch_mlx_go_ane.Pool.{
  Slot, Pool, PoolEnv, Lease, Acquired, leased, refused, acquire_slot, release_slot,
}

-- The reason strings of a fallback to host input.
pub data Reason : Type 0 where
  by_alias by_eval by_copy by_other : Reason

-- `fell_back` is `hostFallbackOnce`; the lists and counters are the calls of the callbacks
-- `onHostFallback`, `onOutputZeroCopy` and `onOutputCopy`.
pub record Stage : Type 0 where
  pub pool : Pool
  pub fell_back : Bool
  pub reasons : List Reason
  pub zero_copies : ℕ
  pub copy_fallbacks : ℕ

pub record Run : Type 0 where
  pub slot : ℕ
  pub seq : ℕ
  pub synchronized : Bool
  pub stream_committed : Bool

-- `blocked` is a goroutine that waits for the mutex of a slot.
pub data Outcome {ℓ} (A : Type ℓ) : Type ℓ where
  ok : A → Outcome A
  failed : Outcome A
  blocked : Outcome A

pub record InputEnv : Type 0 where
  pub pool_env : PoolEnv
  pub others : Pool → Pool
  pub evaluator : Bool  -- slot.stage is a stageEvaluator
  pub synchronizer : Bool  -- slot.stage is a synchronizer
  pub transfer : Bool  -- slot.bridge is a bridgeTransfer
  pub has_events : Bool  -- WaitEvent() != nil
  pub resets : Bool  -- SetSignaledValue(0) succeeds
  pub aliases : Bool  -- inputAlias succeeds
  pub split_copy : Bool  -- slot.bridge is a splitCopyBridge
  pub copies : Bool  -- CopyInto succeeds
  pub signals : Bool  -- SignalMLXReady succeeds
  pub copies_signal : Bool  -- CopyIntoSignalReady succeeds
  pub reads : Bool  -- arrayToFloat32Slice succeeds
  pub writes : Bool  -- InputSurface().Write succeeds
  pub signals_cpu : Bool  -- SetSignaledValue(WaitValue()) succeeds

pub data Prepared : Type 0 where
  on_stream : Bool → Prepared
  on_host : Reason → Prepared
  broken : Prepared

-- The input path of `beginPreparedInputTimed` on the locked slot, up to the host fallback.
-- `reason` is the local variable of that name: it starts as "other".
pub copy_input : InputEnv → Bool → Reason → Prepared
copy_input env single reason =
    if single && env.split_copy
    then (if env.copies && env.signals
        then on_stream true
        else (if env.copies_signal then on_stream false else on_host by_copy))
    else (if env.copies_signal then on_stream false else on_host by_copy)

pub prepare : InputEnv → Bool → Bool → Prepared
unfolding copy_input
prepare env materialized single =
    if not env.evaluator || not env.synchronizer
    then broken
    else if not env.transfer
    then broken
    else if env.has_events && not env.resets
    then broken
    else if env.aliases && env.has_events
    then copy_input env single (if materialized then by_other else by_eval)
    else if not env.aliases
    then on_host by_alias
    else on_host by_other

abbrev pub latch : Slot → Slot
latch x = record x { locked = true }

abbrev pub unlatch : Slot → Slot
unlatch x = record x { locked = false }

pub lock_slot : Pool → ℕ → Pool
lock_slot p i = record p { slots = modify p.slots i latch }

pub unlock_slot : Pool → ℕ → Pool
unlock_slot p i = record p { slots = modify p.slots i unlatch }

abbrev pub locked_of : Option Slot → Bool
locked_of none = false
locked_of (some x) = x.locked

-- slot.mu.Unlock(); s.releaseSlot(slot, lease)
pub give_back : Pool → ℕ → ℕ → Pool
unfolding unlock_slot release_slot
give_back p i seq = release_slot (unlock_slot p i) i seq

pub run_of : Lease → Bool → Bool → Run
run_of l sync committed = record {
  slot = l.slot;
  seq = l.seq;
  synchronized = sync;
  stream_committed = committed;
}

-- s.hostFallbackOnce.Do(...)
pub note_fallback : Stage → Reason → Stage
note_fallback s reason =
    if s.fell_back then s else record s { fell_back = true; reasons = s.reasons ++ reason ∷ [] }

abbrev pub with_pool : Stage → Pool → Stage
with_pool s p = record s { pool = p }

-- The rest of `beginPreparedInputTimed`: host input where the stream could not take it.
pub finish_begin : InputEnv → Stage → Pool → Lease → Prepared → Stage × Outcome Run
unfolding give_back run_of note_fallback
finish_begin env s p l (on_stream committed) = (with_pool s p, ok (run_of l true committed))
finish_begin env s p l broken = (with_pool s (give_back p l.slot l.seq), failed)
finish_begin env s p l (on_host reason) =
    let s' = note_fallback s reason in
    if env.reads && env.writes && (not env.has_events || env.signals_cpu)
    then (with_pool s' p, ok (run_of l false false))
    else (with_pool s' (give_back p l.slot l.seq), failed)

unfoldable pub begin_leased : InputEnv → Bool → Bool → Stage → Pool × Acquired → Stage × Outcome Run
unfolding lock_slot prepare finish_begin
begin_leased env materialized single s (p, refused e) = (with_pool s p, failed)
begin_leased env materialized single s (p, leased l) =
    if locked_of (get_elem? p.slots l.slot)
    then (with_pool s p, blocked)
    else finish_begin env s (lock_slot p l.slot) l (prepare env materialized single)

unfoldable pub begin_prepared_input : InputEnv → Bool → Bool → Stage → Stage × Outcome Run
unfolding begin_leased acquire_slot
begin_prepared_input env materialized single s =
    begin_leased env materialized single s (acquire_slot env.pool_env env.others s.pool)

-- The two fused starts: the norm kernels write the input surface and signal it.
pub record NormEnv : Type 0 where
  pub pool_env : PoolEnv
  pub others : Pool → Pool
  pub norm_bridge : Bool  -- the primary slot's bridge has the fused kernel
  pub synchronizer : Bool
  pub has_events : Bool
  pub resets : Bool
  pub aliases : Bool
  pub norms : Bool  -- the fused kernel succeeds

pub norm_ready : NormEnv → Bool
norm_ready env = env.synchronizer && env.has_events && env.resets && env.aliases && env.norms

pub norm_leased : NormEnv → Stage → Pool × Acquired → Stage × Outcome Run
unfolding lock_slot give_back run_of norm_ready
norm_leased env s (p, refused e) = (with_pool s p, failed)
norm_leased env s (p, leased l) =
    if locked_of (get_elem? p.slots l.slot)
    then (with_pool s p, blocked)
    else if norm_ready env
    then (with_pool s (lock_slot p l.slot), ok (run_of l true true))
    else (with_pool s (give_back (lock_slot p l.slot) l.slot l.seq), failed)

unfoldable pub begin_prepared_residual_norm : NormEnv → Stage → Stage × Outcome Run
unfolding norm_leased acquire_slot
begin_prepared_residual_norm env s =
    if env.norm_bridge
    then norm_leased env s (acquire_slot env.pool_env env.others s.pool)
    else (s, failed)

-- The same steps, with the kernel that adds the two residuals first.
unfoldable pub begin_prepared_residual_add_norm : NormEnv → Stage → Stage × Outcome Run
unfolding norm_leased acquire_slot
begin_prepared_residual_add_norm env s =
    if env.norm_bridge
    then norm_leased env s (acquire_slot env.pool_env env.others s.pool)
    else (s, failed)

unfoldable pub abort : Stage → Run → Stage
unfolding give_back
abort s r = with_pool s (give_back s.pool r.slot r.seq)
