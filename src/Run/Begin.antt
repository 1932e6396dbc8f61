-- ===== src/Run/Begin.antt =====
-- Starting a run on an idle stage: either the run holds one slot, or nothing is held.
use autoresearch_mlx_go_ane.Prelude.{
  ◌<◌, ◌≡◌, ◌≢◌, inl, inr, refl, sym, ap, subst, Bool, true, false, not, ◌&&◌, ◌||◌, List, [], ◌∷◌,
  some, arith, length, get_elem?, if◌then◌else◌, Bool-cases,
}
use autoresearch_mlx_go_ane.Prelude.Modify.{All, All-modify, modify-modify, get_elem?-modify}
use autoresearch_mlx_go_ane.Pool.{
  Slot, Pool, PoolEnv, Lease, Acquired, leased, refused, claim, next_seq, take_slot, acquire_slot,
}
use autoresearch_mlx_go_ane.Pool.Stall.{acquire_slot_head}
use autoresearch_mlx_go_ane.Run.{
  Stage, Run, Outcome, ok, failed, blocked, InputEnv, NormEnv, Prepared, on_stream, on_host, broken,
  by_eval, prepare, copy_input, lock_slot, run_of, locked_of, finish_begin, begin_leased,
  begin_prepared_input, norm_leased, begin_prepared_residual_norm, begin_prepared_residual_add_norm,
  norm_ready,
}
use autoresearch_mlx_go_ane.Run.Idle.{
  IsParked, AllParked, park, Holds, lock_slot-Holds, give_back-Holds,
}

abbrev IsReady : Pool × Acquired → Type 0
IsReady (q, leased l) = Holds q l.slot l.seq false
IsReady (q, refused e) = ⊥

take_slot-IsReady :
    (p : Pool) (x : Slot)
    → get_elem? p.slots 0 ≡ some x
    → x.locked ≡ false
    → AllParked p
    → IsReady (take_slot p 0 false)
unfolding take_slot
take_slot-IsReady p x e unlatched a = record {
  held = claim (next_seq p) x;
  found = get_elem?-modify p.slots 0 (claim (next_seq p)) e;
  busy = refl;
  latch_is = unlatched;
  numbered = refl;
  rest =
      rw (modify-modify p.slots 0 (claim (next_seq p)) park)
        (All-modify IsParked _ p.slots 0 (λ y h. (refl, refl)) a);
}

-- An idle pool always hands out a slot: it never stalls, and it never fails.
pub acquire_slot-IsReady :
    (env : PoolEnv) (others : Pool → Pool) (p : Pool)
    → 0 < length p.slots
    → AllParked p
    → IsReady (acquire_slot env others p)
acquire_slot-IsReady env others p h a = go p.slots refl
  where
    go : (xs : List Slot) → p.slots ≡ xs → IsReady (acquire_slot env others p)
    go [] e = absurd (omega (arith, ap length e))
    go (x ∷ xs) e =
        let parked : IsParked x = (subst (All IsParked) e a).0 in
        subst IsReady (sym (acquire_slot_head env others p x xs e parked.0))
          (take_slot-IsReady p x (ap (λ ys. get_elem? ys 0) e) parked.1 a)

-- Either the run holds its slot and the slot's mutex, or the stage is idle again. No start of an
-- idle stage waits for a mutex.
abbrev pub Starts : Stage × Outcome Run → Type 0
Starts (s, ok r) = Holds s.pool r.slot r.seq true
Starts (s, failed) = AllParked s.pool
Starts (s, blocked) = ⊥

finish_begin-Starts :
    (env : InputEnv) (s : Stage) (p : Pool) (l : Lease) (x : Prepared)
    → Holds p l.slot l.seq true
    → Starts (finish_begin env s p l x)
unfolding finish_begin run_of
finish_begin-Starts env s p l (on_stream c) h = h
finish_begin-Starts env s p l broken h = give_back-Holds p l.slot l.seq h
finish_begin-Starts env s p l (on_host reason) h =
    elim (Bool-cases (env.reads && env.writes && (not env.has_events || env.signals_cpu))) [
      | inl t ↦ rw (t, finish_begin) h
      | inr f ↦ rw (f, finish_begin) (give_back-Holds p l.slot l.seq h)
    ]

unlocked :
    (p : Pool) (l : Lease)
    → Holds p l.slot l.seq false
    → locked_of (get_elem? p.slots l.slot) ≡ false
unlocked p l h = rw h.found h.latch_is

begin_leased-Starts :
    (env : InputEnv) (m single : Bool) (s : Stage) (r : Pool × Acquired)
    → IsReady r
    → Starts (begin_leased env m single s r)
unfolding begin_leased
begin_leased-Starts env m single s (p, refused e) h = absurd h
begin_leased-Starts env m single s (p, leased l) h = rw (unlocked p l h) (
    finish_begin-Starts env s (lock_slot p l.slot) l (prepare env m single)
      (lock_slot-Holds p l.slot l.seq h))

-- `beginPreparedInputTimed` on an idle stage with at least one slot, whatever the platform answers:
-- it does not wait for a slot's mutex, a run holds exactly one slot with its mutex, and every error
-- path has given the slot back.
pub begin_prepared_input-Starts :
    (env : InputEnv) (materialized single : Bool) (s : Stage)
    → 0 < length s.pool.slots
    → AllParked s.pool
    → Starts (begin_prepared_input env materialized single s)
unfolding begin_prepared_input
begin_prepared_input-Starts env m single s h a =
    begin_leased-Starts env m single s (acquire_slot env.pool_env env.others s.pool)
      (acquire_slot-IsReady env.pool_env env.others s.pool h a)

norm_leased-Starts :
    (env : NormEnv) (s : Stage) (r : Pool × Acquired) → IsReady r → Starts (norm_leased env s r)
unfolding norm_leased run_of
norm_leased-Starts env s (p, refused e) h = absurd h
norm_leased-Starts env s (p, leased l) h =
    let latched = lock_slot-Holds p l.slot l.seq h in
    rw (unlocked p l h) (elim (Bool-cases (norm_ready env)) [
      | inl t ↦ rw t latched
      | inr f ↦ rw f (give_back-Holds (lock_slot p l.slot) l.slot l.seq latched)
    ])

-- The two fused starts on an idle stage with at least one slot, whatever the platform answers: they
-- do not wait for a slot's mutex, a run holds exactly one slot with its mutex, and every error path
-- has given the slot back.
pub begin_norm-Starts :
    (env : NormEnv) (s : Stage)
    → 0 < length s.pool.slots
    → AllParked s.pool
    → Starts (begin_prepared_residual_norm env s) × Starts (begin_prepared_residual_add_norm env s)
unfolding begin_prepared_residual_norm begin_prepared_residual_add_norm
begin_norm-Starts env s h a = (both, both)
  where
    both : Starts (
        if env.norm_bridge
        then norm_leased env s (acquire_slot env.pool_env env.others s.pool)
        else (s, failed))
    both = elim (Bool-cases env.norm_bridge) [
      | inl t ↦ rw t (
          norm_leased-Starts env s (acquire_slot env.pool_env env.others s.pool)
            (acquire_slot-IsReady env.pool_env env.others s.pool h a))
      | inr f ↦ rw f a
    ]

-- No input path that falls back to the host reports the reason "eval".
pub prepare-ne-by_eval :
    (env : InputEnv) (materialized single : Bool)
    → prepare env materialized single ≢ on_host by_eval
unfolding prepare copy_input
prepare-ne-by_eval env m single e = ground arith
