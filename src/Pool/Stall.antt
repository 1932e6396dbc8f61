-- ===== src/Pool/Stall.antt =====
-- A full pool: the caller waits for the device and then takes a slot from another holder.
use autoresearch_mlx_go_ane.Prelude.{
  ℕ, suc, ◌+◌, ◌≤◌, ◌<◌, ◌≡◌, inl, inr, refl, ap, ◌∙◌, true, false, List, [], ◌∷◌, none, some,
  arith, length, get_elem?, le→ltb, Bool-cases,
}
use autoresearch_mlx_go_ane.Prelude.Modify.{All, All-get, All-modify}
use autoresearch_mlx_go_ane.Pool.{
  Slot, Pool, PoolEnv, Lease, Acquired, leased, find_free, scan, Found, free, oldest, nothing,
  take_slot, settle, stall, try_slot, acquire_slot, next_seq, claim,
}
use autoresearch_mlx_go_ane.Pool.Grants.{Picks, scan-Picks}

abbrev pub AllUsed : Pool → Type 0
AllUsed p = All (λ (x : Slot). x.in_use ≡ true) p.slots

find_free_used :
    (k : ℕ) (xs : List Slot) → All (λ (x : Slot). x.in_use ≡ true) xs → find_free k xs ≡ none
unfolding find_free
find_free_used k [] h = refl
find_free_used k (x ∷ xs) h = rw (h.0) (find_free_used (suc k) xs h.1)

-- The lease on the slot of `p` whose lease is the oldest.
pub record Steals (p : Pool) (r : Acquired) : Type 0 where
  pub lease : Lease
  pub got : r ≡ leased lease
  pub waited : lease.stalled ≡ true
  pub victim : Slot
  pub found : get_elem? p.slots lease.slot ≡ some victim
  pub least : All (λ (x : Slot). victim.lease_seq ≤ x.lease_seq) p.slots

settle-Steals :
    (p : Pool) (f : Found) (n : ℕ)
    → 0 < length p.slots
    → AllUsed p
    → Picks 0 none p.slots f
    → Steals p (settle (record p { stalls = n }) f).1
unfolding settle take_slot
settle-Steals p (free i) m h used (x, (n, e, g), u) =
    let busy : x.in_use ≡ true = All-get _ p.slots n used g in cc
settle-Steals p (oldest i) m h used (seq, (a, least, c, inl e)) = cc
settle-Steals p (oldest i) m h used (seq, (a, least, c, inr (x, (n, e, g), u))) = record {
  lease = record { slot = i; seq = next_seq p; stalled = true };
  got = refl;
  waited = refl;
  victim = x;
  found = let same : i ≡ n = omega arith in rw same g;
  least = rw u least;
}
settle-Steals p nothing m h used (a, e) = absurd (omega (arith, ap length e))

stall-Steals :
    (env : PoolEnv) (p : Pool)
    → env.synchronizes ≡ true
    → 0 < length p.slots
    → AllUsed p
    → Steals p (stall env p).1
unfolding stall
stall-Steals env p sync h used =
    rw (sync, stall)
      (settle-Steals p (scan 0 none p.slots) (p.stalls + 1) h used (scan-Picks 0 none p.slots))

-- A full pool goes through the stall.
pub acquire_slot_full :
    (env : PoolEnv) (others : Pool → Pool) (p : Pool)
    → p.pool_depth ≤ length p.slots
    → AllUsed p
    → acquire_slot env others p ≡ stall env (others p)
unfolding acquire_slot try_slot
acquire_slot_full env others p full used =
    rw (find_free_used 0 p.slots used, try_slot, le→ltb _ _ full)

abbrev pub AllLocked : Pool → Type 0
AllLocked p = All (λ (x : Slot). x.locked ≡ true) p.slots

settle-AllLocked : (p : Pool) (f : Found) → AllLocked p → AllLocked (settle p f).0
unfolding settle take_slot
settle-AllLocked p (free i) a = All-modify _ (claim (next_seq p)) p.slots i (λ x h. h) a
settle-AllLocked p (oldest i) a = All-modify _ (claim (next_seq p)) p.slots i (λ x h. h) a
settle-AllLocked p nothing a = a

-- The stall takes no mutex and frees none.
pub stall-AllLocked : (env : PoolEnv) (p : Pool) → AllLocked p → AllLocked (stall env p).0
unfolding stall
stall-AllLocked env p a = elim (Bool-cases env.synchronizes) [
  | inl t ↦
      rw (t, stall) (settle-AllLocked (record p { stalls = p.stalls + 1 }) (scan 0 none p.slots) a)
  | inr f ↦ rw (f, stall) a
]

-- When every slot of a pool at its depth is in use, waiting for the device succeeds, and meanwhile
-- the other goroutines leave at least one slot and none free, `acquireSlot` does not fail: it takes
-- over a slot whose lease is the oldest.
pub acquire_slot-Steals :
    (env : PoolEnv) (others : Pool → Pool) (p : Pool)
    → env.synchronizes ≡ true
    → p.pool_depth ≤ length p.slots
    → AllUsed p
    → 0 < length (others p).slots
    → AllUsed (others p)
    → Steals (others p) (acquire_slot env others p).1
unfolding acquire_slot try_slot
acquire_slot-Steals env others p sync full used h used' =
    rw (find_free_used 0 p.slots used, try_slot, le→ltb _ _ full)
      (stall-Steals env (others p) sync h used')

find_free_head : (x : Slot) (xs : List Slot) → x.in_use ≡ false → find_free 0 (x ∷ xs) ≡ some 0
unfolding find_free
find_free_head x xs u = ground arith

-- A pool whose first slot is free hands that slot out.
pub acquire_slot_head :
    (env : PoolEnv) (others : Pool → Pool) (p : Pool) (x : Slot) (xs : List Slot)
    → p.slots ≡ x ∷ xs
    → x.in_use ≡ false
    → acquire_slot env others p ≡ take_slot p 0 false
unfolding acquire_slot try_slot
acquire_slot_head env others p x xs e u =
    ap (try_slot env others p) (ap (find_free 0) e ∙ find_free_head x xs u)
