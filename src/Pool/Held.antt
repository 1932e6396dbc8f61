-- ===== src/Pool/Held.antt =====
-- decode/pool.go: a held slot while other goroutines take and release slots of the same pool.
use autoresearch_mlx_go_ane.Prelude.{
  ℕ, ◌+◌, ◌≡◌, ◌≢◌, refl, sym, subst, Bool, true, false, Option, none, some, arith, length,
  get_elem?, ltb, if◌then◌else◌,
}
use autoresearch_mlx_go_ane.Prelude.Modify.{
  get_elem?-modify, get_elem?-modify_other, get_elem?-append_left,
}
use autoresearch_mlx_go_ane.Pool.{
  Slot, Pool, PoolEnv, Lease, Acquired, leased, refused, find_free, scan, Found, free, oldest,
  nothing, next_seq, claim, take_slot, add_slot, settle, stall, try_slot, acquire_slot, free_if,
  build_failed, synchronize_failed, release_slot,
}
use autoresearch_mlx_go_ane.Pool.Grants.{find_free-some, Picks, scan-Picks}

-- The slot of the lease is there, in use, and carries the lease's number.
pub record Held (p : Pool) (l : Lease) : Type 0 where
  pub slot : Slot
  pub found : get_elem? p.slots l.slot ≡ some slot
  pub busy : slot.in_use ≡ true
  pub numbered : slot.lease_seq ≡ l.seq

abbrev pub alone : Pool → Pool
alone p = p

-- A lease that was given out without a stall, or is on another slot.
abbrev pub IsElsewhere : Lease → Acquired → Type 0
IsElsewhere l (leased m) = m.stalled ≡ true → m.slot ≢ l.slot
IsElsewhere l (refused e) = Unit

module _ (l : Lease) where
  take_slot-Held :
      (p : Pool) (i : ℕ) (b : Bool) → i ≢ l.slot → Held p l → Held (take_slot p i b).0 l
  unfolding take_slot
  take_slot-Held p i b other h = record {
    slot = h.slot;
    found =
        get_elem?-modify_other p.slots i l.slot (claim (next_seq p)) (λ e. absurd (other e))
          h.found;
    busy = h.busy;
    numbered = h.numbered;
  }

  -- A free slot is not the one that is held.
  free_other :
      (p : Pool) (i : ℕ) (x : Slot)
      → get_elem? p.slots i ≡ some x
      → x.in_use ≡ false
      → Held p l
      → i ≢ l.slot
  free_other p i x g u h same =
      let e : get_elem? p.slots i ≡ some h.slot =
        subst (λ j. get_elem? p.slots j ≡ some h.slot) (sym same) h.found in
      let eq : x ≡ h.slot = cc in let b : x.in_use ≡ true = rw eq h.busy in cc

  settle-Held :
      (p : Pool) (f : Found)
      → Picks 0 none p.slots f
      → IsElsewhere l (settle p f).1
      → Held p l
      → Held (settle p f).0 l
  unfolding settle take_slot
  settle-Held p (free i) (x, (n, e, g), u) s h = take_slot-Held p i true (s refl) h
  settle-Held p (oldest i) k s h = take_slot-Held p i true (s refl) h
  settle-Held p nothing k s h = h

  try_slot-Held :
      (env : PoolEnv) (p : Pool) (o : Option ℕ)
      → find_free 0 p.slots ≡ o
      → IsElsewhere l (try_slot env alone p o).1
      → Held p l
      → Held (try_slot env alone p o).0 l
  unfolding try_slot stall add_slot
  try_slot-Held env p (some i) e s h =
      let (x, (n, k, g), u) = find_free-some 0 p.slots i e in
      let same : i ≡ n = omega arith in
      take_slot-Held p i false (free_other p i x (rw same g) u h) h
  try_slot-Held env p none e s h =
      tested (ltb (length p.slots) p.pool_depth) env.builds env.synchronizes s
    where
      waiting : Pool
      waiting = record p { stalls = p.stalls + 1 }

      tested :
          (space builds done : Bool)
          → IsElsewhere l
              (if space
                then (if builds then add_slot p else (p, refused build_failed))
                else if done
                then settle waiting (scan 0 none p.slots)
                else (p, refused synchronize_failed)).1
          → Held
              (if space
                then (if builds then add_slot p else (p, refused build_failed))
                else if done
                then settle waiting (scan 0 none p.slots)
                else (p, refused synchronize_failed)).0
              l
      tested true true d t = record {
        slot = h.slot;
        found = get_elem?-append_left p.slots _ l.slot h.found;
        busy = h.busy;
        numbered = h.numbered;
      }
      tested true false d t = h
      tested false b true t =
          settle-Held waiting (scan 0 none p.slots) (scan-Picks 0 none p.slots) t
            (record { slot = h.slot; found = h.found; busy = h.busy; numbered = h.numbered })
      tested false b false t = h

  pub acquire_slot-Held :
      (env : PoolEnv) (p : Pool)
      → IsElsewhere l (acquire_slot env alone p).1
      → Held p l
      → Held (acquire_slot env alone p).0 l
  unfolding acquire_slot
  acquire_slot-Held env p = try_slot-Held env p (find_free 0 p.slots) refl

  pub release_slot-Held :
      (p : Pool) (i number : ℕ) → number ≢ l.seq → Held p l → Held (release_slot p i number) l
  unfolding release_slot
  release_slot-Held p i number other h = record {
    slot = h.slot;
    found =
        get_elem?-modify_other p.slots i l.slot (free_if number)
          (λ e. let n = h.numbered in ground arith) h.found;
    busy = h.busy;
    numbered = h.numbered;
  }

-- Releasing a held slot under its own number frees it.
pub release_slot-Held_own :
    (p : Pool) (l : Lease)
    → Held p l
    → (x : Slot) × (get_elem? (release_slot p l.slot l.seq).slots l.slot ≡ some x)
      × (x.in_use ≡ false)
unfolding release_slot
release_slot-Held_own p l h =
    let n = h.numbered in
    (free_if l.seq h.slot, get_elem?-modify p.slots l.slot (free_if l.seq) h.found, ground arith)
