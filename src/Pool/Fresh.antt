-- ===== src/Pool/Fresh.antt =====
-- decode/pool.go, acquireSlot: which slot a caller gets, and under which number.
use autoresearch_mlx_go_ane.Prelude.{
  ℕ, ◌+◌, ◌≤◌, ◌<◌, ◌≡◌, ◌⊎◌, inl, inr, refl, sym, ◌∙◌, subst, Bool, true, false, Option, none,
  some, arith, length, get_elem?, lt_or_le, lt→ltb, le→ltb, Bool-cases,
}
use autoresearch_mlx_go_ane.Prelude.Modify.{All, All-map}
use autoresearch_mlx_go_ane.Pool.{
  Slot, Pool, PoolEnv, Lease, Acquired, leased, refused, find_free, scan, Found, free, oldest,
  nothing, next_seq, take_slot, add_slot, settle, stall, try_slot, acquire_slot,
}
use autoresearch_mlx_go_ane.Pool.Grants.{
  Grants, acquire_slot-Grants, find_free-some, find_free-none, Picks, scan-Picks,
}
use autoresearch_mlx_go_ane.Pool.Leases.{IsValid, HasRoom}
use autoresearch_mlx_go_ane.Pool.Stall.{AllUsed}

abbrev pub IsFreeIn : Pool → ℕ → Type 0
IsFreeIn p i = (x : Slot) × (get_elem? p.slots i ≡ some x) × (x.in_use ≡ false)

-- No slot has a smaller number.
abbrev pub IsOldestIn : Pool → ℕ → Type 0
IsOldestIn p i =
    (x : Slot) × (get_elem? p.slots i ≡ some x)
    × All (λ (y : Slot). x.lease_seq ≤ y.lease_seq) p.slots

-- How the slot was found. Without a stall: a free slot of the pool, or else a new one, if there is
-- room for one. After a stall, of a full pool: a free slot of the pool as the others left it, or
-- else the oldest.
abbrev pub Chosen : Pool → Pool → ℕ → Bool → Type 0
Chosen p p' i false = IsFreeIn p i ⊎ (AllUsed p × (i ≡ length p.slots) × (i < p.pool_depth))
Chosen p p' i true =
    AllUsed p × (p.pool_depth ≤ length p.slots) × (IsFreeIn p' i ⊎ (AllUsed p' × IsOldestIn p' i))

-- The pool that the lease was taken from.
abbrev pub source : Pool → Pool → Bool → Pool
source p p' false = p
source p p' true = p'

pub record IsFresh (p p' q : Pool) (l : Lease) : Type 0 where
  pub grants : Grants q l
  pub counted : l.seq ≡ (source p p' l.stalled).lease_seq + 1
  pub unissued : All (λ (x : Slot). x.lease_seq < l.seq) (source p p' l.stalled).slots
  pub chosen : Chosen p p' l.slot l.stalled

abbrev IsPicked : Pool → Pool → Pool × Acquired → Type 0
IsPicked p p' (q, leased l) =
    (l.seq ≡ next_seq (source p p' l.stalled)) × Chosen p p' l.slot l.stalled
IsPicked p p' (q, refused e) = Unit

settle-IsPicked :
    (p p' : Pool) (n : ℕ) (f : Found)
    → AllUsed p
    → p.pool_depth ≤ length p.slots
    → Picks 0 none p'.slots f
    → IsPicked p p' (settle (record p' { stalls = n }) f)
unfolding settle take_slot
settle-IsPicked p p' m (free i) used full (x, (n, e, g), u) =
    let same : i ≡ n = omega arith in (refl, (used, full, inl (x, rw same g, u)))
settle-IsPicked p p' m (oldest i) used full (seq, (all, least, c, inl e)) = cc
settle-IsPicked p p' m (oldest i) used full (seq, (all, least, c, inr (x, (n, e, g), u))) =
    let same : i ≡ n = omega arith in
    (refl, (used, full, inr (all, (x, rw same g, All-map _ _ p'.slots (λ y h. omega arith) least))))
settle-IsPicked p p' m nothing used full h = tt

try_slot-IsPicked :
    (env : PoolEnv) (others : Pool → Pool) (p : Pool) (o : Option ℕ)
    → find_free 0 p.slots ≡ o
    → IsPicked p (others p) (try_slot env others p o)
unfolding try_slot stall take_slot add_slot
try_slot-IsPicked env others p (some i) e =
    let (x, (n, s, g), u) = find_free-some 0 p.slots i e in
    let same : i ≡ n = omega arith in (refl, inl (x, rw same g, u))
try_slot-IsPicked env others p none e =
    let used = find_free-none 0 p.slots e in
    elim (lt_or_le (length p.slots) p.pool_depth) [
      | inl space ↦ rw (lt→ltb _ _ space) (elim (Bool-cases env.builds) [
        | inl b ↦ rw b (refl, inr (used, refl, space))
        | inr b ↦ rw b tt
      ])
      | inr full ↦ rw (le→ltb _ _ full) (elim (Bool-cases env.synchronizes) [
        | inl b ↦ rw b (
            settle-IsPicked p (others p) ((others p).stalls + 1) (scan 0 none (others p).slots) used
              full (scan-Picks 0 none (others p).slots))
        | inr b ↦ rw b tt
      ])
    ]

acquire_slot-IsPicked :
    (env : PoolEnv) (others : Pool → Pool) (p : Pool)
    → IsPicked p (others p) (acquire_slot env others p)
unfolding acquire_slot
acquire_slot-IsPicked env others p = try_slot-IsPicked env others p (find_free 0 p.slots) refl

-- The next number of a valid pool with room is above every number in it.
next_seq-unissued :
    (p : Pool)
    → HasRoom p
    → IsValid p
    → (next_seq p ≡ p.lease_seq + 1) × All (λ (x : Slot). x.lease_seq < next_seq p) p.slots
next_seq-unissued p room v = (omega arith, All-map _ _ p.slots (λ x h. omega arith) v.issued)

-- While lease numbers stay below 2^64, and when the pool and what the other goroutines leave of it
-- during a stall are valid, with one to `poolDepth` slots whose numbers the pool gave out: whenever
-- `acquireSlot` returns a lease, its slot is in the pool, is in use and carries the lease's number;
-- this number is one more than the pool's last and above that of every slot. Without a stall the
-- slot was free, or it is new, when none was free and the depth allowed one more; after a stall, of
-- a pool with no free slot at its depth, it was free by then, or none was and it is one with the
-- least number.
pub acquire_slot-IsFresh :
    (env : PoolEnv) (others : Pool → Pool) (p : Pool) {q : Pool} {l : Lease}
    → HasRoom p
    → HasRoom (others p)
    → IsValid p
    → IsValid (others p)
    → acquire_slot env others p ≡ (q, leased l)
    → IsFresh p (others p) q l
acquire_slot-IsFresh env others p {q} {l} room room' v v' e = record {
  grants = acquire_slot-Grants env others p e;
  counted = picked.0 ∙ (next l.stalled).0;
  unissued =
      subst (λ n. All (λ (x : Slot). x.lease_seq < n) (source p (others p) l.stalled).slots)
        (sym picked.0) (next l.stalled).1;
  chosen = picked.1;
}
  where
    picked :
        (l.seq ≡ next_seq (source p (others p) l.stalled)) × Chosen p (others p) l.slot l.stalled
    picked = subst (IsPicked p (others p)) e (acquire_slot-IsPicked env others p)

    next :
        (b : Bool)
        → (next_seq (source p (others p) b) ≡ (source p (others p) b).lease_seq + 1)
          × All
              (λ (x : Slot). x.lease_seq < next_seq (source p (others p) b))
              (source p (others p) b).slots
    next false = next_seq-unissued p room v
    next true = next_seq-unissued (others p) room' v'
