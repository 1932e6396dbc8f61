-- ===== src/Pool.antt =====
-- decode/pool.go: the pool of execution slots behind a stage, and behind a direct block.
-- A slot is named by its place in `slots`, which only grows. `locked` is the slot's own mutex.
-- The pool mutex makes each critical section one step; what other goroutines do while
-- `acquireSlot` has it released is the argument `others`.
pub mod Leases
pub mod Stall
pub mod Grants
pub mod Fresh
pub mod Held
pub mod Calls
pub mod Tests
use autoresearch_mlx_go_ane.Prelude.{
  ℕ, suc, ◌+◌, ◌%◌, Bool, true, false, not, ◌&&◌, ◌||◌, List, [], ◌∷◌, ◌++◌, Option, none, some,
  ltb, ◌==◌, if◌then◌else◌, length,
}
use autoresearch_mlx_go_ane.Prelude.Modify.{modify}

pub record Slot : Type 0 where
  pub in_use : Bool
  pub lease_seq : ℕ  -- uint64
  pub locked : Bool

-- The pool fields that `stage` and `directBlock` share. `stalls` counts `onOutputPoolStall`.
pub record Pool : Type 0 where
  pub pool_depth : ℕ
  pub slots : List Slot
  pub lease_seq : ℕ  -- uint64
  pub stalls : ℕ

-- What the platform answers: does `slotBuilder` build, does `mlxraw.Synchronize` succeed.
pub record PoolEnv : Type 0 where
  pub builds : Bool
  pub synchronizes : Bool

pub record Lease : Type 0 where
  pub slot : ℕ
  pub seq : ℕ
  pub stalled : Bool

pub data AcquireError : Type 0 where
  build_failed synchronize_failed pool_empty : AcquireError

pub data Acquired : Type 0 where
  leased : Lease → Acquired
  refused : AcquireError → Acquired

abbrev pub u64_mod : ℕ
u64_mod = 18446744073709551616

-- for _, slot := range s.slots { if !slot.inUse { ... } }, from place `i` on.
pub find_free : ℕ → List Slot → Option ℕ
find_free i [] = none
find_free i (x ∷ xs) = if x.in_use then find_free (suc i) xs else some i

-- The oldest slot so far: the first with the least `leaseSeq`.
abbrev pub older : Option (ℕ × ℕ) → ℕ → Slot → Option (ℕ × ℕ)
older none i x = some (i, x.lease_seq)
older (some (j, seq)) i x = if ltb x.lease_seq seq then some (i, x.lease_seq) else some (j, seq)

pub data Found : Type 0 where
  free : ℕ → Found
  oldest : ℕ → Found
  nothing : Found

abbrev pub ended : Option (ℕ × ℕ) → Found
ended none = nothing
ended (some (j, seq)) = oldest j

-- The loop after the stall: the first free slot, or else the oldest.
pub scan : ℕ → Option (ℕ × ℕ) → List Slot → Found
scan i best [] = ended best
scan i best (x ∷ xs) = if x.in_use then scan (suc i) (older best i x) xs else free i

-- s.leaseSeq++, on 64 bits
abbrev pub next_seq : Pool → ℕ
next_seq p = (p.lease_seq + 1) % u64_mod

-- slot.inUse = true; slot.leaseSeq = s.leaseSeq
abbrev pub claim : ℕ → Slot → Slot
claim seq x = record x { in_use = true; lease_seq = seq }

unfoldable pub take_slot : Pool → ℕ → Bool → Pool × Acquired
take_slot p i stalled = (
  record p { slots = modify p.slots i (claim (next_seq p)); lease_seq = next_seq p },
  leased (record { slot = i; seq = next_seq p; stalled = stalled }),
)

-- s.slots = append(s.slots, slot)
pub add_slot : Pool → Pool × Acquired
add_slot p = (
  record p {
    slots = p.slots ++ record { in_use = true; lease_seq = next_seq p; locked = false } ∷ [];
    lease_seq = next_seq p;
  },
  leased (record { slot = length p.slots; seq = next_seq p; stalled = false }),
)

pub settle : Pool → Found → Pool × Acquired
settle p (free i) = take_slot p i true
settle p (oldest i) = take_slot p i true
settle p nothing = (p, refused pool_empty)

-- The pool has no free slot and is at its depth: wait for the device, then look again.
pub stall : PoolEnv → Pool → Pool × Acquired
unfolding scan settle
stall env p =
    if env.synchronizes
    then settle (record p { stalls = p.stalls + 1 }) (scan 0 none p.slots)
    else (p, refused synchronize_failed)

pub try_slot : PoolEnv → (Pool → Pool) → Pool → Option ℕ → Pool × Acquired
try_slot env others p (some i) = take_slot p i false
try_slot env others p none =
    if ltb (length p.slots) p.pool_depth
    then (if env.builds then add_slot p else (p, refused build_failed))
    else stall env (others p)

unfoldable pub acquire_slot : PoolEnv → (Pool → Pool) → Pool → Pool × Acquired
unfolding find_free take_slot add_slot stall try_slot
acquire_slot env others p = try_slot env others p (find_free 0 p.slots)

-- A lease that is not the slot's own any more frees nothing.
abbrev pub free_if : ℕ → Slot → Slot
free_if lease x = if x.lease_seq == lease then record x { in_use = false } else x

unfoldable pub release_slot : Pool → ℕ → ℕ → Pool
release_slot p i lease = record p { slots = modify p.slots i (free_if lease) }

-- maxInt and the pool that newStage and buildDirectBlock set up, with its first slot.
pub max_int : ℕ → ℕ → ℕ
max_int a b = if ltb b a then a else b

unfoldable pub new_pool : ℕ → Pool
unfolding max_int
new_pool depth = record {
  pool_depth = max_int 1 depth;
  slots = record { in_use = false; lease_seq = 0; locked = false } ∷ [];
  lease_seq = 0;
  stalls = 0;
}
