-- ===== src/Pool/Leases.antt =====
-- Leases: what `acquireSlot` and `releaseSlot` keep of a pool.
use autoresearch_mlx_go_ane.Prelude.{
  ℕ, ◌+◌, ◌≤◌, ◌<◌, inl, inr, Bool, true, false, Option, none, some, arith, length, length-append,
  lt_or_le, lt→ltb, le→ltb, Bool-cases,
}
use autoresearch_mlx_go_ane.Prelude.Modify.{All, All-modify, All-append, All-map, length-modify}
use autoresearch_mlx_go_ane.Pool.{
  Slot, Pool, PoolEnv, u64_mod, find_free, scan, Found, free, oldest, nothing, next_seq, claim,
  take_slot, add_slot, settle, stall, try_slot, acquire_slot, free_if, release_slot, new_pool,
}

-- Every lease number in the pool was given out by it, and there are as many slots as the depth
-- allows, and at least one.
pub record IsValid (p : Pool) : Type 0 where
  pub issued : All (λ (x : Slot). x.lease_seq ≤ p.lease_seq) p.slots
  pub within : length p.slots ≤ p.pool_depth
  pub nonempty : 0 < length p.slots

abbrev pub HasRoom : Pool → Type 0
HasRoom p = p.lease_seq + 1 < u64_mod

pub new_pool-IsValid : (depth : ℕ) → IsValid (new_pool depth)
unfolding new_pool
new_pool-IsValid depth = record {
  issued = omega arith;
  within = ground arith;
  nonempty = omega arith;
}

take_slot-IsValid :
    (p : Pool) (i : ℕ) (b : Bool) → HasRoom p → IsValid p → IsValid (take_slot p i b).0
unfolding take_slot
take_slot-IsValid p i b room v = record {
  issued =
      All-modify _ (claim (next_seq p)) p.slots i (λ x h. ground arith)
        (All-map _ _ p.slots (λ x h. omega arith) v.issued);
  within = rw (length-modify p.slots i (claim (next_seq p))) v.within;
  nonempty = rw (length-modify p.slots i (claim (next_seq p))) v.nonempty;
}

add_slot-IsValid :
    (p : Pool) → length p.slots < p.pool_depth → HasRoom p → IsValid p → IsValid (add_slot p).0
unfolding add_slot
add_slot-IsValid p h room v = record {
  issued = All-append _ p.slots _ (All-map _ _ p.slots (λ x h. omega arith) v.issued) (omega arith);
  within = rw (length-append p.slots) (omega arith);
  nonempty = rw (length-append p.slots) (omega arith);
}

settle-IsValid : (p : Pool) (f : Found) → HasRoom p → IsValid p → IsValid (settle p f).0
unfolding settle
settle-IsValid p (free i) room v = take_slot-IsValid p i true room v
settle-IsValid p (oldest i) room v = take_slot-IsValid p i true room v
settle-IsValid p nothing room v = v

stall-IsValid : (env : PoolEnv) (p : Pool) → HasRoom p → IsValid p → IsValid (stall env p).0
unfolding stall
stall-IsValid env p room v = elim (Bool-cases env.synchronizes) [
  | inl e ↦
      rw (e, stall)
        (settle-IsValid (record p { stalls = p.stalls + 1 }) (scan 0 none p.slots) room
          (record { issued = v.issued; within = v.within; nonempty = v.nonempty }))
  | inr e ↦ rw (e, stall) v
]

try_slot-IsValid :
    (env : PoolEnv) (others : Pool → Pool) (p : Pool) (o : Option ℕ)
    → HasRoom p
    → HasRoom (others p)
    → IsValid p
    → IsValid (others p)
    → IsValid (try_slot env others p o).0
unfolding try_slot
try_slot-IsValid env others p (some i) room room' v v' = take_slot-IsValid p i false room v
try_slot-IsValid env others p none room room' v v' =
    elim (lt_or_le p.pool_depth (length p.slots + 1)) [
      | inl full ↦
          rw (le→ltb (length p.slots) p.pool_depth (omega arith))
            (stall-IsValid env (others p) room' v')
      | inr space ↦
          rw (lt→ltb (length p.slots) p.pool_depth (omega arith)) (elim (Bool-cases env.builds) [
            | inl e ↦ rw e (add_slot-IsValid p (omega arith) room v)
            | inr e ↦ rw e v
          ])
    ]

-- While lease numbers stay below 2^64, taking a slot keeps a valid pool valid, whatever the
-- platform answers, if what the other goroutines leave during a stall is valid: every number was
-- given out by the pool, and there are one to `poolDepth` slots.
pub acquire_slot-IsValid :
    (env : PoolEnv) (others : Pool → Pool) (p : Pool)
    → HasRoom p
    → HasRoom (others p)
    → IsValid p
    → IsValid (others p)
    → IsValid (acquire_slot env others p).0
unfolding acquire_slot
acquire_slot-IsValid env others p = try_slot-IsValid env others p (find_free 0 p.slots)

-- Releasing any slot under any number keeps a valid pool valid.
pub release_slot-IsValid : (p : Pool) (i lease : ℕ) → IsValid p → IsValid (release_slot p i lease)
unfolding release_slot
release_slot-IsValid p i lease v = record {
  issued = All-modify _ (free_if lease) p.slots i (λ x h. ground arith) v.issued;
  within = rw (length-modify p.slots i (free_if lease)) v.within;
  nonempty = rw (length-modify p.slots i (free_if lease)) v.nonempty;
}
