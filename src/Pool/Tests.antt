-- ===== src/Pool/Tests.antt =====
-- A pool of one slot on concrete calls.
use autoresearch_mlx_go_ane.Prelude.{
  ◌≡◌, refl, List, some, get_elem?, ◌+◌, true, false, [], ◌∷◌, arith, ◌<◌,
}
use autoresearch_mlx_go_ane.Pool.{
  Slot, Pool, PoolEnv, Lease, leased, acquire_slot, release_slot, new_pool, u64_mod,
}
use autoresearch_mlx_go_ane.Pool.Leases.{IsValid}
use autoresearch_mlx_go_ane.Pool.Fresh.{IsFresh, acquire_slot-IsFresh}
use autoresearch_mlx_go_ane.Pool.Held.{Held}
use autoresearch_mlx_go_ane.Pool.Calls.{
  Shared, Call, takes, gives, calls, AllSpare, release_slot_stale,
}

abbrev pub parked : Slot
parked = record { in_use = false; lease_seq = 0; locked = false }

abbrev pub leased_slot : Slot
leased_slot = record { in_use = true; lease_seq = 1; locked = false }

abbrev pub idle_pool : Pool
idle_pool = record { pool_depth = 1; slots = parked ∷ []; lease_seq = 0; stalls = 0 }

abbrev pub busy_pool : Pool
busy_pool = record { pool_depth = 1; slots = leased_slot ∷ []; lease_seq = 1; stalls = 0 }

abbrev pub platform : PoolEnv
platform = record { builds = true; synchronizes = true }

abbrev alone : Pool → Pool
alone p = p

abbrev first_lease : Lease
first_lease = record { slot = 0; seq = 1; stalled = false }

acquire_idle : acquire_slot platform alone idle_pool ≡ (busy_pool, leased first_lease)
unfolding acquire_slot
acquire_idle = refl

fresh_room : (new_pool 1).lease_seq + 1 < u64_mod
unfolding new_pool
fresh_room = omega arith

idle_pool-IsValid : IsValid idle_pool
idle_pool-IsValid = record { issued = omega arith; within = omega arith; nonempty = omega arith }

acquire_slot-IsFresh_example : IsFresh idle_pool idle_pool busy_pool first_lease
acquire_slot-IsFresh_example =
    acquire_slot-IsFresh platform alone idle_pool (omega arith) (omega arith) idle_pool-IsValid
      idle_pool-IsValid acquire_idle

-- A pool with room for a second slot, whose first one was leased before under number 1.
abbrev wide_pool : Pool
wide_pool = record {
  pool_depth = 2;
  slots = record { in_use = false; lease_seq = 1; locked = false } ∷ [];
  lease_seq = 1;
  stalls = 0;
}

abbrev wide_pool' : Pool
wide_pool' = record {
  pool_depth = 2;
  slots = record { in_use = true; lease_seq = 2; locked = false } ∷ [];
  lease_seq = 2;
  stalls = 0;
}

abbrev second_lease : Lease
second_lease = record { slot = 0; seq = 2; stalled = false }

wide_pool-IsValid : IsValid wide_pool
wide_pool-IsValid = record { issued = omega arith; within = omega arith; nonempty = omega arith }

acquire_wide : acquire_slot platform alone wide_pool ≡ (wide_pool', leased second_lease)
unfolding acquire_slot
acquire_wide = refl

-- The first holder releases again, and another goroutine takes the new slot and gives it back.
abbrev some_calls : List Call
some_calls = gives 0 ∷ takes platform ∷ gives 0 ∷ gives 1 ∷ []

abbrev users : Shared
users = record { pool = wide_pool'; issued = first_lease ∷ [] }

some_calls-AllSpare : AllSpare second_lease users some_calls
unfolding acquire_slot release_slot
some_calls-AllSpare = (tt, ((omega arith, λ e. cc), (tt, (tt, tt))))

release_slot_stale_example :
    Held (calls users some_calls).pool second_lease
    × ((x : Slot) × (get_elem? (release_slot (calls users some_calls).pool 0 2).slots 0 ≡ some x)
        × (x.in_use ≡ false))
release_slot_stale_example =
    release_slot_stale platform alone wide_pool (first_lease ∷ []) some_calls (omega arith)
      (omega arith) wide_pool-IsValid wide_pool-IsValid acquire_wide (omega arith, tt)
      some_calls-AllSpare
