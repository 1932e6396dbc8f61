-- ===== src/Run/Idle.antt =====
-- Idle pools, and pools in which one run holds a slot.
use autoresearch_mlx_go_ane.Prelude.{ℕ, ◌≡◌, refl, Bool, true, false, some, arith, get_elem?}
use autoresearch_mlx_go_ane.Prelude.Modify.{
  All, modify, modify-modify, modify_cong, get_elem?-modify,
}
use autoresearch_mlx_go_ane.Pool.{Slot, Pool, free_if, release_slot}
use autoresearch_mlx_go_ane.Run.{lock_slot, unlock_slot, give_back, latch, unlatch}

abbrev pub IsParked : Slot → Type 0
IsParked x = (x.in_use ≡ false) × (x.locked ≡ false)

abbrev pub AllParked : Pool → Type 0
AllParked p = All IsParked p.slots

abbrev pub park : Slot → Slot
park x = record x { in_use = false; locked = false }

-- The slot `i` is leased under `seq`, its mutex is taken or not, and every other slot is parked.
pub record Holds (p : Pool) (i seq : ℕ) (latched : Bool) : Type 0 where
  pub held : Slot
  pub found : get_elem? p.slots i ≡ some held
  pub busy : held.in_use ≡ true
  pub latch_is : held.locked ≡ latched
  pub numbered : held.lease_seq ≡ seq
  pub rest : All IsParked (modify p.slots i park)

-- Taking the slot's mutex.
pub lock_slot-Holds :
    (p : Pool) (i seq : ℕ) → Holds p i seq false → Holds (lock_slot p i) i seq true
unfolding lock_slot
lock_slot-Holds p i seq h = record {
  held = latch h.held;
  found = get_elem?-modify p.slots i latch h.found;
  busy = h.busy;
  latch_is = refl;
  numbered = h.numbered;
  rest = rw (modify-modify p.slots i latch park) h.rest;
}

pub unlock_slot-Holds :
    (p : Pool) (i seq : ℕ) → Holds p i seq true → Holds (unlock_slot p i) i seq false
unfolding unlock_slot
unlock_slot-Holds p i seq h = record {
  held = unlatch h.held;
  found = get_elem?-modify p.slots i unlatch h.found;
  busy = h.busy;
  latch_is = refl;
  numbered = h.numbered;
  rest = rw (modify-modify p.slots i unlatch park) h.rest;
}

pub release_slot-Holds :
    (p : Pool) (i seq : ℕ) → Holds p i seq false → AllParked (release_slot p i seq)
unfolding release_slot
release_slot-Holds p i seq h =
    rw (modify_cong p.slots i (free_if seq) park h.found (ground (arith, h.numbered, h.latch_is)))
      h.rest

pub give_back-Holds : (p : Pool) (i seq : ℕ) → Holds p i seq true → AllParked (give_back p i seq)
unfolding give_back
give_back-Holds p i seq h = release_slot-Holds (unlock_slot p i) i seq (unlock_slot-Holds p i seq h)
