-- ===== src/Pool/Grants.antt =====
-- What a caller gets from `acquireSlot`.
use autoresearch_mlx_go_ane.Prelude.{
  ℕ, suc, ◌+◌, ◌≤◌, ◌≡◌, ◌⊎◌, inl, inr, refl, subst, Bool, true, false, List, [], ◌∷◌, Option, none,
  some, arith, length, get_elem?, lt_or_le, lt→ltb, le→ltb, if◌then◌else◌, Bool-cases,
}
use autoresearch_mlx_go_ane.Prelude.Modify.{All, get_elem?-modify, get_elem?-append_end}
use autoresearch_mlx_go_ane.Pool.{
  Slot, Pool, PoolEnv, Lease, Acquired, leased, refused, find_free, scan, older, Found, free,
  oldest, nothing, next_seq, claim, take_slot, add_slot, settle, stall, try_slot, acquire_slot,
}

-- The slot of the lease is there, is in use, and carries the newest number of the pool.
pub record Grants (q : Pool) (l : Lease) : Type 0 where
  pub held : Slot
  pub found : get_elem? q.slots l.slot ≡ some held
  pub busy : held.in_use ≡ true
  pub numbered : held.lease_seq ≡ l.seq
  pub newest : q.lease_seq ≡ l.seq

abbrev pub IsSound : Pool × Acquired → Type 0
IsSound (q, leased l) = Grants q l
IsSound (q, refused e) = Unit

-- The entry at a place counted from `k`.
abbrev pub IsAt : ℕ → List Slot → ℕ → Slot → Type 0
IsAt k xs j x = (n : ℕ) × (j ≡ k + n) × (get_elem? xs n ≡ some x)

next : (k : ℕ) (xs : List Slot) (j : ℕ) (x y : Slot) → IsAt (suc k) xs j x → IsAt k (y ∷ xs) j x
next k xs j x y (n, e, g) = (suc n, omega arith, g)

pub find_free-some :
    (k : ℕ) (xs : List Slot) (j : ℕ)
    → find_free k xs ≡ some j
    → (x : Slot) × IsAt k xs j x × (x.in_use ≡ false)
unfolding find_free
find_free-some k [] j e = cc
find_free-some k (y ∷ xs) j e = elim (Bool-cases y.in_use) [
  | inl used ↦
      let (x, a, f) = find_free-some (suc k) xs j (ground arith) in (x, next k xs j x y a, f)
  | inr unused ↦ (y, (0, ground arith, refl), unused)
]

pub find_free-none :
    (k : ℕ) (xs : List Slot) → find_free k xs ≡ none → All (λ (x : Slot). x.in_use ≡ true) xs
unfolding find_free
find_free-none k [] e = tt
find_free-none k (y ∷ xs) e = elim (Bool-cases y.in_use) [
  | inl used ↦ (used, find_free-none (suc k) xs (ground arith))
  | inr unused ↦ cc (rw unused at e)
]

take_slot-Grants :
    (p : Pool) (i : ℕ) (b : Bool) (x : Slot)
    → get_elem? p.slots i ≡ some x
    → IsSound (take_slot p i b)
unfolding take_slot
take_slot-Grants p i b x e = record {
  held = claim (next_seq p) x;
  found = get_elem?-modify p.slots i (claim (next_seq p)) e;
  busy = refl;
  numbered = refl;
  newest = refl;
}

add_slot-Grants : (p : Pool) → IsSound (add_slot p)
unfolding add_slot
add_slot-Grants p = record {
  held = record { in_use = true; lease_seq = next_seq p; locked = false };
  found = get_elem?-append_end p.slots _;
  busy = refl;
  numbered = refl;
  newest = refl;
}

abbrev pub AtMost : ℕ → Option (ℕ × ℕ) → Type 0
AtMost seq none = Unit
AtMost seq (some (j, s)) = seq ≤ s

-- The oldest slot: no slot of `xs` is free, and none has a smaller number.
abbrev pub IsOldest : ℕ → Option (ℕ × ℕ) → List Slot → ℕ → ℕ → Type 0
IsOldest k best xs j seq =
    All (λ (x : Slot). x.in_use ≡ true) xs
    × All (λ (x : Slot). seq ≤ x.lease_seq) xs
    × AtMost seq best
    × ((best ≡ some (j, seq)) ⊎ ((x : Slot) × IsAt k xs j x × (x.lease_seq ≡ seq)))

abbrev pub Picks : ℕ → Option (ℕ × ℕ) → List Slot → Found → Type 0
Picks k best xs (free j) = (x : Slot) × IsAt k xs j x × (x.in_use ≡ false)
Picks k best xs (oldest j) = (seq : ℕ) × IsOldest k best xs j seq
Picks k best xs nothing = (best ≡ none) × (xs ≡ [])

IsOldest-older :
    (k : ℕ) (best : Option (ℕ × ℕ)) (y : Slot) (xs : List Slot) (j seq : ℕ)
    → y.in_use ≡ true
    → IsOldest (suc k) (older best k y) xs j seq
    → IsOldest k best (y ∷ xs) j seq
IsOldest-older k none y xs j seq used (a, b, c, inl e) =
    ((used, a), (c, b), tt, inr (y, (0, ground arith, refl), ground arith))
IsOldest-older k none y xs j seq used (a, b, c, inr (x, n, e)) =
    ((used, a), (c, b), tt, inr (x, next k xs j x y n, e))
IsOldest-older k (some (i, s)) y xs j seq used (a, b, c, inl e) = elim (lt_or_le y.lease_seq s) [
  | inl l ↦
      ((used, a), (ground arith, b), ground arith, inr (y, (0, ground arith, refl), ground arith))
  | inr g ↦ ((used, a), (ground arith, b), ground arith, inl (ground arith))
]
IsOldest-older k (some (i, s)) y xs j seq used (a, b, c, inr (x, n, e)) =
    ((used, a), (ground arith, b), ground arith, inr (x, next k xs j x y n, e))

pub scan-Picks : (k : ℕ) (best : Option (ℕ × ℕ)) (xs : List Slot) → Picks k best xs (scan k best xs)
unfolding scan
scan-Picks k none [] = (refl, refl)
scan-Picks k (some (j, s)) [] = (s, (tt, tt, omega arith, inl refl))
scan-Picks k best (y ∷ xs) = branch y.in_use refl (scan-Picks (suc k) (older best k y) xs)
  where
    lift :
        (f : Found)
        → y.in_use ≡ true
        → Picks (suc k) (older best k y) xs f
        → Picks k best (y ∷ xs) f
    lift (free j) used (x, a, e) = (x, next k xs j x y a, e)
    lift (oldest j) used (seq, o) = (seq, IsOldest-older k best y xs j seq used o)
    lift nothing used (e, _) = absurd (older_some best e)
      where
        older_some : (b : Option (ℕ × ℕ)) → ¬ (older b k y ≡ none)
        older_some none e = cc
        older_some (some (i, s)) e = ground arith

    branch :
        (b : Bool)
        → y.in_use ≡ b
        → Picks (suc k) (older best k y) xs (scan (suc k) (older best k y) xs)
        → Picks k best (y ∷ xs) (if b then scan (suc k) (older best k y) xs else free k)
    branch true used h = lift (scan (suc k) (older best k y) xs) used h
    branch false unused h = (y, (0, omega arith, refl), unused)

settle-Grants : (p : Pool) (f : Found) → Picks 0 none p.slots f → IsSound (settle p f)
unfolding settle
settle-Grants p (free i) (x, (n, e, g), u) =
    let same : i ≡ n = omega arith in take_slot-Grants p i true x (rw same g)
settle-Grants p (oldest i) (seq, (used, least, c, inl e)) = cc
settle-Grants p (oldest i) (seq, (used, least, c, inr (x, (n, e, g), u))) =
    let same : i ≡ n = omega arith in take_slot-Grants p i true x (rw same g)
settle-Grants p nothing h = tt

try_slot-Grants :
    (env : PoolEnv) (others : Pool → Pool) (p : Pool) (o : Option ℕ)
    → find_free 0 p.slots ≡ o
    → IsSound (try_slot env others p o)
unfolding try_slot stall
try_slot-Grants env others p (some i) e =
    let (x, (n, s, g), u) = find_free-some 0 p.slots i e in
    let same : i ≡ n = omega arith in take_slot-Grants p i false x (rw same g)
try_slot-Grants env others p none e = elim (lt_or_le (length p.slots) p.pool_depth) [
  | inl space ↦
      rw (lt→ltb _ _ space)
        (elim (Bool-cases env.builds) [ inl b ↦ rw b (add_slot-Grants p) | inr b ↦ rw b tt ])
  | inr full ↦ rw (le→ltb _ _ full) (elim (Bool-cases env.synchronizes) [
    | inl b ↦ rw b (
        settle-Grants (record (others p) { stalls = (others p).stalls + 1 })
          (scan 0 none (others p).slots) (scan-Picks 0 none (others p).slots))
    | inr b ↦ rw b tt
  ])
]

pub acquire_slot-IsSound :
    (env : PoolEnv) (others : Pool → Pool) (p : Pool) → IsSound (acquire_slot env others p)
unfolding acquire_slot
acquire_slot-IsSound env others p = try_slot-Grants env others p (find_free 0 p.slots) refl

-- The slot of a lease that `acquireSlot` returns, on every branch.
pub acquire_slot-Grants :
    (env : PoolEnv) (others : Pool → Pool) (p : Pool) {q : Pool} {l : Lease}
    → acquire_slot env others p ≡ (q, leased l)
    → Grants q l
acquire_slot-Grants env others p e = subst IsSound e (acquire_slot-IsSound env others p)
