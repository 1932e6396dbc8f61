-- ===== src/Pool/Calls.antt =====
-- decode/pool.go: sequences of calls of the goroutines that share a pool.
use autoresearch_mlx_go_ane.Prelude.{
  ℕ, ◌+◌, ◌≤◌, ◌≡◌, ◌≢◌, refl, Bool, true, false, List, [], ◌∷◌, Option, none, some, arith, length,
  get_elem?, ltb, if◌then◌else◌,
}
use autoresearch_mlx_go_ane.Prelude.Modify.{All, All-get, All-map}
use autoresearch_mlx_go_ane.Pool.{
  Slot, Pool, PoolEnv, Lease, Acquired, leased, refused, find_free, scan, Found, free, oldest,
  nothing, next_seq, take_slot, add_slot, settle, stall, try_slot, acquire_slot, build_failed,
  synchronize_failed, release_slot,
}
use autoresearch_mlx_go_ane.Pool.Leases.{IsValid, HasRoom}
use autoresearch_mlx_go_ane.Pool.Fresh.{IsFresh, source, acquire_slot-IsFresh}
use autoresearch_mlx_go_ane.Pool.Held.{
  Held, alone, IsElsewhere, acquire_slot-Held, release_slot-Held, release_slot-Held_own,
}

-- The pool, and the leases that its other users got so far, the latest first.
pub record Shared : Type 0 where
  pub pool : Pool
  pub issued : List Lease

-- A call of another goroutine: to take a slot, or to release one under the lease at a place of
-- `issued`, for the first time or again.
pub data Call : Type 0 where
  takes : PoolEnv → Call
  gives : ℕ → Call

abbrev granted : Acquired → List Lease → List Lease
granted (leased m) ms = m ∷ ms
granted (refused e) ms = ms

abbrev took : List Lease → Pool × Acquired → Shared
took ms r = record { pool = r.0; issued = granted r.1 ms }

abbrev gave : Shared → Option Lease → Shared
gave s none = s
gave s (some m) = record s { pool = release_slot s.pool m.slot m.seq }

abbrev pub call : Shared → Call → Shared
call s (takes env) = took s.issued (acquire_slot env alone s.pool)
call s (gives k) = gave s (get_elem? s.issued k)

abbrev pub calls : Shared → List Call → Shared
calls s [] = s
calls s (c ∷ cs) = calls (call s c) cs

-- There is a number left, and the lease's slot is not taken in a stall.
abbrev pub Spares : Lease → Shared → Call → Type 0
Spares l s (takes env) = HasRoom s.pool × IsElsewhere l (acquire_slot env alone s.pool).1
Spares l s (gives k) = Unit

abbrev pub AllSpare : Lease → Shared → List Call → Type 0
AllSpare l s [] = Unit
AllSpare l s (c ∷ cs) = Spares l s c × AllSpare l (call s c) cs

-- A lease carries the next number, and a refusal uses none.
abbrev IsCounted : Pool → Pool × Acquired → Type 0
IsCounted p (q, leased m) = (q.lease_seq ≡ next_seq p) × (m.seq ≡ next_seq p)
IsCounted p (q, refused e) = q.lease_seq ≡ p.lease_seq

settle-IsCounted : (p : Pool) (f : Found) → IsCounted p (settle p f)
unfolding settle take_slot
settle-IsCounted p (free i) = (refl, refl)
settle-IsCounted p (oldest i) = (refl, refl)
settle-IsCounted p nothing = refl

try_slot-IsCounted :
    (env : PoolEnv) (p : Pool) (o : Option ℕ) → IsCounted p (try_slot env alone p o)
unfolding try_slot stall take_slot add_slot
try_slot-IsCounted env p (some i) = (refl, refl)
try_slot-IsCounted env p none =
    tested (ltb (length p.slots) p.pool_depth) env.builds env.synchronizes
  where
    waiting : Pool
    waiting = record p { stalls = p.stalls + 1 }

    tested :
        (space builds done : Bool)
        → IsCounted p (
            if space
            then (if builds then add_slot p else (p, refused build_failed))
            else if done
            then settle waiting (scan 0 none p.slots)
            else (p, refused synchronize_failed))
    tested true true d = (refl, refl)
    tested true false d = refl
    tested false b true = settle-IsCounted waiting (scan 0 none p.slots)
    tested false b false = refl

acquire_slot-IsCounted : (env : PoolEnv) (p : Pool) → IsCounted p (acquire_slot env alone p)
unfolding acquire_slot
acquire_slot-IsCounted env p = try_slot-IsCounted env p (find_free 0 p.slots)

module _ (l : Lease) where
  -- The lease holds its slot, and no other lease has its number.
  record Keeps (s : Shared) : Type 0 where
    held : Held s.pool l
    counted : l.seq ≤ s.pool.lease_seq
    apart : All (λ (m : Lease). m.seq ≢ l.seq) s.issued

  took-Keeps :
      (s : Shared) (r : Pool × Acquired)
      → HasRoom s.pool
      → IsCounted s.pool r
      → Held r.0 l
      → Keeps s
      → Keeps (took s.issued r)
  took-Keeps s (q, leased m) room (e, f) h k =
      let c = k.counted in
      record { held = h; counted = omega arith; apart = (λ same. absurd (omega arith), k.apart) }
  took-Keeps s (q, refused x) room e h k =
      let c = k.counted in record { held = h; counted = omega arith; apart = k.apart }

  gave-Keeps :
      (s : Shared) (k : ℕ) (o : Option Lease)
      → get_elem? s.issued k ≡ o
      → Keeps s
      → Keeps (gave s o)
  unfolding release_slot
  gave-Keeps s k none e h = h
  gave-Keeps s k (some m) e h = record {
    held = release_slot-Held l s.pool m.slot m.seq (All-get _ s.issued k h.apart e) h.held;
    counted = h.counted;
    apart = h.apart;
  }

  call-Keeps : (s : Shared) (c : Call) → Spares l s c → Keeps s → Keeps (call s c)
  call-Keeps s (takes env) (room, other) k =
      took-Keeps s (acquire_slot env alone s.pool) room (acquire_slot-IsCounted env s.pool)
        (acquire_slot-Held l env s.pool other k.held) k
  call-Keeps s (gives i) t k = gave-Keeps s i (get_elem? s.issued i) refl k

  calls-Keeps : (s : Shared) (cs : List Call) → AllSpare l s cs → Keeps s → Keeps (calls s cs)
  calls-Keeps s [] t k = k
  calls-Keeps s (c ∷ cs) t k = calls-Keeps (call s c) cs t.1 (call-Keeps s c t.0 k)

  start-Keeps :
      (p p' q : Pool) (ms : List Lease)
      → IsFresh p p' q l
      → All (λ (m : Lease). m.seq ≤ (source p p' l.stalled).lease_seq) ms
      → Keeps (record { pool = q; issued = ms })
  start-Keeps p p' q ms f old = record {
    held = record {
      slot = f.grants.held;
      found = f.grants.found;
      busy = f.grants.busy;
      numbered = f.grants.numbered;
    };
    counted = let n = f.grants.newest in omega arith;
    apart = All-map _ _ ms (λ m h same. let c = f.counted in absurd (omega arith)) old;
  }

-- After `acquireSlot` has returned a lease, with the pool and what the others leave of it during a
-- stall valid, and while lease numbers stay below 2^64: any sequence of calls of other goroutines,
-- which take slots and release slots under any lease they got, once or again, be it earlier, with a
-- number that the pool had given out by then, or later, leaves the lease's slot in use under the
-- lease, unless one of them takes this very slot after a stall. So a goroutine that lost its slot
-- cannot free it under the new holder, and without a stall a held slot is given to no one; the
-- holder's own release frees it then.
pub release_slot_stale :
    (env : PoolEnv) (others : Pool → Pool) (p : Pool) {q : Pool} {l : Lease} (ms : List Lease)
    (cs : List Call)
    → HasRoom p
    → HasRoom (others p)
    → IsValid p
    → IsValid (others p)
    → acquire_slot env others p ≡ (q, leased l)
    → All (λ (m : Lease). m.seq ≤ (source p (others p) l.stalled).lease_seq) ms
    → AllSpare l (record { pool = q; issued = ms }) cs
    → Held (calls (record { pool = q; issued = ms }) cs).pool l
      × ((x : Slot) × (get_elem?
              (release_slot (calls (record { pool = q; issued = ms }) cs).pool l.slot l.seq).slots
              l.slot
            ≡ some x)
          × (x.in_use ≡ false))
release_slot_stale env others p {q} {l} ms cs room room' v v' e old s =
    let k =
      calls-Keeps l (record { pool = q; issued = ms }) cs s
        (start-Keeps l p (others p) q ms (acquire_slot-IsFresh env others p room room' v v' e)
          old) in
    (k.held, release_slot-Held_own (calls (record { pool = q; issued = ms }) cs).pool l k.held)
