-- ===== src/Stages.antt =====
-- decode/stages.go: the four caches of stages and direct blocks (`denseStage`, `sharedStage`,
-- `expertStage`, `getDirectBlock`), each three maps under `p.mu`: what was built, what failed,
-- and the channel that a build in progress closes. A map is a function on its keys.
-- `K` is the key (a layer, or a layer and an expert), `S` what is built, `E` an error.
pub mod System
mod Cells
mod Sound
mod Fits
pub mod Invariant
pub mod Safety
pub mod Refinement
pub mod Callers
pub mod Once
pub mod Tests
use autoresearch_mlx_go_ane.Prelude.{
  ℕ, suc, ◌==◌, Bool, true, false, Option, none, some, if◌then◌else◌,
}

-- What a builder answers: the source tells the two apart by `err != nil`.
pub data Built (S E : Type 0) : Type 0 where
  built : S → Built S E
  failed : E → Built S E

-- `next_channel` numbers the channels that `make` has made, `closed` those that are closed.
pub record Cache (K S E : Type 0) : Type 0 where
  pub stages : K → Option S
  pub errs : K → Option E
  pub pending : K → Option ℕ
  pub next_channel : ℕ
  pub closed : ℕ → Bool

-- Where a goroutine stands in the loop: before the call, about to lock `p.mu`, receiving from
-- the channel of another build, building with its own channel open, or returned.
pub data Pc (K S E : Type 0) : Type 0 where
  idle : Pc K S E
  looking : K → Pc K S E
  waiting : K → ℕ → Pc K S E
  building : K → ℕ → Pc K S E
  returned : K → Built S E → Pc K S E

module _ {K V : Type 0} (dec : Discrete K) where
  -- m[k] = v, and delete(m, k) with `none`.
  abbrev pub put : (K → V) → K → V → K → V
  put m k v j = elim (dec k j) [ yes e ↦ v | no e ↦ m j ]

abbrev pub close : (ℕ → Bool) → ℕ → ℕ → Bool
close closed ch c = if ch == c then true else closed c

module _ {K S E : Type 0} (dec : Discrete K) where
  -- The last test of the first critical section, with the registration of a new channel.
  abbrev pub enter_pending : Cache K S E → K → Option ℕ → Cache K S E × Pc K S E
  enter_pending c k (some ch) = (c, waiting k ch)
  enter_pending c k none = (
    record c {
      pending = put dec c.pending k (some c.next_channel);
      next_channel = suc c.next_channel;
    },
    building k c.next_channel,
  )

  abbrev pub enter_errs : Cache K S E → K → Option E → Cache K S E × Pc K S E
  enter_errs c k (some e) = (c, returned k (failed e))
  enter_errs c k none = enter_pending c k (c.pending k)

  abbrev pub enter_stages : Cache K S E → K → Option S → Cache K S E × Pc K S E
  enter_stages c k (some s) = (c, returned k (built s))
  enter_stages c k none = enter_errs c k (c.errs k)

  -- The first critical section: from p.mu.Lock() to the p.mu.Unlock() of the branch taken.
  abbrev pub enter : Cache K S E → K → Cache K S E × Pc K S E
  enter c k = enter_stages c k (c.stages k)

  -- The second critical section: what the build answered is stored and the channel is closed.
  unfoldable pub leave : Cache K S E → K → ℕ → Built S E → Cache K S E
  leave c k ch (built s) = record c {
    stages = put dec c.stages k (some s);
    pending = put dec c.pending k none;
    closed = close c.closed ch;
  }
  leave c k ch (failed e) = record c {
    errs = put dec c.errs k (some e);
    pending = put dec c.pending k none;
    closed = close c.closed ch;
  }
