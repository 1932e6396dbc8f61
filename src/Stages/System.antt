-- ===== src/Stages/System.antt =====
-- decode/stages.go: any number of goroutines in the loop of one cache, in any order. The two
-- critical sections are one step each, since both hold `p.mu`; a build runs between them.
use autoresearch_mlx_go_ane.Prelude.{ℕ, ◌≡◌, true, false, none, ◌==◌, if◌then◌else◌}
use autoresearch_mlx_go_ane.Stages.{Built, Cache, Pc, enter, leave}
use autoresearch_mlx_go_ane.Stages.Pc.{idle, looking, waiting, building, returned}

module _ {A : Type 0} where
  abbrev pub at : (ℕ → A) → ℕ → A → ℕ → A
  at f i a j = if i == j then a else f j

pub record System (K S E : Type 0) : Type 0 where
  pub cache : Cache K S E
  pub pc : ℕ → Pc K S E

module _ {K S E : Type 0} where
  -- The maps that `Wrap` makes.
  abbrev pub init : System K S E
  init = record {
    cache = record {
      stages = λ k. none;
      errs = λ k. none;
      pending = λ k. none;
      next_channel = 0;
      closed = λ c. false;
    };
    pc = λ i. idle;
  }

  module _ (dec : Discrete K) where
    -- `finish` takes any answer: what a build returns is up to the platform.
    pub data Step (s : System K S E) : System K S E → Type 0 where
      call : (i : ℕ) (k : K) → s.pc i ≡ idle → Step s (record s { pc = at s.pc i (looking k) })
      look :
          (i : ℕ) (k : K)
          → s.pc i ≡ looking k
          → Step s
              (record { cache = (enter dec s.cache k).0; pc = at s.pc i (enter dec s.cache k).1 })
      wake :
          (i : ℕ) (k : K) (ch : ℕ)
          → s.pc i ≡ waiting k ch
          → s.cache.closed ch ≡ true
          → Step s (record s { pc = at s.pc i (looking k) })
      finish :
          (i : ℕ) (k : K) (ch : ℕ) (b : Built S E)
          → s.pc i ≡ building k ch
          → Step s (record { cache = leave dec s.cache k ch b; pc = at s.pc i (returned k b) })

    pub data Reach : System K S E → Type 0 where
      start : Reach init
      later : {s t : System K S E} → Reach s → Step s t → Reach t
