-- ===== src/Stages/Cells.antt =====
-- decode/stages.go: what a lookup in one cache finds, and what its two critical sections do to it.
use autoresearch_mlx_go_ane.Prelude.{
  ℕ, suc, ◌≡◌, refl, subst, ◌⊎◌, inl, inr, ◌≢◌, Option, none, some,
}
use autoresearch_mlx_go_ane.Stages.{
  Built, Cache, Pc, built, failed, put, enter, enter_stages, enter_errs, enter_pending, leave,
}
use autoresearch_mlx_go_ane.Stages.Pc.{waiting, building, returned}

module _ {S E : Type 0} where
  abbrev pub answer_of : Option S → Option E → Option (Built S E)
  answer_of (some s) e = some (built s)
  answer_of none (some e) = some (failed e)
  answer_of none none = none

module _ {K S E : Type 0} where
  -- What a lookup finds: the stage, else the error.
  unfoldable pub answer : Cache K S E → K → Option (Built S E)
  answer c k = answer_of (c.stages k) (c.errs k)

  abbrev pub register : (Discrete K) → Cache K S E → K → Cache K S E
  register dec c k = record c {
    pending = put dec c.pending k (some c.next_channel);
    next_channel = suc c.next_channel;
  }

  -- The three ways out of the first critical section.
  pub data Entered (dec : Discrete K) (c : Cache K S E) (k : K)
      : Cache K S E × Pc K S E → Type 0 where
    found : (b : Built S E) → answer c k ≡ some b → Entered dec c k (c, returned k b)
    joined : (ch : ℕ) → c.pending k ≡ some ch → Entered dec c k (c, waiting k ch)
    opened :
        c.pending k ≡ none
        → answer c k ≡ none
        → Entered dec c k (register dec c k, building k c.next_channel)

module _ {K V : Type 0} (dec : Discrete K) where
  pub put_cases :
      (m : K → V) (k : K) (v : V) (j : K)
      → ((k ≡ j) × (put dec m k v j ≡ v)) ⊎ ((k ≢ j) × (put dec m k v j ≡ m j))
  put_cases m k v j =
      elim (dec k j)
        as (λ d.
          ((k ≡ j) × (elim d [ yes e ↦ v | no e ↦ m j ] ≡ v))
          ⊎ ((k ≢ j) × (elim d [ yes e ↦ v | no e ↦ m j ] ≡ m j))) [
            | yes e ↦ inl (e, refl)
            | no e ↦ inr (e, refl)
          ]

  pub put_self : (m : K → V) (k : K) (v : V) → put dec m k v k ≡ v
  put_self m k v = elim (put_cases m k v k) [
    | inl (e, q) ↦ q
    | inr (other, q) ↦ absurd (other refl)
  ]

  pub put_other : (m : K → V) (k : K) (v : V) {j : K} → k ≢ j → put dec m k v j ≡ m j
  put_other m k v {j} h = elim (put_cases m k v j) [
    | inl (e, q) ↦ absurd (h e)
    | inr (other, q) ↦ q
  ]

module _ {K S E : Type 0} (dec : Discrete K) where
  enter_pending_cases :
      (c : Cache K S E) (k : K) (o : Option ℕ)
      → c.pending k ≡ o
      → answer c k ≡ none
      → Entered dec c k (enter_pending dec c k o)
  enter_pending_cases c k none e h = opened e h
  enter_pending_cases c k (some ch) e h = joined ch e

  enter_errs_cases :
      (c : Cache K S E) (k : K) (o : Option E)
      → c.stages k ≡ none
      → c.errs k ≡ o
      → Entered dec c k (enter_errs dec c k o)
  unfolding answer
  enter_errs_cases c k none e h = enter_pending_cases c k (c.pending k) refl (rw (e, h) refl)
  enter_errs_cases c k (some x) e h = found (failed x) (rw (e, h) refl)

  enter_stages_cases :
      (c : Cache K S E) (k : K) (o : Option S)
      → c.stages k ≡ o
      → Entered dec c k (enter_stages dec c k o)
  unfolding answer
  enter_stages_cases c k none e = enter_errs_cases c k (c.errs k) e refl
  enter_stages_cases c k (some x) e = found (built x) (rw e refl)

  pub enter-Entered : (c : Cache K S E) (k : K) → Entered dec c k (enter dec c k)
  enter-Entered c k = enter_stages_cases c k (c.stages k) refl

  answer_built :
      (c : Cache K S E) (k : K) (ch : ℕ) (x : S) (j : K)
      → answer (leave dec c k ch (built x)) j ≡ put dec (answer c) k (some (built x)) j
  unfolding leave answer
  answer_built c k ch x j =
      elim (dec k j)
        as (λ d.
          answer_of (elim d [ yes e ↦ some x | no e ↦ c.stages j ]) (c.errs j)
          ≡ elim d [ yes e ↦ some (built x) | no e ↦ answer_of (c.stages j) (c.errs j) ]) [
            | yes e ↦ refl
            | no e ↦ refl
          ]

  no_stage : (s : Option S) (x : Option E) → answer_of s x ≡ none → s ≡ none
  no_stage none x e = refl
  no_stage (some s) x e = cc

  answer_failed :
      (c : Cache K S E) (k : K) (ch : ℕ) (x : E) (j : K)
      → answer c k ≡ none
      → answer (leave dec c k ch (failed x)) j ≡ put dec (answer c) k (some (failed x)) j
  unfolding leave answer
  answer_failed c k ch x j empty =
      elim (dec k j)
        as (λ d.
          answer_of (c.stages j) (elim d [ yes e ↦ some x | no e ↦ c.errs j ])
          ≡ elim d [ yes e ↦ some (failed x) | no e ↦ answer_of (c.stages j) (c.errs j) ]) [
            | yes e ↦
                rw (no_stage (c.stages j) (c.errs j) (subst (λ l. answer c l ≡ none) e empty)) refl
            | no e ↦ refl
          ]

  pub leave-answer :
      (c : Cache K S E) (k : K) (ch : ℕ) (b : Built S E) (j : K)
      → answer c k ≡ none
      → answer (leave dec c k ch b) j ≡ put dec (answer c) k (some b) j
  leave-answer c k ch (built x) j empty = answer_built c k ch x j
  leave-answer c k ch (failed x) j empty = answer_failed c k ch x j empty
