-- ===== src/Stages/Safety.antt =====
-- decode/stages.go: what every caller of one cache can rely on, in every order of goroutines.
use autoresearch_mlx_go_ane.Prelude.{
  ℕ, ◌≡◌, ap, sym, ◌∙◌, subst, ◌⊎◌, inl, inr, ◌≢◌, true, false, none, some,
}
use autoresearch_mlx_go_ane.Stages.{Built, Cache, Pc, enter}
use autoresearch_mlx_go_ane.Stages.Pc.{waiting, building, returned}
use autoresearch_mlx_go_ane.Stages.Cells.{answer, Entered, found, joined, opened, enter-Entered}
use autoresearch_mlx_go_ane.Stages.Fits.{Fits, leave-answered}
use autoresearch_mlx_go_ane.Stages.System.{System, Step, Reach, call, look, wake, finish, later}
use autoresearch_mlx_go_ane.Stages.Refinement.{Entered-answer}
use autoresearch_mlx_go_ane.Stages.Invariant.{IsConsistent, Reach-IsConsistent, building-pending}

module _ {K S E : Type 0} (dec : Discrete K) where
  pub data Steps (s : System K S E) : System K S E → Type 0 where
    here : Steps s s
    onward : {t u : System K S E} → Steps s t → Step dec t u → Steps s u

  Steps-Reach : {s t : System K S E} → Reach dec s → Steps s t → Reach dec t
  Steps-Reach r here = r
  Steps-Reach r (onward more st) = later (Steps-Reach r more) st

  Step-answered :
      {s t : System K S E} (k : K) {b : Built S E}
      → IsConsistent s
      → Step dec s t
      → answer s.cache k ≡ some b
      → answer t.cache k ≡ some b
  unfolding answer
  Step-answered k h (call i j e) a = a
  Step-answered {s} k h (look i j e) a =
      ap (λ f. f k) (Entered-answer dec j (enter-Entered dec s.cache j)) ∙ a
  Step-answered k h (wake i j ch e f) a = a
  Step-answered {s} k h (finish i j ch b e) a =
      leave-answered dec s.cache j ch b
        (h.sound.unset j ch (building-pending s.cache j ch e (h.fits i))) k a

  Steps-answered :
      {s t : System K S E} (k : K) {b : Built S E}
      → Reach dec s
      → Steps s t
      → answer s.cache k ≡ some b
      → answer t.cache k ≡ some b
  Steps-answered k r here a = a
  Steps-answered k r (onward more st) a =
      Step-answered k (Reach-IsConsistent dec (Steps-Reach r more)) st (Steps-answered k r more a)

  not_building :
      {s : System K S E} (k : K) {b : Built S E}
      → IsConsistent s
      → answer s.cache k ≡ some b
      → (i ch : ℕ) → s.pc i ≢ building k ch
  not_building {s} k h a i ch e =
      let empty : answer s.cache k ≡ none =
        h.sound.unset k ch (building-pending s.cache k ch e (h.fits i)) in
      cc

  -- In a reachable state two goroutines that build the same key are one.
  pub single_builder :
      {s : System K S E} {i j c d : ℕ} {k : K}
      → Reach dec s
      → s.pc i ≡ building k c
      → s.pc j ≡ building k d
      → i ≡ j
  single_builder {s} {i} {j} {c} {d} {k} r e f =
      let h : IsConsistent s = Reach-IsConsistent dec r in
      let p : s.cache.pending k ≡ some c = building-pending s.cache k c e (h.fits i) in
      let q : s.cache.pending k ≡ some d = building-pending s.cache k d f (h.fits j) in
      let same : c ≡ d = cc in h.unique i j k c e (subst (λ x. s.pc j ≡ building k x) (sym same) f)

  -- Once a key has an answer, a stage or an error, in a reachable state, it has that answer for
  -- ever, and no goroutine builds it again.
  pub settled_forever :
      {s t : System K S E} {k : K} {b : Built S E}
      → Reach dec s
      → answer s.cache k ≡ some b
      → Steps s t
      → (answer t.cache k ≡ some b) × ((i ch : ℕ) → t.pc i ≢ building k ch)
  settled_forever {k} r a more =
      let later_answer = Steps-answered k r more a in
      (later_answer, not_building k (Reach-IsConsistent dec (Steps-Reach r more)) later_answer)

  -- In a reachable state, when a goroutine waits for a channel, the channel is closed or some
  -- goroutine is building that key and will close it.
  pub no_lost_wakeup :
      {s : System K S E} {i ch : ℕ} {k : K}
      → Reach dec s
      → s.pc i ≡ waiting k ch
      → (s.cache.closed ch ≡ true) ⊎ ((j : ℕ) × (s.pc j ≡ building k ch))
  unfolding Fits
  no_lost_wakeup {s} {i} {ch} {k} r e =
      let h : IsConsistent s = Reach-IsConsistent dec r in
      elim (subst (Fits s.cache) e (h.fits i)) [
        | inl (closed, a) ↦ inl closed
        | inr p ↦ inr (h.owner k ch p)
      ]

  pub answered_enter :
      {c : Cache K S E} (k : K) {b : Built S E} {r : Cache K S E × Pc K S E}
      → Entered dec c k r
      → answer c k ≡ some b
      → ((j : K) (ch : ℕ) → c.pending j ≡ some ch → answer c j ≡ none)
      → r ≡ (c, returned k b)
  answered_enter k (found d a) e f = cc
  answered_enter {c} k (joined ch a) e f = let empty : answer c k ≡ none = f k ch a in cc
  answered_enter k (opened free empty) e f = cc

  -- The loop goes round at most twice: when the channel that a goroutine waits for is closed, in a
  -- reachable state, its key has an answer, and the next pass through the first critical section
  -- returns that answer, however many steps others take before.
  pub woken_returns :
      {s t : System K S E} {i ch : ℕ} {k : K}
      → Reach dec s
      → s.pc i ≡ waiting k ch
      → s.cache.closed ch ≡ true
      → Steps s t
      → (b : Built S E) × (enter dec t.cache k ≡ (t.cache, returned k b))
  unfolding Fits
  woken_returns {s} {t} {i} {ch} {k} r e f more =
      let h : IsConsistent s = Reach-IsConsistent dec r in
      let h' : IsConsistent t = Reach-IsConsistent dec (Steps-Reach r more) in
      elim (subst (Fits s.cache) e (h.fits i)) [
        | inl (closed, (b, a)) ↦ (
          b,
          answered_enter k (enter-Entered dec t.cache k) (Steps-answered k r more a) h'.sound.unset,
        )
        | inr p ↦ let open_one : s.cache.closed ch ≡ false = h.sound.open_channel k ch p in cc
      ]
