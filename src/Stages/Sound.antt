-- ===== src/Stages/Sound.antt =====
-- decode/stages.go: the channels of one cache, and that its two critical sections keep them.
use autoresearch_mlx_go_ane.Prelude.{
  ℕ, ◌<◌, ◌≡◌, refl, ap, sym, ◌∙◌, ◌⊎◌, inl, inr, ◌≢◌, Bool, true, false, none, some, ◌==◌,
  if◌then◌else◌, arith,
}
use autoresearch_mlx_go_ane.Stages.{Built, Cache, built, failed, put, close, leave}
use autoresearch_mlx_go_ane.Stages.Cells.{answer, register, put_cases, put_other, leave-answer}

module _ {K S E : Type 0} where
  -- A channel in `pending` is open, was made, and belongs to one key, which has no answer yet.
  pub record IsSound (c : Cache K S E) : Type 0 where
    pub open_channel : (k : K) (ch : ℕ) → c.pending k ≡ some ch → c.closed ch ≡ false
    pub made : (k : K) (ch : ℕ) → c.pending k ≡ some ch → ch < c.next_channel
    pub closed_made : (ch : ℕ) → c.closed ch ≡ true → ch < c.next_channel
    pub apart : (k j : K) (ch : ℕ) → c.pending k ≡ some ch → c.pending j ≡ some ch → k ≡ j
    pub unset : (k : K) (ch : ℕ) → c.pending k ≡ some ch → answer c k ≡ none

module _ where
  close_other :
      (closed : ℕ → Bool) {ch l : ℕ}
      → ch ≢ l
      → closed l ≡ false
      → (if ch == l then true else closed l) ≡ false
  close_other closed h e = ground arith

  close_made :
      (closed : ℕ → Bool) {ch l n m : ℕ}
      → ch < n
      → (closed l ≡ true → l < n)
      → (if ch == l then true else closed l) ≡ true
      → m ≡ n
      → l < m
  close_made closed h f q e = ground arith

module _ {K S E : Type 0} (dec : Discrete K) where
  -- A channel after a registration is the new one, or was there before.
  pub register_pending :
      (c : Cache K S E) (k j : K) {ch : ℕ}
      → (register dec c k).pending j ≡ some ch
      → ((k ≡ j) × (ch ≡ c.next_channel)) ⊎ (c.pending j ≡ some ch)
  register_pending c k j e = elim (put_cases dec c.pending k (some c.next_channel) j) [
    | inl (same, q) ↦ inl (same, cc)
    | inr (other, q) ↦ inr (sym q ∙ e)
  ]

  pub register-IsSound :
      {c : Cache K S E} (k : K)
      → c.pending k ≡ none
      → answer c k ≡ none
      → IsSound c
      → IsSound (register dec c k)
  unfolding answer
  register-IsSound {c} k free empty h = record {
    open_channel = λ j ch e. elim (register_pending c k j e) [
      | inl (same, q) ↦ grind (arith, h.closed_made ch)
      | inr q ↦ h.open_channel j ch q
    ];
    made = λ j ch e. elim (register_pending c k j e) [
      | inl (same, q) ↦ omega arith
      | inr q ↦ omega (arith, h.made j ch q)
    ];
    closed_made = λ ch e. omega (arith, h.closed_made ch e);
    apart = λ j l ch e f. elim (register_pending c k j e) [
      | inl (same, q) ↦ elim (register_pending c k l f) [
        | inl (same', q') ↦ sym same ∙ same'
        | inr q' ↦ let lt : ch < c.next_channel = h.made l ch q' in absurd (omega arith)
      ]
      | inr q ↦ elim (register_pending c k l f) [
        | inl (same', q') ↦ let lt : ch < c.next_channel = h.made j ch q in absurd (omega arith)
        | inr q' ↦ h.apart j l ch q q'
      ]
    ];
    unset = λ j ch e. elim (register_pending c k j e) [
      | inl (same, q) ↦ rw (sym same) empty
      | inr q ↦ h.unset j ch q
    ];
  }

  -- What the second critical section does to the channels, whatever the build answered.
  pub leave_channels :
      (c : Cache K S E) (k : K) (ch : ℕ) (b : Built S E)
      → ((leave dec c k ch b).pending ≡ put dec c.pending k none)
        × ((leave dec c k ch b).closed ≡ close c.closed ch)
        × ((leave dec c k ch b).next_channel ≡ c.next_channel)
  unfolding leave
  leave_channels c k ch (built x) = (refl, refl, refl)
  leave_channels c k ch (failed x) = (refl, refl, refl)

  pub leave-pending :
      (c : Cache K S E) (k : K) (ch : ℕ) (b : Built S E) (j : K) {l : ℕ}
      → (leave dec c k ch b).pending j ≡ some l
      → (k ≢ j) × (c.pending j ≡ some l)
  leave-pending c k ch b j {l} e =
      let f : put dec c.pending k none j ≡ some l =
        ap (λ m. m j) (sym (leave_channels c k ch b).0) ∙ e in
      elim (put_cases dec c.pending k none j) [
        | inl (same, q) ↦ let bad : none ≡ some l = sym q ∙ f in cc
        | inr (other, q) ↦ (other, sym q ∙ f)
      ]

  pub leave-closed :
      (c : Cache K S E) (k : K) (ch : ℕ) (b : Built S E) (l : ℕ)
      → (leave dec c k ch b).closed l ≡ (if ch == l then true else c.closed l)
  leave-closed c k ch b l = ap (λ f. f l) (leave_channels c k ch b).1

  pub leave-IsSound :
      {c : Cache K S E} (k : K) (ch : ℕ) (b : Built S E)
      → c.pending k ≡ some ch
      → IsSound c
      → IsSound (leave dec c k ch b)
  leave-IsSound {c} k ch b own h = record {
    open_channel = λ j l e.
        let (other, p) = leave-pending c k ch b j e in
        leave-closed c k ch b l
        ∙ close_other c.closed (λ q. other (h.apart k j l (rw (sym q) own) p))
            (h.open_channel j l p);
    made = λ j l e.
        omega (arith, h.made j l (leave-pending c k ch b j e).1, (leave_channels c k ch b).2);
    closed_made = λ l e.
        let q : (if ch == l then true else c.closed l) ≡ true = sym (leave-closed c k ch b l) ∙ e in
        close_made c.closed (h.made k ch own) (h.closed_made l) q (leave_channels c k ch b).2;
    apart =
        λ i j l e f. h.apart i j l (leave-pending c k ch b i e).1 (leave-pending c k ch b j f).1;
    unset = λ j l e.
        let (other, p) = leave-pending c k ch b j e in
        leave-answer dec c k ch b j (h.unset k ch own)
        ∙ put_other dec (answer c) k (some b) other
        ∙ h.unset j l p;
  }
