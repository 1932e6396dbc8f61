-- ===== src/Stages/Fits.antt =====
-- decode/stages.go: what a goroutine in the loop may rely on where it stands, and that the steps of others keep it.
use autoresearch_mlx_go_ane.Prelude.{
  ℕ, ◌≡◌, subst, ap, sym, ◌∙◌, ◌⊎◌, inl, inr, ◌≢◌, Bool, true, none, some, ◌==◌, if◌then◌else◌,
  arith,
}
use autoresearch_mlx_go_ane.Stages.{Built, Cache, Pc, put, leave}
use autoresearch_mlx_go_ane.Stages.Pc.{idle, looking, waiting, building, returned}
use autoresearch_mlx_go_ane.Stages.Cells.{answer, register, put_self, put_other, leave-answer}
use autoresearch_mlx_go_ane.Stages.Sound.{leave_channels, leave-closed}

module _ {K S E : Type 0} where
  -- The build with this channel has ended, and left an answer.
  abbrev pub IsAnswered : Cache K S E → K → ℕ → Type 0
  IsAnswered c k ch = (c.closed ch ≡ true) × ((b : Built S E) × (answer c k ≡ some b))

  -- What a goroutine may rely on where it stands.
  unfoldable pub Fits : Cache K S E → Pc K S E → Type 0
  Fits c idle = Unit
  Fits c (looking k) = Unit
  Fits c (waiting k ch) = IsAnswered c k ch ⊎ (c.pending k ≡ some ch)
  Fits c (building k ch) = c.pending k ≡ some ch
  Fits c (returned k b) = answer c k ≡ some b

module _ where
  closed_stays :
      (closed : ℕ → Bool) (ch : ℕ) {l : ℕ}
      → closed l ≡ true
      → (if ch == l then true else closed l) ≡ true
  closed_stays closed ch e = ground arith

  close_own : (closed : ℕ → Bool) {ch l : ℕ} → ch ≡ l → (if ch == l then true else closed l) ≡ true
  close_own closed e = ground arith

module _ {K S E : Type 0} (dec : Discrete K) where
  pending_kept :
      (c : Cache K S E) (k : K)
      → c.pending k ≡ none
      → (j : K) (ch : ℕ) → c.pending j ≡ some ch
      → (register dec c k).pending j ≡ some ch
  pending_kept c k free j ch e =
      put_other dec c.pending k (some c.next_channel)
        (λ same. let bad : c.pending j ≡ none = rw (sym same) free in cc)
      ∙ e

  pub register-Fits :
      (c : Cache K S E) (k : K)
      → c.pending k ≡ none
      → (p : Pc K S E) → Fits c p
      → Fits (register dec c k) p
  unfolding Fits answer
  register-Fits c k free idle f = tt
  register-Fits c k free (looking j) f = tt
  register-Fits c k free (waiting j ch) (inl f) = inl f
  register-Fits c k free (waiting j ch) (inr f) = inr (pending_kept c k free j ch f)
  register-Fits c k free (building j ch) f = pending_kept c k free j ch f
  register-Fits c k free (returned j b) f = f

  leave-pending_other :
      (c : Cache K S E) (k : K) (ch : ℕ) (b : Built S E)
      → (j : K) (l : ℕ) → k ≢ j
      → c.pending j ≡ some l
      → (leave dec c k ch b).pending j ≡ some l
  leave-pending_other c k ch b j l other e =
      ap (λ m. m j) (leave_channels dec c k ch b).0 ∙ put_other dec c.pending k none other ∙ e

  -- An answer is never replaced.
  pub leave-answered :
      (c : Cache K S E) (k : K) (ch : ℕ) (b : Built S E)
      → answer c k ≡ none
      → (j : K) {d : Built S E} → answer c j ≡ some d
      → answer (leave dec c k ch b) j ≡ some d
  leave-answered c k ch b empty j f =
      leave-answer dec c k ch b j empty
      ∙ put_other dec (answer c) k (some b)
          (λ same. let bad : answer c j ≡ none = subst (λ x. answer c x ≡ none) same empty in cc)
      ∙ f

  -- A waiter on the build that ends finds its channel closed; any other keeps its channel.
  leave-waiting :
      (c : Cache K S E) (k : K) (ch : ℕ) (b : Built S E)
      → c.pending k ≡ some ch
      → answer c k ≡ none
      → (j : K) (l : ℕ) → IsAnswered c j l ⊎ (c.pending j ≡ some l)
      → IsAnswered (leave dec c k ch b) j l ⊎ ((leave dec c k ch b).pending j ≡ some l)
  leave-waiting c k ch b own empty j l (inl (f, (d, a))) = inl (
    leave-closed dec c k ch b l ∙ closed_stays c.closed ch f,
    (d, leave-answered c k ch b empty j a),
  )
  leave-waiting c k ch b own empty j l (inr f) = elim (dec k j) [
    | yes same ↦
        let at_k : c.pending k ≡ some l = subst (λ x. c.pending x ≡ some l) (sym same) f in
        let q : ch ≡ l = cc in
        inl (
          leave-closed dec c k ch b l ∙ close_own c.closed q,
          (
            b,
            leave-answer dec c k ch b j empty
                ∙ subst (λ x. put dec (answer c) k (some b) x ≡ some b) same
                    (put_self dec (answer c) k (some b)),
          ),
        )
    | no other ↦ inr (leave-pending_other c k ch b j l other f)
  ]

  pub leave-Fits :
      (c : Cache K S E) (k : K) (ch : ℕ) (b : Built S E)
      → c.pending k ≡ some ch
      → answer c k ≡ none
      → (p : Pc K S E) → p ≢ building k ch
      → Fits c p
      → Fits (leave dec c k ch b) p
  unfolding Fits
  leave-Fits c k ch b own empty idle ne f = tt
  leave-Fits c k ch b own empty (looking j) ne f = tt
  leave-Fits c k ch b own empty (waiting j l) ne f = leave-waiting c k ch b own empty j l f
  leave-Fits c k ch b own empty (building j l) ne f =
      leave-pending_other c k ch b j l
        (λ same.
          ne (
            let at_k : c.pending k ≡ some l = subst (λ x. c.pending x ≡ some l) (sym same) f in cc))
        f
  leave-Fits c k ch b own empty (returned j d) ne f = leave-answered c k ch b empty j f
