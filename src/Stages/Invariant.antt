-- ===== src/Stages/Invariant.antt =====
-- decode/stages.go: what holds of a cache and of the goroutines in its loop, in every order.
use autoresearch_mlx_go_ane.Prelude.{
  ℕ, ◌<◌, ◌≡◌, refl, subst, sym, ◌∙◌, ◌⊎◌, inl, inr, ◌≢◌, true, false, none, some, arith,
}
use autoresearch_mlx_go_ane.Stages.{Built, Cache, Pc, leave}
use autoresearch_mlx_go_ane.Stages.Pc.{looking, building, returned}
use autoresearch_mlx_go_ane.Stages.Cells.{
  answer, Entered, found, joined, opened, enter-Entered, put_self, leave-answer,
}
use autoresearch_mlx_go_ane.Stages.Sound.{
  IsSound, register-IsSound, leave-pending, leave-IsSound, register_pending,
}
use autoresearch_mlx_go_ane.Stages.System.{
  System, at, Step, Reach, call, look, wake, finish, start, later,
}
use autoresearch_mlx_go_ane.Stages.Fits.{Fits, register-Fits, leave-Fits}

module _ {K S E : Type 0} where
  pub record IsConsistent (s : System K S E) : Type 0 where
    pub sound : IsSound s.cache
    pub fits : (i : ℕ) → Fits s.cache (s.pc i)
    pub owner : (k : K) (ch : ℕ) → s.cache.pending k ≡ some ch → (i : ℕ) × (s.pc i ≡ building k ch)
    pub unique :
        (i j : ℕ) (k : K) (ch : ℕ) → s.pc i ≡ building k ch → s.pc j ≡ building k ch → i ≡ j

module _ {A : Type 0} where
  at_cases :
      (f : ℕ → A) (i : ℕ) (a : A) (j : ℕ)
      → ((i ≡ j) × (at f i a j ≡ a)) ⊎ ((i ≢ j) × (at f i a j ≡ f j))
  at_cases f i a j = ground arith

  at_self : (f : ℕ → A) (i : ℕ) (a : A) → at f i a i ≡ a
  at_self f i a = ground arith

  at_other : (f : ℕ → A) {i : ℕ} (a : A) {j : ℕ} → i ≢ j → at f i a j ≡ f j
  at_other f a h = ground arith

module _ {K S E : Type 0} where
  pub building-pending :
      (c : Cache K S E) {p : Pc K S E} (k : K) (ch : ℕ)
      → p ≡ building k ch
      → Fits c p
      → c.pending k ≡ some ch
  unfolding Fits
  building-pending c k ch e h = subst (Fits c) e h

  -- One goroutine moves to `p`, and the cache becomes `c`.
  record IsMove (s : System K S E) (i : ℕ) (c : Cache K S E) (p : Pc K S E) : Type 0 where
    sound : IsSound c
    fits : Fits c p
    others : (j : ℕ) → i ≢ j → Fits s.cache (s.pc j) → Fits c (s.pc j)
    kept :
        (k : K) (ch : ℕ)
        → c.pending k ≡ some ch
        → (p ≡ building k ch) ⊎ ((s.cache.pending k ≡ some ch) × (s.pc i ≢ building k ch))
    fresh : (k : K) (ch : ℕ) → p ≡ building k ch → s.cache.pending k ≢ some ch

  move :
      {s : System K S E} (i : ℕ) {c : Cache K S E} {p : Pc K S E}
      → IsMove s i c p
      → IsConsistent s
      → IsConsistent (record { cache = c; pc = at s.pc i p })
  move {s} i {c} {p} m h = record {
    sound = m.sound;
    fits = λ j. elim (at_cases s.pc i p j) [
      | inl (e, q) ↦ subst (Fits c) (sym q) m.fits
      | inr (e, q) ↦ subst (Fits c) (sym q) (m.others j e (h.fits j))
    ];
    owner = λ k ch e. elim (m.kept k ch e) [
      | inl q ↦ (i, at_self s.pc i p ∙ q)
      | inr (q, other) ↦
          let (j, b) = h.owner k ch q in (j, at_other s.pc p (λ e. other (rw e b)) ∙ b)
    ];
    unique = λ j l k ch e f. elim (at_cases s.pc i p j) [
      | inl (a, q) ↦ elim (at_cases s.pc i p l) [
        | inl (b, r) ↦ sym a ∙ b
        | inr (b, r) ↦
            absurd (m.fresh k ch (sym q ∙ e) (building-pending s.cache k ch (sym r ∙ f) (h.fits l)))
      ]
      | inr (a, q) ↦ elim (at_cases s.pc i p l) [
        | inl (b, r) ↦
            absurd (m.fresh k ch (sym r ∙ f) (building-pending s.cache k ch (sym q ∙ e) (h.fits j)))
        | inr (b, r) ↦ h.unique j l k ch (sym q ∙ e) (sym r ∙ f)
      ]
    ];
  }

  -- A step that leaves the cache alone and starts no build.
  stay :
      {s : System K S E} (i : ℕ) {p : Pc K S E}
      → Fits s.cache p
      → ((k : K) (ch : ℕ) → p ≢ building k ch)
      → ((k : K) (ch : ℕ) → s.pc i ≢ building k ch)
      → IsConsistent s
      → IsConsistent (record s { pc = at s.pc i p })
  stay {s} i {p} fit quiet before h =
      move i
        (record {
          sound = h.sound;
          fits = fit;
          others = λ j other f. f;
          kept = λ k ch e. inr (e, before k ch);
          fresh = λ k ch e. absurd (quiet k ch e);
        })
        h

  module _ (dec : Discrete K) where
    Entered-IsConsistent :
        {s : System K S E} (i : ℕ) (k : K) {r : Cache K S E × Pc K S E}
        → s.pc i ≡ looking k
        → Entered dec s.cache k r
        → IsConsistent s
        → IsConsistent (record { cache = r.0; pc = at s.pc i r.1 })
    unfolding Fits
    Entered-IsConsistent i k e (found b a) h = stay i a (λ l ch q. cc) (λ l ch q. cc) h
    Entered-IsConsistent i k e (joined ch a) h = stay i (inr a) (λ l ch q. cc) (λ l ch q. cc) h
    Entered-IsConsistent {s} i k e (opened free empty) h =
        move i
          (record {
            sound = register-IsSound dec k free empty h.sound;
            fits = put_self dec s.cache.pending k (some s.cache.next_channel);
            others = λ j other f. register-Fits dec s.cache k free (s.pc j) f;
            kept = λ l ch q. elim (register_pending dec s.cache k l q) [
              | inl (same, n) ↦ inl (rw (same, n) refl)
              | inr old ↦ inr (old, λ b. cc)
            ];
            fresh = λ l ch q p.
                let n : s.cache.next_channel ≡ ch = cc in
                let lt : ch < s.cache.next_channel = h.sound.made l ch p in omega arith;
          })
          h

    finish-IsConsistent :
        {s : System K S E} (i : ℕ) (k : K) (ch : ℕ) (b : Built S E)
        → s.pc i ≡ building k ch
        → IsConsistent s
        → IsConsistent (record { cache = leave dec s.cache k ch b; pc = at s.pc i (returned k b) })
    unfolding Fits
    finish-IsConsistent {s} i k ch b e h =
        let own : s.cache.pending k ≡ some ch = building-pending s.cache k ch e (h.fits i) in
        let empty : answer s.cache k ≡ none = h.sound.unset k ch own in
        move i
          (record {
            sound = leave-IsSound dec k ch b own h.sound;
            fits =
                leave-answer dec s.cache k ch b k empty ∙ put_self dec (answer s.cache) k (some b);
            others = λ j other f.
                leave-Fits dec s.cache k ch b own empty (s.pc j)
                  (λ q. other (h.unique i j k ch e q)) f;
            kept =
                λ l x q. let (ne, p) = leave-pending dec s.cache k ch b l q in inr (p, λ r. ne cc);
            fresh = λ l x q. cc;
          })
          h

    pub Step-IsConsistent : {s t : System K S E} → Step dec s t → IsConsistent s → IsConsistent t
    unfolding Fits
    Step-IsConsistent (call i k e) h = stay i tt (λ l ch q. cc) (λ l ch q. cc) h
    Step-IsConsistent {s} (look i k e) h =
        Entered-IsConsistent i k e (enter-Entered dec s.cache k) h
    Step-IsConsistent (wake i k ch e f) h = stay i tt (λ l x q. cc) (λ l x q. cc) h
    Step-IsConsistent (finish i k ch b e) h = finish-IsConsistent i k ch b e h

    pub Reach-IsConsistent : {s : System K S E} → Reach dec s → IsConsistent s
    unfolding Fits
    Reach-IsConsistent start = record {
      sound = record {
        open_channel = λ k ch e. cc;
        made = λ k ch e. absurd (let bad : none ≡ some ch = e in cc);
        closed_made = λ ch e. absurd (let bad : false ≡ true = e in cc);
        apart = λ k j ch e f. cc;
        unset = λ k ch e. cc;
      };
      fits = λ i. tt;
      owner = λ k ch e. absurd (let bad : none ≡ some ch = e in cc);
      unique = λ i j k ch e f. cc;
    }
    Reach-IsConsistent (later r st) = Step-IsConsistent st (Reach-IsConsistent r)
