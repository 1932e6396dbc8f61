-- ===== src/Drafter/Answers.antt =====
-- anedraftimpl/ane_draft_darwin.go, Draft: what a call that succeeds gives and leaves.
use autoresearch_mlx_go_ane.Prelude.{
  ℕ, zero, suc, ◌+◌, ◌≡◌, refl, ◌∙◌, ap, subst, sym, Bool, true, false, ◌&&◌, not, List, [], ◌∷◌,
  ◌++◌, Option, none, some, ◌⊎◌, inl, inr, if◌then◌else◌, length, arith,
}
use mathlib.Core.List.{reverse}
use autoresearch_mlx_go_ane.Layer.{Result, good, bad}
use autoresearch_mlx_go_ane.Drafter.State.{Setup, Drafter, DraftFault}
use autoresearch_mlx_go_ane.Drafter.Feed.{is_missing, feed_token}
use autoresearch_mlx_go_ane.Drafter.Calls.{
  ends_with, corrected, ensure_token_state, next_token, with_token, fed_drafted, draft_next,
  draft_tokens, draft_counted, ensured,
}
use autoresearch_mlx_go_ane.Drafter.Contract.{Contract, Follows, Mode, IsSound, logits_after}
use autoresearch_mlx_go_ane.Drafter.Taken.{feed_token-Fed, Fed-IsSound}
use autoresearch_mlx_go_ane.Drafter.Replay.{good-injective}
use autoresearch_mlx_go_ane.Drafter.Snapshots.{Greedy, Covers, Steady}
use autoresearch_mlx_go_ane.Drafter.Drafts.{Drafted, draft_tokens-Drafted}

module _ {M S X C E F : Type 0} (env : Setup M S X C E F) where
  with_token-length :
      (n t : ℕ) (ts : List ℕ) (p : Drafter M S C F × Result (DraftFault E) (List ℕ))
      → ((us : List ℕ) → p.1 ≡ good us → length us ≡ n)
      → (with_token env t p).1 ≡ good ts
      → length ts ≡ suc n
  with_token-length n t ts (d, bad e) f q = cc
  with_token-length n t ts (d, good us) f q =
      sym (ap length (good-injective (t ∷ us) ts q)) ∙ ap suc (f us refl)

  pub draft_tokens-length :
      (n : ℕ) (d : Drafter M S C F) (ts : List ℕ)
      → (draft_tokens env n d).1 ≡ good ts
      → length ts ≡ n
  unfolding draft_tokens
  draft_tokens-length zero d ts q = sym (ap length (good-injective [] ts q))
  draft_tokens-length (suc n) d ts q = select (draft_tokens env n) (draft_tokens-length n) q
    where
      fed :
          (rest : Drafter M S C F → Drafter M S C F × Result (DraftFault E) (List ℕ)) (t : ℕ)
          (p : Drafter M S C F × Option (DraftFault E))
          → ((d' : Drafter M S C F) (us : List ℕ) → (rest d').1 ≡ good us → length us ≡ n)
          → (fed_drafted env rest t p).1 ≡ good ts
          → length ts ≡ suc n
      fed rest t (d', some e) f q' = cc
      fed rest t (d', none) f q' = with_token-length n t ts (rest d') (f d') q'

      next :
          (rest : Drafter M S C F → Drafter M S C F × Result (DraftFault E) (List ℕ))
          (o : Result (DraftFault E) ℕ)
          → ((d' : Drafter M S C F) (us : List ℕ) → (rest d').1 ≡ good us → length us ≡ n)
          → (draft_next env rest d o).1 ≡ good ts
          → length ts ≡ suc n
      next rest (bad e) f q' = cc
      next rest (good t) f q' = fed rest t _ f q'

      select :
          (rest : Drafter M S C F → Drafter M S C F × Result (DraftFault E) (List ℕ))
          → ((d' : Drafter M S C F) (us : List ℕ) → (rest d').1 ≡ good us → length us ≡ n)
          → (draft_next env rest d (next_token env d)).1 ≡ good ts
          → length ts ≡ suc n
      select rest f q' = next rest (next_token env d) f q'

module _ {M S X C E F : Type 0} {env : Setup M S X C E F} (law : Contract env) where
  -- A drafter that agrees with a sound one in what matters.
  pub same-IsSound :
      (d d' : Drafter M S C F)
      → d'.reference_only ≡ d.reference_only
      → d'.model ≡ d.model
      → d'.reference ≡ d.reference
      → d'.history ≡ d.history
      → d'.last_logits ≡ d.last_logits
      → IsSound law d
      → IsSound law d'
  same-IsSound d d' mode model reference history logits v = record {
    in_step = subst (Mode law d') (sym mode) (moved d.reference_only v.in_step);
    aware = λ e.
        subst
          (λ (p : (List F × Bool) × List ℕ). (p.0.0 ≡ []) ⊎ (p.0.0 ≡ logits_after law p.0.1 p.1))
          (λ i. ((sym logits i, sym mode i), sym history i)) (v.aware e);
  }
    where
      moved : (b : Bool) → Mode law d b → Mode law d' b
      moved false (m, e, h) = (m, model ∙ e, subst (law.Holds m) (sym history) h)
      moved true (r, e, h) = (r, reference ∙ e, subst (Follows law r) (sym history) h)

  -- What a Draft of width `n` after the token `t` gives: `base` is the history with `t` at its end.
  pub record Answer (d : Drafter M S C F) (t n : ℕ) (ts : List ℕ) (d' : Drafter M S C F)
      : Type 0 where
    pub base : List ℕ
    pub ends : (base ≡ t ∷ d.history) ⊎ ((base ≡ d.history) × (ends_with env d.history t ≡ true))
    pub longer : d'.history ≡ reverse ts ++ base
    pub wide : length ts ≡ n
    pub greedy : env.use_ref_logits ≡ false → Greedy law d'.reference_only base ts
    pub sound : IsSound law d'
    pub steady : Steady law d'.model_snapshots
    pub covers : d'.reference_only ≡ false → Covers law (length ts) d'.model_snapshots d'.history

  counted-Answer :
      (d₀ d : Drafter M S C F) (t n : ℕ) (ts : List ℕ)
      → (d.history ≡ t ∷ d₀.history)
        ⊎ ((d.history ≡ d₀.history) × (ends_with env d₀.history t ≡ true))
      → IsSound law d
      → Steady law d.model_snapshots
      → (draft_counted env (draft_tokens env n d)).1 ≡ good ts
      → Answer d₀ t n ts (draft_counted env (draft_tokens env n d)).0
  counted-Answer d₀ d t n ts ends v st q =
      choose (draft_tokens env n d)
        (λ us e.
          (draft_tokens-Drafted law n 0 d us v st (λ e'. tt) e, draft_tokens-length env n d us e))
        q
    where
      choose :
          (p : Drafter M S C F × Result (DraftFault E) (List ℕ))
          → ((us : List ℕ) → p.1 ≡ good us → Drafted law 0 d us p.0 × (length us ≡ n))
          → (draft_counted env p).1 ≡ good ts
          → Answer d₀ t n ts (draft_counted env p).0
      choose (d', bad e) f q' = cc
      choose (d', good us) f q' =
          let (r, l) = f us refl in
          let d'' : Drafter M S C F = record d' { drafted_count = d'.drafted_count + length us } in
          subst (λ vs. Answer d₀ t n vs d'') (good-injective us ts q')
            (record {
              base = d.history;
              ends = ends;
              longer = r.longer;
              wide = l;
              greedy = λ e. subst (λ b. Greedy law b d.history us) (sym r.same_mode) (r.greedy e);
              sound = same-IsSound d' d'' refl refl refl refl refl r.sound;
              steady = r.steady;
              covers = λ e.
                  subst (λ j. Covers law j d'.model_snapshots d'.history) (omega arith)
                    (r.covers (sym r.same_mode ∙ e));
            })

  corrected-IsSound :
      (h : List ℕ) (d : Drafter M S C F) → IsSound law d → IsSound law (corrected env h d)
  corrected-IsSound [] d v = v
  corrected-IsSound (t ∷ h) d v =
      same-IsSound d (corrected env (t ∷ h) d) refl refl refl refl refl v

  corrected_keeps :
      (h : List ℕ) (d : Drafter M S C F)
      → ((corrected env h d).history ≡ d.history)
        × ((corrected env h d).model_snapshots ≡ d.model_snapshots)
  corrected_keeps [] d = (refl, refl)
  corrected_keeps (t ∷ h) d = (refl, refl)

  ensured-Answer :
      (d₀ : Drafter M S C F) (t n : ℕ) (ts : List ℕ) (p : Drafter M S C F × Option (DraftFault E))
      → (p.1 ≡ none
          → ((p.0.history ≡ t ∷ d₀.history)
              ⊎ ((p.0.history ≡ d₀.history) × (ends_with env d₀.history t ≡ true)))
            × IsSound law p.0
            × Steady law p.0.model_snapshots)
      → (ensured env n p).1 ≡ good ts
      → Answer d₀ t n ts (ensured env n p).0
  ensured-Answer d₀ t n ts (d, some e) f q = cc
  ensured-Answer d₀ t n ts (d, none) f q =
      let (ends, v, st) = f refl in counted-Answer d₀ d t n ts ends v st q

  pub ensure-Answer :
      (d : Drafter M S C F) (t n : ℕ) (ts : List ℕ)
      → IsSound law d
      → Steady law d.model_snapshots
      → (ensured env n (ensure_token_state env d t)).1 ≡ good ts
      → Answer d t n ts (ensured env n (ensure_token_state env d t)).0
  unfolding ensure_token_state
  ensure-Answer d t n ts v st q =
      choose (ends_with env d.history t) (is_missing d.last_logits) refl q
    where
      d₁ : Drafter M S C F
      d₁ = corrected env d.history d

      fed :
          (feed_token env d₁ t).1 ≡ none
          → (((feed_token env d₁ t).0.history ≡ t ∷ d.history)
              ⊎ (((feed_token env d₁ t).0.history ≡ d.history)
                  × (ends_with env d.history t ≡ true)))
            × IsSound law (feed_token env d₁ t).0
            × Steady law (feed_token env d₁ t).0.model_snapshots
      fed e =
          let (h, s) = corrected_keeps d.history d in
          let f = feed_token-Fed law d₁ t (corrected-IsSound d.history d v).in_step e in
          (
            inl (f.longer ∙ ap (λ (g : List ℕ). t ∷ g) h),
            Fed-IsSound law f,
            subst (Steady law) (sym (f.same_snapshots ∙ s)) st,
          )

      choose :
          (a b : Bool)
          → ends_with env d.history t ≡ a
          → (ensured env n (if a && not b then (d, none) else feed_token env d₁ t)).1 ≡ good ts
          → Answer d t n ts
              (ensured env n (if a && not b then (d, none) else feed_token env d₁ t)).0
      choose true false e q' = counted-Answer d d t n ts (inr (refl, e)) v st q'
      choose true true e q' = ensured-Answer d t n ts (feed_token env d₁ t) fed q'
      choose false b e q' = ensured-Answer d t n ts (feed_token env d₁ t) fed q'
