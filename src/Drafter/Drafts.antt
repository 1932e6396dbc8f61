-- ===== src/Drafter/Drafts.antt =====
-- anedraftimpl/ane_draft_darwin.go: the loop of Draft over its tokens.
use autoresearch_mlx_go_ane.Prelude.{
  ℕ, zero, suc, ◌+◌, ◌≡◌, refl, ◌∙◌, ap, subst, sym, Bool, true, false, List, [], ◌∷◌, ◌++◌, Option,
  none, some, ◌⊎◌, inl, inr, if◌then◌else◌, length, arith,
}
use mathlib.Core.List.{reverse}
use autoresearch_mlx_go_ane.Layer.{Result, good, bad}
use autoresearch_mlx_go_ane.Drafter.State.{
  Setup, Drafter, DraftFault, logits_missing, next_token_from_output,
}
use autoresearch_mlx_go_ane.Drafter.Feed.{is_missing, feed_token}
use autoresearch_mlx_go_ane.Drafter.Calls.{
  capture_draft_snapshot, next_token, with_token, fed_drafted, draft_next, draft_tokens,
}
use autoresearch_mlx_go_ane.Drafter.Contract.{Contract, IsSound, logits_after, Fed}
use autoresearch_mlx_go_ane.Drafter.Taken.{feed_token-Fed, Fed-IsSound}
use autoresearch_mlx_go_ane.Drafter.Replay.{good-injective, reverse_onto}
use autoresearch_mlx_go_ane.Drafter.Snapshots.{Greedy, Covers, Steady, Captured, capture-Captured}

module _ {M S X C E F : Type 0} {env : Setup M S X C E F} (law : Contract env) where
  -- Tokens drafted from `d`, with `k` snapshots already good.
  pub record Drafted (k : ℕ) (d : Drafter M S C F) (ts : List ℕ) (d' : Drafter M S C F)
      : Type 0 where
    pub same_mode : d'.reference_only ≡ d.reference_only
    pub longer : d'.history ≡ reverse ts ++ d.history
    pub sound : IsSound law d'
    pub steady : Steady law d'.model_snapshots
    pub covers : d.reference_only ≡ false → Covers law (length ts + k) d'.model_snapshots d'.history
    pub greedy : env.use_ref_logits ≡ false → Greedy law d.reference_only d.history ts

  next_token-known :
      (d : Drafter M S C F) (t : ℕ) (b : Bool) (h : List ℕ)
      → (d.last_logits ≡ []) ⊎ (d.last_logits ≡ logits_after law b h)
      → next_token env d ≡ good t
      → next_token_from_output env (logits_after law b h) ≡ good t
  next_token-known d t b h (inl e) q = absurd (
      none_of (
        subst
          (λ l.
            (if is_missing l then bad logits_missing else next_token_from_output env l) ≡ good t)
          e q))
    where
      none_of : ◌≡◌ {A = Result (DraftFault E) ℕ} (bad logits_missing) (good t) → ⊥
      none_of x = cc
  next_token-known d t b h (inr e) q = known (is_missing d.last_logits) q
    where
      known :
          (z : Bool)
          → (if z then bad logits_missing else next_token_from_output env d.last_logits) ≡ good t
          → next_token_from_output env (logits_after law b h) ≡ good t
      known true q' = cc
      known false q' = subst (λ l. next_token_from_output env l ≡ good t) e q'

  no_more :
      (k : ℕ) (d : Drafter M S C F)
      → IsSound law d
      → Steady law d.model_snapshots
      → (d.reference_only ≡ false → Covers law k d.model_snapshots d.history)
      → Drafted k d [] d
  no_more k d v st c = record {
    same_mode = refl;
    longer = refl;
    sound = v;
    steady = st;
    covers = λ mode. subst (λ j. Covers law j d.model_snapshots d.history) (omega arith) (c mode);
    greedy = λ e. tt;
  }

  -- One token in front of the others.
  one_more :
      (k : ℕ) (d d₁ d₂ d₃ : Drafter M S C F) (t : ℕ) (ts : List ℕ)
      → (env.use_ref_logits ≡ false
          → next_token_from_output env (logits_after law d.reference_only d.history) ≡ good t)
      → Captured law d d₁ k t
      → Fed law d₁ t d₂
      → Drafted (suc k) d₂ ts d₃
      → Drafted k d (t ∷ ts) d₃
  one_more k d d₁ d₂ d₃ t ts preferred c f r = record {
    same_mode = r.same_mode ∙ mode;
    longer = r.longer ∙ ap (λ h. reverse ts ++ h) step ∙ reverse_onto t ts d.history;
    sound = r.sound;
    steady = r.steady;
    covers = λ e.
        subst (λ j. Covers law j d₃.model_snapshots d₃.history) (omega arith) (r.covers (mode ∙ e));
    greedy = λ e. (
      preferred e,
      subst (λ (p : Bool × List ℕ). Greedy law p.0 p.1 ts) (λ i. (mode i, step i)) (r.greedy e),
    );
  }
    where
      mode : d₂.reference_only ≡ d.reference_only
      mode = f.same_mode ∙ c.same_mode

      step : d₂.history ≡ t ∷ d.history
      step = f.longer ∙ ap (λ (h : List ℕ). t ∷ h) c.same_history

  -- The snapshots after one more token.
  Captured-Covers :
      (k : ℕ) (d d₁ d₂ : Drafter M S C F) (t : ℕ)
      → Captured law d d₁ k t
      → Fed law d₁ t d₂
      → (d.reference_only ≡ false → Covers law k d.model_snapshots d.history)
      → d₂.reference_only ≡ false
      → Covers law (suc k) d₂.model_snapshots d₂.history
  Captured-Covers k d d₁ d₂ t c f h e =
      let e' = sym (f.same_mode ∙ c.same_mode) ∙ e in
      subst (λ (p : List S × List ℕ). Covers law (suc k) p.0 p.1)
        (λ i.
          (sym f.same_snapshots i, sym (f.longer ∙ ap (λ (g : List ℕ). t ∷ g) c.same_history) i))
        (c.covers e' (h e'))

  -- What the rest of the loop does, from a drafter with `k` good snapshots.
  Continues : ℕ → (Drafter M S C F → Drafter M S C F × Result (DraftFault E) (List ℕ)) → Type 0
  Continues k rest =
      (d : Drafter M S C F) (ts : List ℕ)
      → IsSound law d
      → Steady law d.model_snapshots
      → (d.reference_only ≡ false → Covers law k d.model_snapshots d.history)
      → (rest d).1 ≡ good ts
      → Drafted k d ts (rest d).0

  with_token-Drafted :
      (k : ℕ) (d d₁ d₂ : Drafter M S C F) (t : ℕ) (ts : List ℕ)
      (p : Drafter M S C F × Result (DraftFault E) (List ℕ))
      → ((us : List ℕ) → p.1 ≡ good us → Drafted k d (t ∷ us) p.0)
      → (with_token env t p).1 ≡ good ts
      → Drafted k d ts (with_token env t p).0
  with_token-Drafted k d d₁ d₂ t ts (d₃, bad e) f q = cc
  with_token-Drafted k d d₁ d₂ t ts (d₃, good us) f q =
      subst (λ vs. Drafted k d vs d₃) (good-injective (t ∷ us) ts q) (f us refl)

  fed_drafted-Drafted :
      (k : ℕ) (d d₁ : Drafter M S C F) (t : ℕ) (ts : List ℕ)
      (rest : Drafter M S C F → Drafter M S C F × Result (DraftFault E) (List ℕ))
      (p : Drafter M S C F × Option (DraftFault E))
      → Continues (suc k) rest
      → (env.use_ref_logits ≡ false
          → next_token_from_output env (logits_after law d.reference_only d.history) ≡ good t)
      → Captured law d d₁ k t
      → (d.reference_only ≡ false → Covers law k d.model_snapshots d.history)
      → (p.1 ≡ none → Fed law d₁ t p.0)
      → (fed_drafted env rest t p).1 ≡ good ts
      → Drafted k d ts (fed_drafted env rest t p).0
  unfolding Continues
  fed_drafted-Drafted k d d₁ t ts rest (d₂, some e) ih preferred c h f q = cc
  fed_drafted-Drafted k d d₁ t ts rest (d₂, none) ih preferred c h f q =
      let one = f refl in
      with_token-Drafted k d d₁ d₂ t ts (rest d₂)
        (λ us e. one_more k d d₁ d₂ (rest d₂).0 t us preferred c one (
          ih d₂ us (Fed-IsSound law one) (subst (Steady law) (sym one.same_snapshots) c.steady)
            (Captured-Covers k d d₁ d₂ t c one h) e))
        q

  draft_next-Drafted :
      (k : ℕ) (d : Drafter M S C F) (ts : List ℕ)
      (rest : Drafter M S C F → Drafter M S C F × Result (DraftFault E) (List ℕ))
      (o : Result (DraftFault E) ℕ)
      → Continues (suc k) rest
      → next_token env d ≡ o
      → IsSound law d
      → Steady law d.model_snapshots
      → (d.reference_only ≡ false → Covers law k d.model_snapshots d.history)
      → (draft_next env rest d o).1 ≡ good ts
      → Drafted k d ts (draft_next env rest d o).0
  draft_next-Drafted k d ts rest (bad e) ih f v st h q = cc
  draft_next-Drafted k d ts rest (good t) ih f v st h q =
      let c = capture-Captured law d k t v st in
      fed_drafted-Drafted k d (capture_draft_snapshot env d) t ts rest
        (feed_token env (capture_draft_snapshot env d) t) ih
        (λ e. next_token-known d t d.reference_only d.history (v.aware e) f) c h
        (feed_token-Fed law (capture_draft_snapshot env d) t c.sound.in_step) q

  pub draft_tokens-Drafted :
      (n k : ℕ) (d : Drafter M S C F) (ts : List ℕ)
      → IsSound law d
      → Steady law d.model_snapshots
      → (d.reference_only ≡ false → Covers law k d.model_snapshots d.history)
      → (draft_tokens env n d).1 ≡ good ts
      → Drafted k d ts (draft_tokens env n d).0
  unfolding draft_tokens Continues
  draft_tokens-Drafted zero k d ts v st c q =
      subst (λ us. Drafted k d us d) (good-injective [] ts q) (no_more k d v st c)
  draft_tokens-Drafted (suc n) k d ts v st c q =
      draft_next-Drafted k d ts (draft_tokens env n) (next_token env d)
        (draft_tokens-Drafted n (suc k)) refl v st c q
