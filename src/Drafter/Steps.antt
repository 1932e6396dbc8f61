-- ===== src/Drafter/Steps.antt =====
-- anedraftimpl/ane_draft_darwin.go: a token that only the reference takes in.
use autoresearch_mlx_go_ane.Prelude.{
  ℕ, ◌≡◌, refl, ap, subst, sym, true, List, ◌∷◌, Option, none, some,
}
use autoresearch_mlx_go_ane.Layer.{Result, good, bad}
use autoresearch_mlx_go_ane.Drafter.Runner.{Runner, forwarded, step_with, step_runner}
use autoresearch_mlx_go_ane.Drafter.State.{Setup, Drafter}
use autoresearch_mlx_go_ane.Drafter.Feed.{fed_reference, feed_reference}
use autoresearch_mlx_go_ane.Drafter.Contract.{Contract, Follows, Mode, logits_after, Fed}

module _ {M S X C E F : Type 0} {env : Setup M S X C E F} (law : Contract env) where
  -- A step of the runner.
  pub record Stepped (h : List ℕ) (t : ℕ) (v : List F) (r : Runner C) : Type 0 where
    pub follows : Follows law r (t ∷ h)
    pub is_logits : v ≡ law.reference_logits (t ∷ h)

  step_with-Stepped :
      (o : Option (C → ℕ → Result E (C × Result E (List F)))) (r : Runner C) (h : List ℕ) (t : ℕ)
      (v : List F)
      → env.backend.forward ≡ o
      → Follows law r h
      → (step_with env.backend o r t).1 ≡ good v
      → Stepped h t v (step_with env.backend o r t).0
  step_with-Stepped none r h t v e k q = cc
  step_with-Stepped (some f) r h t v e k q = passed (f r.cache t) refl q
    where
      passed :
          (o : Result E (C × Result E (List F)))
          → f r.cache t ≡ o
          → (forwarded env.backend r t o).1 ≡ good v
          → Stepped h t v (forwarded env.backend r t o).0
      passed (bad x) p q' = cc
      passed (good (c, l)) p q' =
          let (holds, logits) = law.forwards f r.cache c t h l e k.holds p in
          record {
            follows = record { same = ap (λ (g : List ℕ). t ∷ g) k.same; holds = holds };
            is_logits = logits v q';
          }

  pub step_runner-Stepped :
      (r : Runner C) (h : List ℕ) (t : ℕ) (v : List F)
      → Follows law r h
      → (step_runner env.backend r t).1 ≡ good v
      → Stepped h t v (step_runner env.backend r t).0
  unfolding step_runner
  step_runner-Stepped r h t v = step_with-Stepped env.backend.forward r h t v refl

  fed_reference-Fed :
      (d : Drafter M S C F) (t : ℕ) (p : Runner C × Result E (List F))
      → ((v : List F) → p.1 ≡ good v → Stepped d.history t v p.0)
      → d.reference_only ≡ true
      → (fed_reference env d t p).1 ≡ none
      → Fed law d t (fed_reference env d t p).0
  fed_reference-Fed d t (r, bad e) k mode q = cc
  fed_reference-Fed d t (r, good l) k mode q = record {
    same_mode = refl;
    longer = refl;
    in_step =
        subst (Mode law (fed_reference env d t (r, good l)).0) (sym mode)
          (r, refl, (k l refl).follows);
    same_snapshots = refl;
    predicted =
        λ e. subst (λ b. l ≡ logits_after law b (t ∷ d.history)) (sym mode) (k l refl).is_logits;
  }

  pub feed_reference-Fed :
      (d : Drafter M S C F) (t : ℕ)
      → d.reference_only ≡ true
      → Mode law d true
      → (feed_reference env d t d.reference).1 ≡ none
      → Fed law d t (feed_reference env d t d.reference).0
  feed_reference-Fed d t mode (r, e, k) q =
      subst (λ o. (feed_reference env d t o).1 ≡ none → Fed law d t (feed_reference env d t o).0)
        (sym e)
        (fed_reference-Fed d t (step_runner env.backend r t)
          (λ v. step_runner-Stepped r d.history t v k) mode)
        q
