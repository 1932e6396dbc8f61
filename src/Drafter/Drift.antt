-- ===== src/Drafter/Drift.antt =====
-- anedraftimpl/ane_draft_darwin.go: failures of the reference and of a snapshot.
use autoresearch_mlx_go_ane.Prelude.{
  ℕ, ◌+◌, ◌≡◌, refl, ◌∙◌, ap, subst, sym, Bool, true, false, List, [], ◌∷◌, Option, none, some,
  if◌then◌else◌, length, arith,
}
use mathlib.Core.Option.{some-injective}
use autoresearch_mlx_go_ane.Layer.{Result, good, bad}
use autoresearch_mlx_go_ane.Drafter.Runner.{Runner, forwarded, step_with, step_runner}
use autoresearch_mlx_go_ane.Drafter.State.{Setup, Drafter, DraftFault, platform}
use autoresearch_mlx_go_ane.Drafter.Feed.{fed_reference, feed_reference, feed_model, feed_token}
use autoresearch_mlx_go_ane.Drafter.Calls.{
  captured, capture_with, capture_draft_snapshot, rewind_drafter,
}
use autoresearch_mlx_go_ane.Drafter.Contract.{Contract, Mode, IsSound}
use autoresearch_mlx_go_ane.Drafter.Taken.{feed_token-Fed}

module _ {M S X C E F : Type 0} {env : Setup M S X C E F} (law : Contract env) where
  -- The drafter after a step of the reference whose logits could not be read.
  ahead : Drafter M S C F → Runner C → C → ℕ → Drafter M S C F
  ahead d r c t = record d {
    reference = some (record { cache = c; step_count = r.step_count + 1; history = t ∷ r.history });
  }

  feed_unread :
      (d : Drafter M S C F) (r : Runner C) (f : C → ℕ → Result E (C × Result E (List F))) (c : C)
      (t : ℕ) (e : E)
      → d.reference_only ≡ true
      → d.reference ≡ some r
      → env.backend.forward ≡ some f
      → f r.cache t ≡ good (c, bad e)
      → feed_token env d t ≡ (ahead d r c t, some (platform e))
  unfolding feed_token step_runner ahead
  feed_unread d r f c t e mode has fwd pass =
      ap (λ b. if b then feed_reference env d t d.reference else feed_model env d t env.embed_token)
        mode
      ∙ ap (feed_reference env d t) has
      ∙ ap (λ o. fed_reference env d t (step_with env.backend o r t)) fwd
      ∙ ap (λ o. fed_reference env d t (forwarded env.backend r t o)) pass

  too_long : (t : ℕ) (h : List ℕ) → t ∷ h ≡ h → ⊥
  too_long t h e = absurd (omega (arith, ap length e))

  -- In reference-only mode, when the logits of a forward pass cannot be read: the token is refused
  -- and the history of a sound drafter is as it was, but the drafter is not sound any more.
  pub unread_logits_drift :
      (d : Drafter M S C F) (r : Runner C) (f : C → ℕ → Result E (C × Result E (List F))) (c : C)
      (t : ℕ) (e : E)
      → IsSound law d
      → d.reference_only ≡ true
      → d.reference ≡ some r
      → env.backend.forward ≡ some f
      → f r.cache t ≡ good (c, bad e)
      → ((feed_token env d t).1 ≡ some (platform e))
        × ((feed_token env d t).0.history ≡ d.history)
        × (¬ IsSound law (feed_token env d t).0)
  unfolding ahead
  unread_logits_drift d r f c t e v mode has fwd pass =
      let p = feed_unread d r f c t e mode has fwd pass in
      (
        ap (λ (q : Drafter M S C F × Option (DraftFault E)). q.1) p,
        ap (λ (q : Drafter M S C F × Option (DraftFault E)). q.0.history) p,
        λ w.
            let (r', g, k) =
              subst (Mode law (ahead d r c t)) mode
                (subst (λ (q : Drafter M S C F × Option (DraftFault E)). IsSound law q.0) p
                  w).in_step in
            let (r₀, g₀, k₀) = subst (Mode law d) mode v.in_step in
            let same : r.history ≡ d.history =
              ap (λ (x : Runner C). x.history) (some-injective _ _ (sym has ∙ g₀)) ∙ k₀.same in
            let longer : t ∷ r.history ≡ d.history =
              ap (λ (x : Runner C). x.history) (some-injective _ _ g) ∙ k.same in
            too_long t r.history (longer ∙ sym same),
      )

  rewind_one :
      (d : Drafter M S C F) (m m' : M) (s : S) (ss : List S) (t : ℕ) (h : List ℕ)
      → d.history ≡ t ∷ h
      → d.model ≡ some m
      → d.model_snapshots ≡ s ∷ ss
      → d.reference ≡ none
      → env.engine.restore_state m s ≡ (m', none)
      → rewind_drafter env d 1 ≡ (
        record d {
          model = some m';
          model_snapshots = ss;
          rewound_count = d.rewound_count + 1;
          history = h;
          last_logits = [];
        },
        none,
      )
  unfolding rewind_drafter
  rewind_one d m m' s ss t h e f g k r = ground arith

  capture_missed :
      (d : Drafter M S C F) (m : M) (e : E)
      → d.model ≡ some m
      → env.engine.snapshot_state m ≡ bad e
      → capture_draft_snapshot env d ≡ d
  unfolding capture_draft_snapshot
  capture_missed d m e f g = ap (capture_with env d) f ∙ either env.direct_model_ir
    where
      either : (b : Bool) → (if b then captured env d (env.engine.snapshot_state m) else d) ≡ d
      either true = ap (captured env d) g
      either false = refl

  -- In model mode without a reference, when the snapshot before a token cannot be taken and the
  -- newest snapshot that is left is from a history `g`: after the token is taken in and rewound
  -- again by that snapshot, the drafter has its history back, with nothing to log, but the model is
  -- at `g`.
  pub missed_snapshot-stale :
      (d : Drafter M S C F) (m m₁ m₂ : M) (s : S) (ss : List S) (g : List ℕ) (t : ℕ) (e : E)
      → IsSound law d
      → d.reference_only ≡ false
      → d.model ≡ some m
      → d.model_snapshots ≡ s ∷ ss
      → law.HoldsSnapshot s g
      → env.engine.snapshot_state m ≡ bad e
      → (feed_token env (capture_draft_snapshot env d) t).1 ≡ none
      → (feed_token env (capture_draft_snapshot env d) t).0.reference ≡ none
      → (feed_token env (capture_draft_snapshot env d) t).0.model ≡ some m₁
      → env.engine.restore_state m₁ s ≡ (m₂, none)
      → let d' = rewind_drafter env (feed_token env (capture_draft_snapshot env d) t).0 1 in
        (d'.1 ≡ none) × (d'.0.history ≡ d.history) × (d'.0.model ≡ some m₂) × law.Holds m₂ g
  missed_snapshot-stale d m m₁ m₂ s ss g t e v mode f k hold missed fed no_ref has res =
      let d₁ = (feed_token env (capture_draft_snapshot env d) t).0 in
      let same = capture_missed d m e f missed in
      let step =
        feed_token-Fed law (capture_draft_snapshot env d) t
          (subst (λ z. IsSound law z) (sym same) v).in_step fed in
      let longer : d₁.history ≡ t ∷ d.history =
        step.longer ∙ ap (λ (z : Drafter M S C F). t ∷ z.history) same in
      let q =
        rewind_one d₁ m₁ m₂ s ss t d.history longer has
          (step.same_snapshots ∙ ap (λ (z : Drafter M S C F). z.model_snapshots) same ∙ k) no_ref
          res in
      let mode₁ : (capture_draft_snapshot env d).reference_only ≡ false =
        ap (λ (z : Drafter M S C F). z.reference_only) same ∙ mode in
      let (m', has', holds) = subst (Mode law d₁) mode₁ step.in_step in
      (
        ap (λ (z : Drafter M S C F × Option (DraftFault E)). z.1) q,
        ap (λ (z : Drafter M S C F × Option (DraftFault E)). z.0.history) q,
        ap (λ (z : Drafter M S C F × Option (DraftFault E)). z.0.model) q,
        law.restores m₁ m₂ s d₁.history g
            (subst (λ z. law.Holds z d₁.history) (some-injective _ _ (sym has' ∙ has)) holds) hold
            res,
      )
