-- ===== src/Drafter/Taken.antt =====
-- anedraftimpl/ane_draft_darwin.go, feedToken: taking a token in.
use autoresearch_mlx_go_ane.Prelude.{
  ℕ, ◌≡◌, refl, ◌∙◌, ap, subst, sym, Bool, true, false, List, [], ◌∷◌, Option, none, some,
  if◌then◌else◌, inr,
}
use mathlib.Core.Option
use autoresearch_mlx_go_ane.Layer.{Result, good, bad}
use autoresearch_mlx_go_ane.Drafter.Runner.{Runner, step_runner}
use autoresearch_mlx_go_ane.Drafter.State.{
  Setup, Drafter, record_taps, logits_from_model_output, needs_reference_shadow,
}
use autoresearch_mlx_go_ane.Drafter.Feed
use autoresearch_mlx_go_ane.Drafter.Feed.{
  is_missing, fed_reference, feed_reference, reference_stepped, preferred, model_advanced, recorded,
  with_logits, model_evaluated, token_embedded, feed_model, feed_token,
}
use autoresearch_mlx_go_ane.Drafter.Contract.{Contract, Mode, InStep, IsSound, logits_after, Fed}
use autoresearch_mlx_go_ane.Drafter.Steps.{feed_reference-Fed}

module _ {M S X C E F : Type 0} {env : Setup M S X C E F} (law : Contract env) where
  -- What the step of the reference beside the model leaves alone.
  pub record Beside (d d' : Drafter M S C F) : Type 0 where
    pub same_mode : d'.reference_only ≡ d.reference_only
    pub same_history : d'.history ≡ d.history
    pub same_snapshots : d'.model_snapshots ≡ d.model_snapshots

  step-Beside :
      (d : Drafter M S C F) (t : ℕ) (o : Option (Runner C))
      → Beside d (Feed.step_reference env d t o).0
  step-Beside d t none = record { same_mode = refl; same_history = refl; same_snapshots = refl }
  step-Beside d t (some r) = choose (needs_reference_shadow env d) (step_runner env.backend r t)
    where
      choose :
          (b : Bool) (p : Runner C × Result E (List F))
          → Beside d (if b then reference_stepped env d p else (d, [])).0
      choose false p = record { same_mode = refl; same_history = refl; same_snapshots = refl }
      choose true (r', bad e) = record {
        same_mode = refl;
        same_history = refl;
        same_snapshots = refl;
      }
      choose true (r', good l) = record {
        same_mode = refl;
        same_history = refl;
        same_snapshots = refl;
      }

  chosen-model : (v refs : List F) → env.use_ref_logits ≡ false → preferred env v refs ≡ v
  chosen-model v refs e = rw e refl

  recorded-Fed :
      (d₀ d : Drafter M S C F) (t : ℕ) (m : M) (v refs : List F)
      → Beside d₀ d
      → d₀.reference_only ≡ false
      → v ≡ law.model_logits (t ∷ d₀.history)
      → ((m' : M) → env.engine.advance_position m ≡ (m', none) → law.Holds m' (t ∷ d₀.history))
      → (recorded env t m v (d, refs)).1 ≡ none
      → Fed law d₀ t (recorded env t m v (d, refs)).0
  recorded-Fed d₀ d t m v refs beside mode logits moves q =
      moved (env.engine.advance_position m) refl q
    where
      d₁ : Drafter M S C F
      d₁ = record d { recorder = Option.map record_taps d.recorder }

      moved :
          (p : M × Option E)
          → env.engine.advance_position m ≡ p
          → (model_advanced env d₁ t (preferred env v refs) p).1 ≡ none
          → Fed law d₀ t (model_advanced env d₁ t (preferred env v refs) p).0
      moved (m', some e) f q' = cc
      moved (m', none) f q' = record {
        same_mode = beside.same_mode;
        longer = ap (λ (g : List ℕ). t ∷ g) beside.same_history;
        in_step =
            subst (Mode law (model_advanced env d₁ t (preferred env v refs) (m', none)).0)
              (sym mode)
              (m', refl, subst (λ h. law.Holds m' (t ∷ h)) (sym beside.same_history) (moves m' f));
        same_snapshots = beside.same_snapshots;
        predicted = λ e.
            subst (λ b. preferred env v refs ≡ logits_after law b (t ∷ d₀.history)) (sym mode)
              (rw (chosen-model v refs e) logits);
      }

  with_logits-Fed :
      (d₀ d : Drafter M S C F) (t : ℕ) (m : M) (o : Result E (List F))
      → Beside d₀ d
      → d₀.reference_only ≡ false
      → ((v : List F)
          → o ≡ good v
          → (v ≡ law.model_logits (t ∷ d₀.history))
            × ((m' : M)
                → env.engine.advance_position m ≡ (m', none)
                → law.Holds m' (t ∷ d₀.history)))
      → (with_logits env d t m o).1 ≡ none
      → Fed law d₀ t (with_logits env d t m o).0
  with_logits-Fed d₀ d t m (bad e) beside mode k q = cc
  with_logits-Fed d₀ d t m (good v) beside mode k q =
      let p = Feed.step_reference env d t d.reference in
      let more = step-Beside d t d.reference in
      recorded-Fed d₀ p.0 t m v p.1
        (record {
          same_mode = more.same_mode ∙ beside.same_mode;
          same_history = more.same_history ∙ beside.same_history;
          same_snapshots = more.same_snapshots ∙ beside.same_snapshots;
        })
        mode (k v refl).0 (k v refl).1 q

  embedded-Fed :
      (d : Drafter M S C F) (embed : ℕ → Result E X) (t : ℕ) (m : M) (o : Result E X)
      → env.embed_token ≡ some embed
      → embed t ≡ o
      → d.reference_only ≡ false
      → law.Holds m d.history
      → (token_embedded env d t (some m) o).1 ≡ none
      → Fed law d t (token_embedded env d t (some m) o).0
  embedded-Fed d embed t m (bad e) f g mode k q = cc
  embedded-Fed d embed t m (good x) f g mode k q = after (env.engine.eval_token m x) refl q
    where
      after :
          (p : M × Result E (List F))
          → env.engine.eval_token m x ≡ p
          → (model_evaluated env d t p).1 ≡ none
          → Fed law d t (model_evaluated env d t p).0
      after (m', bad e) p q' = cc
      after (m', good out) p q' =
          with_logits-Fed d (record d { model = some m' }) t m' (logits_from_model_output env out)
            (record { same_mode = refl; same_history = refl; same_snapshots = refl }) mode
            (λ v e. law.evaluates embed m m' t d.history x out v f g k p e) q'

  feed_model-Fed :
      (d : Drafter M S C F) (t : ℕ) (o : Option (ℕ → Result E X))
      → env.embed_token ≡ o
      → d.reference_only ≡ false
      → Mode law d false
      → (feed_model env d t o).1 ≡ none
      → Fed law d t (feed_model env d t o).0
  feed_model-Fed d t none f mode k q = cc
  feed_model-Fed d t (some embed) f mode (m, e, k) q =
      subst
        (λ o.
          (token_embedded env d t o (embed t)).1 ≡ none
          → Fed law d t (token_embedded env d t o (embed t)).0)
        (sym e) (embedded-Fed d embed t m (embed t) f refl mode k) q

  pub feed_token-Fed :
      (d : Drafter M S C F) (t : ℕ)
      → InStep law d
      → (feed_token env d t).1 ≡ none
      → Fed law d t (feed_token env d t).0
  unfolding feed_token
  feed_token-Fed d t k q = choose d.reference_only refl k q
    where
      choose :
          (b : Bool)
          → d.reference_only ≡ b
          → Mode law d b
          → (if b then feed_reference env d t d.reference else feed_model env d t env.embed_token).1
            ≡ none
          → Fed law d t
              (if b
                then feed_reference env d t d.reference
                else feed_model env d t env.embed_token).0
      choose true e k' q' = feed_reference-Fed law d t e k' q'
      choose false e k' q' = feed_model-Fed d t env.embed_token refl e k' q'

  pub Fed-IsSound : {d d' : Drafter M S C F} {t : ℕ} → Fed law d t d' → IsSound law d'
  Fed-IsSound {d} {d'} {t} f = record {
    in_step = subst (Mode law d') (sym f.same_mode) f.in_step;
    aware = λ e. inr (
        subst (λ (p : Bool × List ℕ). d'.last_logits ≡ logits_after law p.0 p.1)
          (λ i. (sym f.same_mode i, sym f.longer i)) (f.predicted e));
  }
