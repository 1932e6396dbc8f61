-- ===== src/Drafter/Snapshots.antt =====
-- anedraftimpl/ane_draft_darwin.go, captureDraftSnapshot: the snapshots that a Rewind needs.
use autoresearch_mlx_go_ane.Prelude.{
  ℕ, zero, suc, ◌≡◌, refl, ◌∙◌, subst, sym, Bool, true, false, List, [], ◌∷◌, Option, none, some,
  ◌⊎◌, inl, inr, if◌then◌else◌,
}
use mathlib.Core.Option.{some-injective}
use autoresearch_mlx_go_ane.Layer.{Result, good, bad}
use autoresearch_mlx_go_ane.Drafter.State.{Setup, Drafter, next_token_from_output}
use autoresearch_mlx_go_ane.Drafter.Calls.{captured, capture_with, capture_draft_snapshot}
use autoresearch_mlx_go_ane.Drafter.Contract.{Contract, Mode, IsSound, logits_after}

module _ {M S X C E F : Type 0} {env : Setup M S X C E F} (law : Contract env) where
  -- Each token is the one that is selected from the logits after those before it.
  abbrev pub Greedy : Bool → List ℕ → List ℕ → Type 0
  Greedy b h [] = Unit
  Greedy b h (t ∷ ts) =
      (next_token_from_output env (logits_after law b h) ≡ good t) × Greedy b (t ∷ h) ts

  -- The newest `k` snapshots are those of the history without its newest 1, ..., k tokens. Where
  -- there are no snapshots at all, none is wrong.
  abbrev pub Covers : ℕ → List S → List ℕ → Type 0
  Covers zero ss h = Unit
  Covers (suc k) [] h = Unit
  Covers (suc k) (s ∷ ss) [] = ⊥
  Covers (suc k) (s ∷ ss) (t ∷ h) = law.HoldsSnapshot s h × Covers k ss h

  -- Snapshots are taken at each token, or never.
  abbrev pub Always : Type 0
  Always =
      (env.direct_model_ir ≡ true)
      × ((m : M) (h : List ℕ) → law.Holds m h → (s : S) × (env.engine.snapshot_state m ≡ good s))

  abbrev pub Never : Type 0
  Never =
      (env.direct_model_ir ≡ false) ⊎ ((m : M) → (e : E) × (env.engine.snapshot_state m ≡ bad e))

  abbrev pub Steady : List S → Type 0
  Steady ss = Always ⊎ (Never × (ss ≡ []))

  Covers-none : (k : ℕ) (h : List ℕ) → Covers k [] h
  Covers-none zero h = tt
  Covers-none (suc k) h = tt

  -- The capture touches the snapshots alone.
  pub record Captured (d d' : Drafter M S C F) (k : ℕ) (t : ℕ) : Type 0 where
    pub same_mode : d'.reference_only ≡ d.reference_only
    pub same_history : d'.history ≡ d.history
    pub sound : IsSound law d'
    pub same_logits : d'.last_logits ≡ d.last_logits
    pub steady : Steady d'.model_snapshots
    pub covers :
        d.reference_only ≡ false
        → Covers k d.model_snapshots d.history
        → Covers (suc k) d'.model_snapshots (t ∷ d.history)

  uncaptured :
      (d : Drafter M S C F) (k t : ℕ)
      → IsSound law d
      → Never × (d.model_snapshots ≡ [])
      → Captured d d k t
  uncaptured d k t v (never, e) = record {
    same_mode = refl;
    same_history = refl;
    sound = v;
    same_logits = refl;
    steady = inr (never, e);
    covers = λ mode c.
        subst (λ ss. Covers (suc k) ss (t ∷ d.history)) (sym e)
          (Covers-none (suc k) (t ∷ d.history));
  }

  with_snapshot :
      (d : Drafter M S C F) (s : S) (k t : ℕ)
      → IsSound law d
      → Always
      → (d.reference_only ≡ false → law.HoldsSnapshot s d.history)
      → Captured d (record d { model_snapshots = s ∷ d.model_snapshots }) k t
  with_snapshot d s k t v always holds = record {
    same_mode = refl;
    same_history = refl;
    sound = record { in_step = stays d.reference_only v.in_step; aware = v.aware };
    same_logits = refl;
    steady = inl always;
    covers = λ mode c. (holds mode, c);
  }
    where
      stays :
          (b : Bool)
          → Mode law d b
          → Mode law (record d { model_snapshots = s ∷ d.model_snapshots }) b
      stays false k' = k'
      stays true k' = k'

  -- Where nothing is captured although it should, the mode is the reference's.
  missed :
      (d : Drafter M S C F) (k t : ℕ)
      → IsSound law d
      → Always
      → ¬ (d.reference_only ≡ false)
      → Captured d d k t
  missed d k t v always not_model = record {
    same_mode = refl;
    same_history = refl;
    sound = v;
    same_logits = refl;
    steady = inl always;
    covers = λ mode c. absurd (not_model mode);
  }

  model_of :
      (d : Drafter M S C F)
      → IsSound law d
      → d.reference_only ≡ false
      → (m : M) × (d.model ≡ some m) × law.Holds m d.history
  model_of d v mode = subst (Mode law d) mode v.in_step

  captured-Captured :
      (d : Drafter M S C F) (m : M) (k t : ℕ) (o : Result E S)
      → env.engine.snapshot_state m ≡ o
      → d.model ≡ some m
      → IsSound law d
      → Always
      → Captured d (captured env d o) k t
  captured-Captured d m k t (good s) f g v always = with_snapshot d s k t v always (λ mode.
      let (m', e, h) = model_of d v mode in
      law.snapshots m s d.history
        (subst (λ x. law.Holds x d.history) (some-injective _ _ (sym e ∙ g)) h) f)
  captured-Captured d m k t (bad x) f g v always = missed d k t v always (λ mode.
      let (m', e, h) = model_of d v mode in
      let (s, r) =
        always.1 m d.history
          (subst (λ y. law.Holds y d.history) (some-injective _ _ (sym e ∙ g)) h) in
      cc)

  capture_with-Captured :
      (d : Drafter M S C F) (k t : ℕ) (o : Option M)
      → d.model ≡ o
      → IsSound law d
      → Steady d.model_snapshots
      → Captured d (capture_with env d o) k t
  capture_with-Captured d k t none f v (inr never) = uncaptured d k t v never
  capture_with-Captured d k t none f v (inl always) =
      missed d k t v always (λ mode. let (m, e, h) = model_of d v mode in cc)
  capture_with-Captured d k t (some m) f v (inl always) =
      subst (λ b. Captured d (if b then captured env d (env.engine.snapshot_state m) else d) k t)
        (sym always.0) (captured-Captured d m k t (env.engine.snapshot_state m) refl f v always)
  capture_with-Captured d k t (some m) f v (inr (inl off, e)) =
      subst (λ b. Captured d (if b then captured env d (env.engine.snapshot_state m) else d) k t)
        (sym off) (uncaptured d k t v (inl off, e))
  capture_with-Captured d k t (some m) f v (inr (inr fails, e)) =
      subst (λ o. Captured d (if env.direct_model_ir then captured env d o else d) k t)
        (sym (fails m).1) (either env.direct_model_ir)
    where
      either : (b : Bool) → Captured d (if b then captured env d (bad (fails m).0) else d) k t
      either true = uncaptured d k t v (inr fails, e)
      either false = uncaptured d k t v (inr fails, e)

  pub capture-Captured :
      (d : Drafter M S C F) (k t : ℕ)
      → IsSound law d
      → Steady d.model_snapshots
      → Captured d (capture_draft_snapshot env d) k t
  unfolding capture_draft_snapshot
  capture-Captured d k t v st = capture_with-Captured d k t d.model refl v st
