-- ===== src/Drafter/DriftTests.antt =====
-- The drafter of `Tests`, with a model that cannot be read and a reference without logits.
use autoresearch_mlx_go_ane.Prelude.{
  ℕ, ◌≡◌, refl, ◌∙◌, ap, sym, true, List, [], ◌∷◌, none, some, inr, drop,
}
use mathlib.Core.Option.{some-injective}
use autoresearch_mlx_go_ane.Layer.{Result, good, bad}
use autoresearch_mlx_go_ane.Drafter.State.{Setup, Drafter, platform}
use autoresearch_mlx_go_ane.Drafter.Feed.{feed_token}
use autoresearch_mlx_go_ane.Drafter.Calls.{capture_draft_snapshot, rewind_drafter}
use autoresearch_mlx_go_ane.Drafter.Contract.{Contract, IsSound}
use autoresearch_mlx_go_ane.Drafter.Drift.{unread_logits_drift, missed_snapshot-stale}
use autoresearch_mlx_go_ane.Drafter.Tests.{
  after, toy_engine, toy_backend, toy, good_of, untrimmed, unfailed, evaluate_toy, started,
}

abbrev faulty : Setup (ℕ × List ℕ) (List ℕ) ℕ (List ℕ) ℕ ℕ
faulty = record toy {
  engine = record toy_engine { snapshot_state = λ m. bad 9 };
  backend = record toy_backend { forward = some (λ c t. good (t ∷ c, bad 8)) };
}

forward_faulty :
    (f : List ℕ → ℕ → Result ℕ (List ℕ × Result ℕ (List ℕ))) (c c' : List ℕ) (t : ℕ) (h : List ℕ)
    (l : Result ℕ (List ℕ))
    → faulty.backend.forward ≡ some f
    → c ≡ h
    → f c t ≡ good (c', l)
    → (c' ≡ t ∷ h) × ((v : List ℕ) → l ≡ good v → v ≡ after (t ∷ h))
forward_faulty f c c' t h l e k q =
    let f_is : (λ d u. good (u ∷ d, bad 8)) ≡ f = some-injective _ _ e in
    let p : (t ∷ c, bad 8) ≡ (c', l) =
      good_of _ _
        (ap (λ (g : List ℕ → ℕ → Result ℕ (List ℕ × Result ℕ (List ℕ))). g c t) f_is ∙ q) in
    (
      sym (λ i. (p i).0) ∙ ap (λ (g : List ℕ). t ∷ g) k,
      λ v r. absurd (apart v ((λ i. (p i).1) ∙ r)),
    )
  where
    apart : (v : List ℕ) → ◌≡◌ {A = Result ℕ (List ℕ)} (bad 8) (good v) → ⊥
    apart v x = cc

unread : (m : ℕ × List ℕ) (s h : List ℕ) → m.1 ≡ h → faulty.engine.snapshot_state m ≡ good s → s ≡ h
unread m s h k e = cc

abbrev faulty_law : Contract faulty
faulty_law = record {
  Holds = λ m h. m.1 ≡ h;
  HoldsCache = λ c h. c ≡ h;
  HoldsSnapshot = λ s h. s ≡ h;
  model_logits = after;
  reference_logits = after;
  first_cache = [];
  is_first = refl;
  starts = refl;
  forwards = forward_faulty;
  trims = untrimmed;
  resets = λ m m' e. sym (λ i. (e i).0.1);
  evaluates = evaluate_toy;
  snapshots = unread;
  restores = λ m m' s g h k f e. sym (λ i. (e i).0.1) ∙ f;
  rewinds = λ m m' n h k e. sym (λ i. (e i).0.1) ∙ ap (drop n) k;
  restore_fails = λ m m' m'' s n h e k q r. unfailed _ m' e (m''.1 ≡ drop n h) q;
}

-- A drafter that draws from its reference.
abbrev referring : Drafter (ℕ × List ℕ) (List ℕ) (List ℕ) ℕ
referring = record started {
  model = none;
  reference = some (record { cache = 1 ∷ []; step_count = 1; history = 1 ∷ [] });
  reference_only = true;
}

referring-IsSound : IsSound faulty_law referring
referring-IsSound = record {
  in_step = (
    record { cache = 1 ∷ []; step_count = 1; history = 1 ∷ [] },
    refl,
    record { same = refl; holds = refl },
  );
  aware = λ e. inr refl;
}

unread_logits_drift_example :
    ((feed_token faulty referring 0).1 ≡ some (platform 8))
    × ((feed_token faulty referring 0).0.history ≡ 1 ∷ [])
    × (¬ IsSound faulty_law (feed_token faulty referring 0).0)
unread_logits_drift_example =
    unread_logits_drift faulty_law referring
      (record { cache = 1 ∷ []; step_count = 1; history = 1 ∷ [] }) (λ c t. good (t ∷ c, bad 8))
      (0 ∷ 1 ∷ []) 0 8 referring-IsSound refl refl refl refl

-- A drafter with a snapshot of the empty history.
abbrev snapped : Drafter (ℕ × List ℕ) (List ℕ) (List ℕ) ℕ
snapped = record started { model_snapshots = [] ∷ [] }

missed_snapshot-stale_example :
    let d' =
      rewind_drafter faulty (feed_token faulty (capture_draft_snapshot faulty snapped) 0).0 1 in
    (d'.1 ≡ none) × (d'.0.history ≡ 1 ∷ []) × (d'.0.model ≡ some (0, [])) × (◌≡◌ {A = List ℕ} [] [])
unfolding feed_token capture_draft_snapshot
missed_snapshot-stale_example =
    missed_snapshot-stale faulty_law snapped (1, 1 ∷ []) (0, 0 ∷ 1 ∷ []) (0, []) [] [] [] 0 9
      (record { in_step = ((1, 1 ∷ []), refl, refl); aware = λ e. inr refl }) refl refl refl refl
      refl refl refl refl refl
