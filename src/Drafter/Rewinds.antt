-- ===== src/Drafter/Rewinds.antt =====
-- anedraftimpl/ane_draft_darwin.go, Rewind: every way back leads to the shorter history.
use autoresearch_mlx_go_ane.Prelude.{
  ℕ, ◌≡◌, refl, ◌∙◌, subst, sym, Bool, true, false, List, [], Option, none, some, ◌⊎◌, inl, inr,
  if◌then◌else◌, drop,
}
use mathlib.Core.Option.{some-injective}
use autoresearch_mlx_go_ane.Drafter.Runner.{Runner, rewind_runner}
use autoresearch_mlx_go_ane.Drafter.State.{Setup, Drafter, DraftFault, needs_reference_shadow}
use autoresearch_mlx_go_ane.Drafter.Feed.{rebuild_state}
use autoresearch_mlx_go_ane.Drafter.Calls.{rewound_reference, rewind_with}
use autoresearch_mlx_go_ane.Drafter.Contract.{Contract, Follows, Mode}
use autoresearch_mlx_go_ane.Drafter.Trims.{rewind_runner-Follows}
use autoresearch_mlx_go_ane.Drafter.Rebuild.{Moved, rebuild-Moved}

module _ {M S X C E F : Type 0} {env : Setup M S X C E F} (law : Contract env) where
  -- Rewind has shortened the history of `d` from `h`, and dropped the logits; the reference has not
  -- followed yet.
  pub record Pending (d : Drafter M S C F) (n : ℕ) (h : List ℕ) : Type 0 where
    pub shorter : d.history ≡ drop n h
    pub no_logits : d.last_logits ≡ []
    pub reference_side :
        d.reference_only ≡ true → (r : Runner C) × (d.reference ≡ some r) × Follows law r h

  -- The model has followed.
  abbrev pub ModelSide : Drafter M S C F → Type 0
  ModelSide d = d.reference_only ≡ false → (m : M) × (d.model ≡ some m) × law.Holds m d.history

  -- The same call on a drafter that differs in the model or the reference.
  pub regard :
      (d d₁ d₂ : Drafter M S C F)
      → d₁.reference_only ≡ d.reference_only
      → d₁.history ≡ d.history
      → (d.model_snapshots ≡ [] → d₁.model_snapshots ≡ [])
      → Moved law d₁ d₂
      → Moved law d d₂
  regard d d₁ d₂ e f g r = record {
    same_mode = r.same_mode ∙ e;
    same_history = r.same_history ∙ f;
    sound = r.sound;
    none_left = λ x. r.none_left (g x);
  }

  pub Bool-false-or : (b : Bool) → (b ≡ false) ⊎ (b ≡ true)
  Bool-false-or true = inr refl
  Bool-false-or false = inl refl

  shadow-true :
      (d : Drafter M S C F) (r : Runner C)
      → d.reference ≡ some r
      → d.reference_only ≡ true
      → needs_reference_shadow env d ≡ true
  shadow-true d r e f = rw (e, f) refl

  pub settled :
      (d : Drafter M S C F)
      → d.last_logits ≡ []
      → (d.reference_only ≡ false → Mode law d false)
      → (d.reference_only ≡ true → Mode law d true)
      → Moved law d d
  settled d l f g = record {
    same_mode = refl;
    same_history = refl;
    sound = record {
      in_step = elim (Bool-false-or d.reference_only) [
        | inl e ↦ subst (Mode law d) (sym e) (f e)
        | inr e ↦ subst (Mode law d) (sym e) (g e)
      ];
      aware = λ e. inl l;
    };
    none_left = λ e. e;
  }

  module _ (d : Drafter M S C F) (n : ℕ) (h : List ℕ) where
    abbrev pub Again : (Drafter M S C F → Drafter M S C F × Option (DraftFault E)) → Type 0
    Again again =
        (r : Runner C)
        → (again (record d { reference = some r })).1 ≡ none
        → Moved law (record d { reference = some r }) (again (record d { reference = some r })).0

    rewound_reference-Moved :
        (again : Drafter M S C F → Drafter M S C F × Option (DraftFault E))
        (p : Runner C × Option E)
        → Pending d n h
        → ModelSide d
        → Again again
        → (p.1 ≡ none → d.reference_only ≡ true → Follows law p.0 (drop n h))
        → (rewound_reference env d again p).1 ≡ none
        → Moved law d (rewound_reference env d again p).0
    rewound_reference-Moved again (r, some e) k m a f q =
        regard d (record d { reference = some r }) _ refl refl (λ e. e) (a r q)
    rewound_reference-Moved again (r, none) k m a f q =
        regard d (record d { reference = some r }) _ refl refl (λ e. e)
          (settled (record d { reference = some r }) k.no_logits m
            (λ e. (r, refl, subst (Follows law r) (sym k.shorter) (f refl e))))

    pub rewind_with-Moved :
        (again : Drafter M S C F → Drafter M S C F × Option (DraftFault E)) (o : Option (Runner C))
        → d.reference ≡ o
        → Pending d n h
        → ModelSide d
        → Again again
        → (rewind_with env d n again o).1 ≡ none
        → Moved law d (rewind_with env d n again o).0
    rewind_with-Moved again none f k m a q =
        settled d k.no_logits m
          (λ e. let (r, g, x) = k.reference_side e in absurd (none_some r (sym f ∙ g)))
      where
        none_some : (r : Runner C) → ◌≡◌ {A = Option (Runner C)} none (some r) → ⊥
        none_some r e = cc
    rewind_with-Moved again (some r) f k m a q = choose (needs_reference_shadow env d) refl q
      where
        differ : false ≡ true → ⊥
        differ e = cc

        followed :
            (rewind_runner env.backend r n).1 ≡ none
            → d.reference_only ≡ true
            → Follows law (rewind_runner env.backend r n).0 (drop n h)
        followed e mode =
            let (r', g, x) = k.reference_side mode in
            rewind_runner-Follows law r h n
              (subst (λ z. Follows law z h) (some-injective _ _ (sym g ∙ f)) x) e

        choose :
            (b : Bool)
            → needs_reference_shadow env d ≡ b
            → (if b
                then rewound_reference env d again (rewind_runner env.backend r n)
                else (d, none)).1
              ≡ none
            → Moved law d
                (if b
                  then rewound_reference env d again (rewind_runner env.backend r n)
                  else (d, none)).0
        choose true e q' =
            rewound_reference-Moved again (rewind_runner env.backend r n) k m a followed q'
        choose false e q' =
            settled d k.no_logits m (λ mode. absurd (differ (sym e ∙ shadow-true d r f mode)))

    pub with_model : (m : M) → Pending d n h → Pending (record d { model = some m }) n h
    with_model m k = record {
      shorter = k.shorter;
      no_logits = k.no_logits;
      reference_side = k.reference_side;
    }

    pub has_reference :
        Pending d n h → d.reference_only ≡ true → (r : Runner C) × (d.reference ≡ some r)
    has_reference k e = let (r, f, x) = k.reference_side e in (r, f)

  -- Where the state is made anew when the reference fails.
  pub rebuild-Again : (d : Drafter M S C F) (n : ℕ) (h : List ℕ) → Again d n h (rebuild_state env)
  rebuild-Again d n h r = rebuild-Moved law (record d { reference = some r }) (λ e. (r, refl))
