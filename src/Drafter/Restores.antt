-- ===== src/Drafter/Restores.antt =====
-- anedraftimpl/ane_draft_darwin.go, Rewind of the model: by a snapshot, by its own rewind, or anew.
use autoresearch_mlx_go_ane.Prelude.{
  ℕ, zero, suc, ◌-◌, ◌≤◌, ◌≡◌, refl, ◌∙◌, ap, subst, sym, true, false, List, [], ◌∷◌, Option, none,
  some, inl, inr, drop, arith,
}
use mathlib.Core.Option.{some-injective}
use autoresearch_mlx_go_ane.Drafter.State.{Setup, Drafter}
use autoresearch_mlx_go_ane.Drafter.Feed.{rebuild_state, sync_reference_state}
use autoresearch_mlx_go_ane.Drafter.Calls.{
  snapshot_restored, restore_draft_snapshot, rewound_model, rewind_or_rebuild, after_restore,
  rewind_model, rewind_drafter_by,
}
use autoresearch_mlx_go_ane.Drafter.Contract.{Contract, Follows}
use autoresearch_mlx_go_ane.Drafter.Rebuild.{Moved, rebuild-Moved, sync-Moved}
use autoresearch_mlx_go_ane.Drafter.Snapshots.{Covers}
use autoresearch_mlx_go_ane.Drafter.Rewinds.{
  Pending, regard, Bool-false-or, settled, rewind_with-Moved, with_model, has_reference,
  rebuild-Again,
}

module _ {M S X C E F : Type 0} {env : Setup M S X C E F} (law : Contract env) where
  rewound_model-Moved :
      (d : Drafter M S C F) (n : ℕ) (h : List ℕ) (p : M × Option E)
      → Pending law d n h
      → (p.1 ≡ none → d.reference_only ≡ false → law.Holds p.0 (drop n h))
      → (rewound_model env d n p).1 ≡ none
      → Moved law d (rewound_model env d n p).0
  rewound_model-Moved d n h (m, some e) k f q =
      regard law d (record d { model = some m }) _ refl refl (λ e. e)
        (rebuild-Moved law (record d { model = some m }) (has_reference law d n h k) q)
  rewound_model-Moved d n h (m, none) k f q =
      let d₁ : Drafter M S C F = record d { model = some m } in
      regard law d d₁ _ refl refl (λ e. e)
        (rewind_with-Moved law d₁ n h (rebuild_state env) d.reference refl
          (with_model law d n h m k)
          (λ mode. (m, refl, subst (law.Holds m) (sym k.shorter) (f refl mode)))
          (rebuild-Again law d₁ n h) q)

  -- The snapshot that a Rewind of `suc n` tokens takes.
  Covers-at :
      (k n : ℕ) (ss : List S) (h : List ℕ) (s : S) (older : List S)
      → suc n ≤ k
      → Covers law k ss h
      → drop n ss ≡ s ∷ older
      → law.HoldsSnapshot s (drop (suc n) h)
  Covers-at zero n ss h s older b c e = absurd (omega arith)
  Covers-at (suc k) zero [] h s older b c e = cc
  Covers-at (suc k) (suc n) [] h s older b c e = cc
  Covers-at (suc k) n (x ∷ ss) [] s older b c e = absurd c
  Covers-at (suc k) zero (x ∷ ss) (t ∷ h) s older b c e =
      subst (λ z. law.HoldsSnapshot z h) (head_of e) c.0
    where
      head_of : x ∷ ss ≡ s ∷ older → x ≡ s
      head_of f = cc
  Covers-at (suc k) (suc n) (x ∷ ss) (t ∷ h) s older b c e =
      Covers-at k n ss h s older (omega arith) c.1 e

  -- The model before the call.
  abbrev pub ModelBefore : Drafter M S C F → M → List ℕ → Type 0
  ModelBefore d m h = d.reference_only ≡ false → law.Holds m h

  rewind_or_rebuild-Moved :
      (d : Drafter M S C F) (n : ℕ) (h : List ℕ) (m : M)
      → Pending law d n h
      → ((m' : M)
          → env.engine.rewind_position m n ≡ (m', none)
          → d.reference_only ≡ false
          → law.Holds m' (drop n h))
      → (rewind_or_rebuild env d n (some m)).1 ≡ none
      → Moved law d (rewind_or_rebuild env d n (some m)).0
  rewind_or_rebuild-Moved d n h m k f q =
      rewound_model-Moved d n h (env.engine.rewind_position m n) k
        (λ e. f (env.engine.rewind_position m n).0 (λ i. ((env.engine.rewind_position m n).0, e i)))
        q

  restored-Moved :
      (d : Drafter M S C F) (n : ℕ) (h : List ℕ) (m : M) (s : S) (older : List S) (p : M × Option E)
      → env.engine.restore_state m s ≡ p
      → Pending law d n h
      → ModelBefore d m h
      → (d.reference_only ≡ false → law.HoldsSnapshot s (drop n h))
      → (d.model_snapshots ≡ [] → older ≡ [])
      → (after_restore env n (snapshot_restored env d older p)).1 ≡ none
      → Moved law d (after_restore env n (snapshot_restored env d older p)).0
  restored-Moved d n h m s older (m', some e) f k before snap left q =
      regard law d (record d { model = some m' }) _ refl refl (λ e. e)
        (rewind_or_rebuild-Moved (record d { model = some m' }) n h m' (with_model law d n h m' k)
          (λ m'' g mode. law.restore_fails m m' m'' s n h e (before mode) f g) q)
  restored-Moved d n h m s older (m', none) f k before snap left q =
      let d₁ : Drafter M S C F = record d { model = some m'; model_snapshots = older } in
      regard law d d₁ _ refl refl left (
        rewind_with-Moved law d₁ n h (rebuild_state env) d.reference refl
          (record {
            shorter = k.shorter;
            no_logits = k.no_logits;
            reference_side = k.reference_side;
          })
          (λ mode. (
            m',
            refl,
            subst (law.Holds m') (sym k.shorter)
                (law.restores m m' s h (drop n h) (before mode) (snap mode) f),
          ))
          (rebuild-Again law d₁ n h) q)

  restore-Moved :
      (d : Drafter M S C F) (n : ℕ) (h : List ℕ) (m : M) (ss : List S)
      → d.model ≡ some m
      → Pending law d n h
      → ModelBefore d m h
      → ((s : S) (older : List S)
          → ss ≡ s ∷ older
          → d.reference_only ≡ false
          → law.HoldsSnapshot s (drop n h))
      → (d.model_snapshots ≡ [] → ss ≡ [])
      → (after_restore env n (restore_draft_snapshot env d m ss)).1 ≡ none
      → Moved law d (after_restore env n (restore_draft_snapshot env d m ss)).0
  restore-Moved d n h m [] e k before snap left q =
      subst
        (λ o. (rewind_or_rebuild env d n o).1 ≡ none → Moved law d (rewind_or_rebuild env d n o).0)
        (sym e)
        (rewind_or_rebuild-Moved d n h m k (λ m' f mode. law.rewinds m m' n h (before mode) f)) q
  restore-Moved d n h m (s ∷ older) e k before snap left q =
      restored-Moved d n h m s older (env.engine.restore_state m s) refl k before
        (snap s older refl) (λ f. absurd (filled (left f))) q
    where
      filled : s ∷ older ≡ [] → ⊥
      filled f = cc

  rewind_model-Moved :
      (d : Drafter M S C F) (n c : ℕ) (h : List ℕ) (o : Option M)
      → d.model ≡ o
      → suc n ≤ c
      → Pending law d (suc n) h
      → (d.reference_only ≡ false → (m : M) × (d.model ≡ some m) × law.Holds m h)
      → (d.reference_only ≡ false → Covers law c d.model_snapshots h)
      → (rewind_model env d (suc n) o).1 ≡ none
      → Moved law d (rewind_model env d (suc n) o).0
  rewind_model-Moved d n c h none e b k before cover q = elim (Bool-false-or law d.reference_only) [
    | inl mode ↦ (let (m, f, x) = before mode in absurd (no_model m (sym e ∙ f)))
    | inr mode ↦
        rewind_with-Moved law d (suc n) h (sync_reference_state env) d.reference refl k
          (λ f. absurd (both (sym f ∙ mode)))
          (λ r. sync-Moved law (record d { reference = some r }) mode) q
  ]
    where
      no_model : (m : M) → ◌≡◌ {A = Option M} none (some m) → ⊥
      no_model m f = cc

      both : false ≡ true → ⊥
      both f = cc
  rewind_model-Moved d n c h (some m) e b k before cover q =
      restore-Moved d (suc n) h m (drop (suc n - 1) d.model_snapshots) e k
        (λ mode.
          let (m', f, x) = before mode in
          subst (λ z. law.Holds z h) (some-injective _ _ (sym f ∙ e)) x)
        (λ s older f mode.
          Covers-at c n d.model_snapshots h s older b (cover mode)
            (subst (λ j. drop j d.model_snapshots ≡ s ∷ older) (omega arith) f))
        (λ f. ap (drop (suc n - 1)) f ∙ drop-nil (suc n - 1)) q
    where
      drop-nil : (j : ℕ) → ◌≡◌ {A = List S} (drop j []) []
      drop-nil zero = refl
      drop-nil (suc j) = refl

  pub rewind_by-Moved :
      (d : Drafter M S C F) (n c : ℕ) (h : List ℕ)
      → n ≤ c
      → Pending law d n h
      → (d.reference_only ≡ false → (m : M) × (d.model ≡ some m) × law.Holds m h)
      → (d.reference_only ≡ false → Covers law c d.model_snapshots h)
      → (rewind_drafter_by env d n).1 ≡ none
      → Moved law d (rewind_drafter_by env d n).0
  rewind_by-Moved d zero c h b k before cover q =
      settled law d k.no_logits
        (λ mode. let (m, f, x) = before mode in (m, f, subst (law.Holds m) (sym k.shorter) x))
        (λ mode.
          let (r, f, x) = k.reference_side mode in (r, f, subst (Follows law r) (sym k.shorter) x))
  rewind_by-Moved d (suc n) c h b k before cover q =
      rewind_model-Moved d n c h d.model refl b k before cover q
