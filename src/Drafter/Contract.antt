-- ===== src/Drafter/Contract.antt =====
-- anedraftimpl/ane_draft_darwin.go: what the drafter relies on, and what keeps it in step.
use autoresearch_mlx_go_ane.Prelude.{
  ℕ, ◌-◌, ◌≤◌, ◌≡◌, Bool, true, false, List, [], ◌∷◌, ◌⊎◌, none, some, length, drop,
}
use autoresearch_mlx_go_ane.Layer.{Result, good}
use autoresearch_mlx_go_ane.Drafter.Runner.{Runner}
use autoresearch_mlx_go_ane.Drafter.State.{Setup, Drafter, logits_from_model_output}

-- `Holds m h` says that the model's state is that after the tokens `h`, the newest first, and so
-- for a cache and a snapshot. Each operation is only spoken for where it succeeds.
pub record Contract {M S X C E F : Type 0} (env : Setup M S X C E F) : Type 1 where
  pub Holds : M → List ℕ → Type 0
  pub HoldsCache : C → List ℕ → Type 0
  pub HoldsSnapshot : S → List ℕ → Type 0
  pub model_logits : List ℕ → List F
  pub reference_logits : List ℕ → List F
  -- The caches: a constructor is there, and a new cache is empty.
  pub first_cache : C
  pub is_first : env.backend.new_cache ≡ some first_cache
  pub starts : HoldsCache first_cache []
  pub forwards :
      (f : C → ℕ → Result E (C × Result E (List F))) (c c' : C) (t : ℕ) (h : List ℕ)
      (l : Result E (List F))
      → env.backend.forward ≡ some f
      → HoldsCache c h
      → f c t ≡ good (c', l)
      → HoldsCache c' (t ∷ h) × ((v : List F) → l ≡ good v → v ≡ reference_logits (t ∷ h))
  pub trims :
      (c : C) (h : List ℕ) (f : ℕ → C) (n : ℕ)
      → HoldsCache c h
      → env.backend.trim c ≡ some f
      → n ≤ length h
      → HoldsCache (f (length h - n)) (drop n h)
  -- The model. A token is taken in by an evaluation and a move of the position.
  pub resets : (m m' : M) → env.engine.reset_state m ≡ (m', none) → Holds m' []
  pub evaluates :
      (embed : ℕ → Result E X) (m m' : M) (t : ℕ) (h : List ℕ) (x : X) (out v : List F)
      → env.embed_token ≡ some embed
      → embed t ≡ good x
      → Holds m h
      → env.engine.eval_token m x ≡ (m', good out)
      → logits_from_model_output env out ≡ good v
      → (v ≡ model_logits (t ∷ h))
        × ((m'' : M) → env.engine.advance_position m' ≡ (m'', none) → Holds m'' (t ∷ h))
  pub snapshots :
      (m : M) (s : S) (h : List ℕ)
      → Holds m h
      → env.engine.snapshot_state m ≡ good s
      → HoldsSnapshot s h
  pub restores :
      (m m' : M) (s : S) (g h : List ℕ)
      → Holds m g
      → HoldsSnapshot s h
      → env.engine.restore_state m s ≡ (m', none)
      → Holds m' h
  pub rewinds :
      (m m' : M) (n : ℕ) (h : List ℕ)
      → Holds m h
      → env.engine.rewind_position m n ≡ (m', none)
      → Holds m' (drop n h)
  -- A model that can be restored in part refuses a plain rewind.
  pub restore_fails :
      (m m' m'' : M) (s : S) (n : ℕ) (h : List ℕ) (e : E)
      → Holds m h
      → env.engine.restore_state m s ≡ (m', some e)
      → env.engine.rewind_position m' n ≡ (m'', none)
      → Holds m'' (drop n h)

module _ {M S X C E F : Type 0} {env : Setup M S X C E F} (law : Contract env) where
  -- The runner holds the tokens `h`, and its history lists them.
  pub record Follows (r : Runner C) (h : List ℕ) : Type 0 where
    pub same : r.history ≡ h
    pub holds : law.HoldsCache r.cache h

  -- Whom the drafter draws its logits from, the model or the reference, holds its history.
  abbrev pub Mode : Drafter M S C F → Bool → Type 0
  Mode d false = (m : M) × (d.model ≡ some m) × law.Holds m d.history
  Mode d true = (r : Runner C) × (d.reference ≡ some r) × Follows r d.history

  abbrev pub InStep : Drafter M S C F → Type 0
  InStep d = Mode d d.reference_only

  -- The logits that follow a history, for the reference or the model.
  abbrev pub logits_after : Bool → List ℕ → List F
  logits_after false h = law.model_logits h
  logits_after true h = law.reference_logits h

  -- In step, and with logits for the history, or none. With `use_ref_logits` the logits may be the
  -- reference's or the model's, and nothing is said of them.
  pub record IsSound (d : Drafter M S C F) : Type 0 where
    pub in_step : InStep d
    pub aware :
        env.use_ref_logits ≡ false
        → (d.last_logits ≡ []) ⊎ (d.last_logits ≡ logits_after d.reference_only d.history)

  -- A token taken in.
  pub record Fed (d : Drafter M S C F) (t : ℕ) (d' : Drafter M S C F) : Type 0 where
    pub same_mode : d'.reference_only ≡ d.reference_only
    pub longer : d'.history ≡ t ∷ d.history
    pub in_step : Mode d' d.reference_only
    pub same_snapshots : d'.model_snapshots ≡ d.model_snapshots
    pub predicted :
        env.use_ref_logits ≡ false → d'.last_logits ≡ logits_after d.reference_only (t ∷ d.history)
