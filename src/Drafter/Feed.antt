-- ===== src/Drafter/Feed.antt =====
-- anedraftimpl/ane_draft_darwin.go: what one token does to the drafter, and the two ways to go
-- through the history again.
use autoresearch_mlx_go_ane.Prelude.{
  ℕ, Bool, true, false, ◌&&◌, not, List, [], ◌∷◌, Option, none, some, if◌then◌else◌,
}
use mathlib.Core.Option
use mathlib.Core.List.{reverse}
use autoresearch_mlx_go_ane.Layer.{Result, good, bad}
use autoresearch_mlx_go_ane.Drafter.Runner.{Runner, reset_runner, step_runner, replay}
use autoresearch_mlx_go_ane.Drafter.State.{
  Setup, Drafter, DraftFault, no_reference, no_callback, model_is_nil, platform, record_taps,
  logits_from_model_output, needs_reference_shadow,
}

abbrev pub is_missing {ℓ} : {A : Type ℓ} → List A → Bool
is_missing [] = true
is_missing (x ∷ xs) = false

module _ {M S X C E F : Type 0} (env : Setup M S X C E F) where
  -- feedToken in reference-only mode.
  abbrev pub fed_reference :
      Drafter M S C F → ℕ → Runner C × Result E (List F) → Drafter M S C F × Option (DraftFault E)
  fed_reference d t (r, bad e) = (record d { reference = some r }, some (platform e))
  fed_reference d t (r, good l) =
      (record d { reference = some r; history = t ∷ d.history; last_logits = l }, none)

  abbrev pub feed_reference :
      Drafter M S C F → ℕ → Option (Runner C) → Drafter M S C F × Option (DraftFault E)
  feed_reference d t none = (d, some no_reference)
  feed_reference d t (some r) = fed_reference d t (step_runner env.backend r t)

  -- The step of the reference runner beside the model's: an error is logged, and no logits remain.
  abbrev pub reference_stepped :
      Drafter M S C F → Runner C × Result E (List F) → Drafter M S C F × List F
  reference_stepped d (r, bad e) = (record d { reference = some r }, [])
  reference_stepped d (r, good l) = (record d { reference = some r }, l)

  abbrev pub step_reference : Drafter M S C F → ℕ → Option (Runner C) → Drafter M S C F × List F
  step_reference d t none = (d, [])
  step_reference d t (some r) =
      if needs_reference_shadow env d
      then reference_stepped d (step_runner env.backend r t)
      else (d, [])

  -- The logits to draft from: the reference's, if they are wanted and there.
  abbrev pub preferred : List F → List F → List F
  preferred logits refs = if env.use_ref_logits && not (is_missing refs) then refs else logits

  abbrev pub model_advanced :
      Drafter M S C F → ℕ → List F → M × Option E → Drafter M S C F × Option (DraftFault E)
  model_advanced d t logits (m, some e) = (record d { model = some m }, some (platform e))
  model_advanced d t logits (m, none) =
      (record d { model = some m; history = t ∷ d.history; last_logits = logits }, none)

  -- After the step of the reference: the record of the taps, and the move of the model.
  abbrev pub recorded :
      ℕ → M → List F → Drafter M S C F × List F → Drafter M S C F × Option (DraftFault E)
  recorded t m logits (d, refs) =
      model_advanced (record d { recorder = Option.map record_taps d.recorder }) t
        (preferred logits refs) (env.engine.advance_position m)

  abbrev pub with_logits :
      Drafter M S C F → ℕ → M → Result E (List F) → Drafter M S C F × Option (DraftFault E)
  with_logits d t m (bad e) = (d, some (platform e))
  with_logits d t m (good logits) = recorded t m logits (step_reference d t d.reference)

  abbrev pub model_evaluated :
      Drafter M S C F → ℕ → M × Result E (List F) → Drafter M S C F × Option (DraftFault E)
  model_evaluated d t (m, bad e) = (record d { model = some m }, some (platform e))
  model_evaluated d t (m, good out) =
      with_logits (record d { model = some m }) t m (logits_from_model_output env out)

  abbrev pub token_embedded :
      Drafter M S C F → ℕ → Option M → Result E X → Drafter M S C F × Option (DraftFault E)
  token_embedded d t m (bad e) = (d, some (platform e))
  token_embedded d t none (good x) = (d, some model_is_nil)
  token_embedded d t (some m) (good x) = model_evaluated d t (env.engine.eval_token m x)

  abbrev pub feed_model :
      Drafter M S C F → ℕ → Option (ℕ → Result E X) → Drafter M S C F × Option (DraftFault E)
  feed_model d t none = (d, some no_callback)
  feed_model d t (some embed) = token_embedded d t d.model (embed t)

  unfoldable pub feed_token : Drafter M S C F → ℕ → Drafter M S C F × Option (DraftFault E)
  feed_token d t =
      if d.reference_only then feed_reference d t d.reference else feed_model d t env.embed_token

  abbrev pub fed_then :
      Drafter M S C F × Option (DraftFault E)
      → (Drafter M S C F → Drafter M S C F × Option (DraftFault E))
      → Drafter M S C F × Option (DraftFault E)
  fed_then (d, some e) k = (d, some e)
  fed_then (d, none) k = k d

  -- The loop of Prefill and of rebuildState.
  unfoldable pub feed_all : List ℕ → Drafter M S C F → Drafter M S C F × Option (DraftFault E)
  feed_all [] d = (d, none)
  feed_all (t ∷ ts) d = fed_then (feed_token d t) (feed_all ts)

  abbrev pub reset_reference : Option (Runner C) → Option (Runner C)
  reset_reference = Option.map (reset_runner env.backend)

  -- rebuildState, once the model is reset: everything else is emptied, and the history is fed
  -- again.
  abbrev pub replayed : Drafter M S C F → M × Option E → Drafter M S C F × Option (DraftFault E)
  replayed d (m, some e) = (record d { model = some m }, some (platform e))
  replayed d (m, none) = feed_all (reverse d.history) (record d {
    model = some m;
    reference = reset_reference d.reference;
    last_logits = [];
    model_snapshots = [];
    history = [];
  })

  abbrev pub rebuild_with : Drafter M S C F → Option M → Drafter M S C F × Option (DraftFault E)
  rebuild_with d none = (d, some model_is_nil)
  rebuild_with d (some m) = replayed d (env.engine.reset_state m)

  unfoldable pub rebuild_state : Drafter M S C F → Drafter M S C F × Option (DraftFault E)
  rebuild_state d = rebuild_with d d.model

  abbrev pub reference_synced :
      Drafter M S C F → Runner C × Result E (List F) → Drafter M S C F × Option (DraftFault E)
  reference_synced d (r, bad e) = (record d { reference = some r }, some (platform e))
  reference_synced d (r, good last) = (record d { reference = some r; last_logits = last }, none)

  abbrev pub sync_with :
      Drafter M S C F → Option (Runner C) → Drafter M S C F × Option (DraftFault E)
  sync_with d none = (d, some no_reference)
  sync_with d (some r) =
      reference_synced d (replay env.backend (reverse d.history) (reset_runner env.backend r) [])

  unfoldable pub sync_reference_state : Drafter M S C F → Drafter M S C F × Option (DraftFault E)
  sync_reference_state d = sync_with d d.reference
