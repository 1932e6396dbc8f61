-- ===== src/Drafter/Fresh.antt =====
-- anedraftimpl/ane_draft_darwin.go: Reset and Prefill of aneDraftDrafter.
use autoresearch_mlx_go_ane.Prelude.{ℕ, false, not, List, [], Option, none, some, if◌then◌else◌}
use mathlib.Core.Option
use autoresearch_mlx_go_ane.Layer.{Result, good, bad}
use autoresearch_mlx_go_ane.Drafter.State.{
  Setup, Drafter, DraftFault, not_initialized, platform, reset_recorder,
}
use autoresearch_mlx_go_ane.Drafter.Feed.{feed_all, reset_reference}
use autoresearch_mlx_go_ane.Drafter.Calls.{is_ready}

module _ {M S X C E F : Type 0} (env : Setup M S X C E F) where
  -- What both methods do after the model's Reset.
  abbrev pub fresh_drafter : Drafter M S C F → Drafter M S C F
  fresh_drafter d = record d {
    history = [];
    last_logits = [];
    model_snapshots = [];
    reference_only = env.prefer_reference_only;
    guard_triggered = false;
    drafted_count = 0;
    rewound_count = 0;
    state_corrections = 0;
    recorder = Option.map reset_recorder d.recorder;
    reference = reset_reference env d.reference;
  }

  -- The model's Reset, where there is a model.
  abbrev pub model_reset : Drafter M S C F → Option M → Drafter M S C F × Option E
  model_reset d none = (d, none)
  model_reset d (some m) =
      let (m', e) = env.engine.reset_state m in (record d { model = some m' }, e)

  -- The error of the model's Reset is only logged.
  unfoldable pub reset_drafter : Drafter M S C F → Drafter M S C F × Option E
  reset_drafter d = let (d', e) = model_reset d d.model in (fresh_drafter d', e)

  -- `prompt` is what is read from the array of the prompt.
  abbrev pub prefill_with :
      Drafter M S C F → Result E (List ℕ) → Drafter M S C F × Option (DraftFault E)
  prefill_with d (bad e) = (d, some (platform e))
  prefill_with d (good ids) = feed_all env ids (fresh_drafter d)

  abbrev pub prefill_reset :
      Result E (List ℕ) → Drafter M S C F × Option E → Drafter M S C F × Option (DraftFault E)
  prefill_reset prompt (d, some e) = (d, some (platform e))
  prefill_reset prompt (d, none) = prefill_with d prompt

  unfoldable pub prefill :
      Drafter M S C F → Result E (List ℕ) → Drafter M S C F × Option (DraftFault E)
  prefill d prompt =
      if not (is_ready env d)
      then (d, some not_initialized)
      else prefill_reset prompt (model_reset d d.model)
