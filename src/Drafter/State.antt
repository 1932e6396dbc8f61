-- ===== src/Drafter/State.antt =====
-- anedraftimpl/ane_draft_darwin.go: the fields of aneDraftDrafter, and what it calls.
-- `M` is the state of the ANE draft model, `S` a snapshot of it and `X` an embedding; `C`, `E` and
-- `F` are the caches, errors and floats of `Runner`. The durations and the counters of calls, which
-- only ANEDraftRuntimeStats reads, are left out.
use autoresearch_mlx_go_ane.Prelude.{
  ℕ, zero, suc, ◌+◌, ◌*◌, Bool, true, false, ◌&&◌, ◌||◌, List, [], ◌∷◌, Option, none, some, ltb,
  ◌==◌, if◌then◌else◌, length, drop,
}
use autoresearch_mlx_go_ane.Layer.{Result, good, bad}
use autoresearch_mlx_go_ane.Speculative.{argmax_float32}
use autoresearch_mlx_go_ane.Drafter.Runner.{ReferenceBackend, Runner}

-- aneDraftTapRecorder, less the files that it writes.
pub record Recorder : Type 0 where
  pub enabled : Bool
  pub max_steps : ℕ
  pub steps : ℕ

unfoldable pub record_taps : Recorder → Recorder
record_taps r = if r.enabled && ltb r.steps r.max_steps then record r { steps = r.steps + 1 } else r

abbrev pub reset_recorder : Recorder → Recorder
reset_recorder r = record r { steps = 0 }

-- The methods of ANEDraftModel that the drafter calls; each leaves a state, also on an error.
pub record Engine (M S X E F : Type 0) : Type 0 where
  pub reset_state : M → M × Option E
  pub eval_token : M → X → M × Result E (List F)
  pub advance_position : M → M × Option E
  pub rewind_position : M → ℕ → M × Option E
  pub snapshot_state : M → Result E S
  pub restore_state : M → S → M × Option E

-- The operations on floats: `gt` is `>`, and `lowest` the constant -MaxFloat32.
pub record Floats (F : Type 0) : Type 0 where
  pub gt : F → F → Bool
  pub plus : F → F → F
  pub times : F → F → F
  pub nought : F
  pub lowest : F

-- The fields of the drafter that no method changes, and the switch of the environment.
pub record Setup (M S X C E F : Type 0) : Type 0 where
  pub engine : Engine M S X E F
  pub backend : ReferenceBackend C E F
  pub floats : Floats F
  pub embed_token : Option (ℕ → Result E X)
  pub split_taps : Option (List F → Result E (List F))
  pub hidden_dim : ℕ
  pub vocab_size : ℕ
  pub embeddings : List F
  pub lm_proj : List F
  pub lm_bias : List F
  pub use_ref_logits : Bool
  pub auto_ref_guard : Bool
  pub low_confidence : Bool
  pub prefer_reference_only : Bool
  pub direct_model_ir : Bool
  pub cap_low_confidence : Bool

-- The fields that change. `history` and `model_snapshots` have the newest entry first; no logits
-- are the empty list.
pub record Drafter (M S C F : Type 0) : Type 0 where
  pub model : Option M
  pub reference : Option (Runner C)
  pub recorder : Option Recorder
  pub reference_only : Bool
  pub guard_triggered : Bool
  pub logged_draft_cap : Bool
  pub drafted_count : ℕ
  pub rewound_count : ℕ
  pub state_corrections : ℕ
  pub model_snapshots : List S
  pub history : List ℕ
  pub last_logits : List F

pub data DraftFault (E : Type 0) : Type 0 where
  not_initialized no_reference no_callback model_is_nil logits_missing : DraftFault E
  platform : E → DraftFault E
  unsupported_logits : ℕ → DraftFault E

-- argmaxProjectionWithBias: the projection's rows lie one after the other in `proj`.
module _ {F : Type 0} (fl : Floats F) where
  -- The loop over one row, which ends with the hidden state.
  abbrev pub dot : F → List F → List F → F
  dot score [] ws = score
  dot score (h ∷ hs) [] = score
  dot score (h ∷ hs) (w ∷ ws) = dot (fl.plus score (fl.times h w)) hs ws

  abbrev pub score_of : List F → List F → List F → Bool → F
  score_of hidden row (b ∷ bs) true = fl.plus (dot fl.nought hidden row) b
  score_of hidden row bs biased = dot fl.nought hidden row

  -- The loop over the tokens from `tok` on, with `left` of them to go. `proj` starts at the row of
  -- `tok`, and `bias` at its entry.
  unfoldable pub best_from : ℕ → ℕ → ℕ → List F → List F → List F → Bool → ℕ → F → ℕ
  best_from zero tok dim hidden proj bias biased best best_score = best
  best_from (suc left) tok dim hidden proj bias biased best best_score =
      let score = score_of hidden proj bias biased in
      let better =
        best_from left (suc tok) dim hidden (drop dim proj) (drop 1 bias) biased tok score in
      let same =
        best_from left (suc tok) dim hidden (drop dim proj) (drop 1 bias) biased best best_score in
      if fl.gt score best_score then better else same

  unfoldable pub argmax_projection_with_bias : List F → List F → List F → ℕ → ℕ → ℕ
  argmax_projection_with_bias hidden proj bias vocab dim =
      best_from vocab 0 dim hidden proj bias (length bias == vocab) 0 fl.lowest

module _ {M S X C E F : Type 0} (env : Setup M S X C E F) where
  unfoldable pub next_token_from_output : List F → Result (DraftFault E) ℕ
  next_token_from_output logits =
      if length logits == env.vocab_size
      then good (argmax_float32 env.floats.gt logits)
      else if length logits == env.hidden_dim
      then if length env.lm_proj == env.vocab_size * env.hidden_dim
        then good (
            argmax_projection_with_bias env.floats logits env.lm_proj env.lm_bias env.vocab_size
              env.hidden_dim)
        else good (
            argmax_projection_with_bias env.floats logits env.embeddings [] env.vocab_size
              env.hidden_dim)
      else bad (unsupported_logits (length logits))

  -- logitsFromModelOutput, less the taps, which only the recorder's files hold.
  abbrev pub split_with : Option (List F → Result E (List F)) → List F → Result E (List F)
  split_with none out = good out
  split_with (some split) out = split out

  abbrev pub logits_from_model_output : List F → Result E (List F)
  logits_from_model_output = split_with env.split_taps

  abbrev pub shows_taps : Option Recorder → Bool
  shows_taps none = false
  shows_taps (some r) = r.enabled

  abbrev pub needs_with : Drafter M S C F → Option (Runner C) → Bool
  needs_with d none = false
  needs_with d (some r) = d.reference_only || env.use_ref_logits || shows_taps d.recorder

  -- needsReferenceStep and needsReferenceShadow, which decide alike.
  abbrev pub needs_reference_shadow : Drafter M S C F → Bool
  needs_reference_shadow d = needs_with d d.reference
