-- ===== src/Drafter/Calls.antt =====
-- anedraftimpl/ane_draft_darwin.go: the methods of aneDraftDrafter that speculative decoding calls.
-- A drafter that is nil is left out. What Rewind and Reset only log is their second result.
use autoresearch_mlx_go_ane.Prelude.{
  ℕ, zero, suc, ◌+◌, ◌-◌, ◌*◌, Bool, true, false, ◌&&◌, ◌||◌, not, List, [], ◌∷◌, Option, none,
  some, ltb, leb, ◌==◌, if◌then◌else◌, length, drop,
}
use autoresearch_mlx_go_ane.Layer.{Result, good, bad}
use autoresearch_mlx_go_ane.Drafter.Runner.{Runner, rewind_runner}
use autoresearch_mlx_go_ane.Drafter.State.{
  Setup, Drafter, DraftFault, not_initialized, logits_missing, platform, next_token_from_output,
  needs_reference_shadow,
}
use autoresearch_mlx_go_ane.Drafter.Feed.{
  is_missing, feed_token, rebuild_state, sync_reference_state,
}

abbrev pub is_there {ℓ} : {A : Type ℓ} → Option A → Bool
is_there none = false
is_there (some a) = true

module _ {M S X C E F : Type 0} (env : Setup M S X C E F) where
  abbrev pub is_ready : Drafter M S C F → Bool
  is_ready d = is_there d.model || is_there d.reference

  -- maybeEnableReferenceOnly.
  abbrev pub switched : Drafter M S C F × Option (DraftFault E) → Drafter M S C F
  switched (d, some e) = d
  switched (d, none) = record d { reference_only = true; guard_triggered = true }

  -- Fewer than one drafted token in twenty was kept; the source compares the quotient of floats
  -- with 0.05, which is the same for counts below 2^49.
  abbrev pub is_rejected : Drafter M S C F → Bool
  is_rejected d = ltb (20 * (d.drafted_count - d.rewound_count)) d.drafted_count

  abbrev pub is_off_course : Drafter M S C F → Bool
  is_off_course d = leb 2 d.state_corrections || (leb 8 d.drafted_count && is_rejected d)

  abbrev pub has_guard : Drafter M S C F → Bool
  has_guard d =
      env.auto_ref_guard && not d.reference_only && is_there d.reference && not env.use_ref_logits

  unfoldable pub maybe_enable_reference_only : Drafter M S C F → Drafter M S C F
  maybe_enable_reference_only d =
      if has_guard d && is_off_course d then switched (sync_reference_state env d) else d

  abbrev pub ends_with : List ℕ → ℕ → Bool
  ends_with [] t = false
  ends_with (x ∷ xs) t = x == t

  abbrev pub corrected : List ℕ → Drafter M S C F → Drafter M S C F
  corrected [] d = d
  corrected (t ∷ ts) d = record d { state_corrections = d.state_corrections + 1 }

  unfoldable pub ensure_token_state : Drafter M S C F → ℕ → Drafter M S C F × Option (DraftFault E)
  ensure_token_state d t =
      if ends_with d.history t && not (is_missing d.last_logits)
      then (d, none)
      else feed_token env (corrected d.history d) t

  -- captureDraftSnapshot, with its error only logged.
  abbrev pub captured : Drafter M S C F → Result E S → Drafter M S C F
  captured d (bad e) = d
  captured d (good s) = record d { model_snapshots = s ∷ d.model_snapshots }

  abbrev pub capture_with : Drafter M S C F → Option M → Drafter M S C F
  capture_with d none = d
  capture_with d (some m) =
      if env.direct_model_ir then captured d (env.engine.snapshot_state m) else d

  unfoldable pub capture_draft_snapshot : Drafter M S C F → Drafter M S C F
  capture_draft_snapshot d = capture_with d d.model

  -- The loop of Draft, for the tokens that are left.
  abbrev pub next_token : Drafter M S C F → Result (DraftFault E) ℕ
  next_token d =
      if is_missing d.last_logits
      then bad logits_missing
      else next_token_from_output env d.last_logits

  abbrev pub with_token :
      ℕ
      → Drafter M S C F × Result (DraftFault E) (List ℕ)
      → Drafter M S C F × Result (DraftFault E) (List ℕ)
  with_token t (d, bad e) = (d, bad e)
  with_token t (d, good ts) = (d, good (t ∷ ts))

  abbrev pub fed_drafted :
      (Drafter M S C F → Drafter M S C F × Result (DraftFault E) (List ℕ))
      → ℕ
      → Drafter M S C F × Option (DraftFault E)
      → Drafter M S C F × Result (DraftFault E) (List ℕ)
  fed_drafted rest t (d, some e) = (d, bad e)
  fed_drafted rest t (d, none) = with_token t (rest d)

  abbrev pub draft_next :
      (Drafter M S C F → Drafter M S C F × Result (DraftFault E) (List ℕ))
      → Drafter M S C F
      → Result (DraftFault E) ℕ
      → Drafter M S C F × Result (DraftFault E) (List ℕ)
  draft_next rest d (bad e) = (d, bad e)
  draft_next rest d (good t) = fed_drafted rest t (feed_token env (capture_draft_snapshot d) t)

  unfoldable pub draft_tokens :
      ℕ → Drafter M S C F → Drafter M S C F × Result (DraftFault E) (List ℕ)
  unfolding capture_draft_snapshot
  draft_tokens zero d = (d, good [])
  draft_tokens (suc n) d = draft_next (draft_tokens n) d (next_token d)

  abbrev pub draft_counted :
      Drafter M S C F × Result (DraftFault E) (List ℕ)
      → Drafter M S C F × Result (DraftFault E) (List ℕ)
  draft_counted (d, bad e) = (d, bad e)
  draft_counted (d, good ts) = (record d { drafted_count = d.drafted_count + length ts }, good ts)

  abbrev pub ensured :
      ℕ → Drafter M S C F × Option (DraftFault E) → Drafter M S C F × Result (DraftFault E) (List ℕ)
  ensured n (d, some e) = (d, bad e)
  ensured n (d, none) = draft_counted (draft_tokens n d)

  abbrev pub is_capped : Drafter M S C F → ℕ → Bool
  is_capped d n = ltb 1 n && not d.reference_only && env.low_confidence && env.cap_low_confidence

  -- `token` is what is read from the array of the last token.
  abbrev pub draft_capped :
      Drafter M S C F → Result E ℕ → ℕ → Drafter M S C F × Result (DraftFault E) (List ℕ)
  draft_capped d (bad e) n = (maybe_enable_reference_only d, bad (platform e))
  draft_capped d (good t) n = ensured n (ensure_token_state (maybe_enable_reference_only d) t)

  -- A width that is negative is like 0.
  unfoldable pub draft :
      Drafter M S C F → Result E ℕ → ℕ → Drafter M S C F × Result (DraftFault E) (List ℕ)
  draft d token n =
      if not (is_ready d)
      then (d, bad not_initialized)
      else if is_capped d n
      then draft_capped (record d { logged_draft_cap = true }) token 1
      else draft_capped d token n

  -- restoreDraftSnapshot of the model `m`, from the snapshots without the newest n - 1.
  abbrev pub snapshot_restored : Drafter M S C F → List S → M × Option E → Drafter M S C F × Bool
  snapshot_restored d older (m, some e) = (record d { model = some m }, false)
  snapshot_restored d older (m, none) = (record d { model = some m; model_snapshots = older }, true)

  abbrev pub restore_draft_snapshot : Drafter M S C F → M → List S → Drafter M S C F × Bool
  restore_draft_snapshot d m [] = (d, false)
  restore_draft_snapshot d m (s ∷ older) = snapshot_restored d older (env.engine.restore_state m s)

  -- What follows the reference's Rewind: on an error the state is made anew by `again`.
  abbrev pub rewound_reference :
      Drafter M S C F
      → (Drafter M S C F → Drafter M S C F × Option (DraftFault E))
      → Runner C × Option E
      → Drafter M S C F × Option (DraftFault E)
  rewound_reference d again (r, none) = (record d { reference = some r }, none)
  rewound_reference d again (r, some e) = again (record d { reference = some r })

  abbrev pub rewind_with :
      Drafter M S C F
      → ℕ
      → (Drafter M S C F → Drafter M S C F × Option (DraftFault E))
      → Option (Runner C)
      → Drafter M S C F × Option (DraftFault E)
  rewind_with d n again none = (d, none)
  rewind_with d n again (some r) =
      if needs_reference_shadow env d
      then rewound_reference d again (rewind_runner env.backend r n)
      else (d, none)

  abbrev pub rewound_model :
      Drafter M S C F → ℕ → M × Option E → Drafter M S C F × Option (DraftFault E)
  rewound_model d n (m, some e) = rebuild_state env (record d { model = some m })
  rewound_model d n (m, none) =
      rewind_with (record d { model = some m }) n (rebuild_state env) d.reference

  abbrev pub rewind_or_rebuild :
      Drafter M S C F → ℕ → Option M → Drafter M S C F × Option (DraftFault E)
  rewind_or_rebuild d n none = (d, none)
  rewind_or_rebuild d n (some m) = rewound_model d n (env.engine.rewind_position m n)

  abbrev pub after_restore : ℕ → Drafter M S C F × Bool → Drafter M S C F × Option (DraftFault E)
  after_restore n (d, true) = rewind_with d n (rebuild_state env) d.reference
  after_restore n (d, false) = rewind_or_rebuild d n d.model

  abbrev pub rewind_model : Drafter M S C F → ℕ → Option M → Drafter M S C F × Option (DraftFault E)
  rewind_model d n none = rewind_with d n (sync_reference_state env) d.reference
  rewind_model d n (some m) =
      after_restore n (restore_draft_snapshot d m (drop (n - 1) d.model_snapshots))

  -- The calls on the model and the reference, for the tokens that the history had.
  abbrev pub rewind_drafter_by : Drafter M S C F → ℕ → Drafter M S C F × Option (DraftFault E)
  rewind_drafter_by d zero = (d, none)
  rewind_drafter_by d (suc n) = rewind_model d (suc n) d.model

  unfoldable pub rewind_drafter : Drafter M S C F → ℕ → Drafter M S C F × Option (DraftFault E)
  rewind_drafter d zero = (d, none)
  rewind_drafter d (suc n) =
      rewind_drafter_by
        (record d {
          rewound_count = d.rewound_count + suc n;
          history = drop (suc n) d.history;
          last_logits = [];
        })
        (if leb (length d.history) (suc n) then length d.history else suc n)
