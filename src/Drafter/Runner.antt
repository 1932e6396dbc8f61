-- ===== src/Drafter/Runner.antt =====
-- anedraftimpl/ane_draft_darwin.go, aneDraftReferenceRunner: the draft model run by MLX, token by
-- token. `C` is the type of caches, `F` of floats, `E` of errors.
-- A slice that grows at its end is a list with the newest entry first.
use autoresearch_mlx_go_ane.Prelude.{
  ℕ, zero, suc, ◌-◌, ◌+◌, List, [], ◌∷◌, Option, none, some, leb, if◌then◌else◌, length, drop,
}
use mathlib.Core.List.{reverse}
use autoresearch_mlx_go_ane.Layer.{Result, good, bad}

-- What MLX and its caches answer. `forward` is models.Forward on the token's array, with the
-- logits read from its output beside the next cache: reading them can fail after the pass did not.
-- There is none when the runner has no model. `trim` is there for a cache with TrimToOffset.
pub record ReferenceBackend (C E F : Type 0) : Type 0 where
  pub new_cache : Option C
  pub forward : Option (C → ℕ → Result E (C × Result E (List F)))
  pub trim : C → Option (ℕ → C)
  pub no_model : E

pub record Runner (C : Type 0) : Type 0 where
  pub cache : C
  pub step_count : ℕ
  pub history : List ℕ

module _ {C E F : Type 0} (env : ReferenceBackend C E F) where
  -- `Reset` does nothing without a constructor of caches.
  abbrev pub reset_with : Runner C → Option C → Runner C
  reset_with r none = r
  reset_with r (some c) = record { cache = c; step_count = 0; history = [] }

  abbrev pub reset_runner : Runner C → Runner C
  reset_runner r = reset_with r env.new_cache

  -- After the forward pass.
  abbrev pub forwarded :
      Runner C → ℕ → Result E (C × Result E (List F)) → Runner C × Result E (List F)
  forwarded r t (bad e) = (r, bad e)
  forwarded r t (good (c, l)) =
      (record { cache = c; step_count = r.step_count + 1; history = t ∷ r.history }, l)

  abbrev pub step_with :
      Option (C → ℕ → Result E (C × Result E (List F)))
      → Runner C
      → ℕ
      → Runner C × Result E (List F)
  step_with none r t = (r, bad env.no_model)
  step_with (some f) r t = forwarded r t (f r.cache t)

  unfoldable pub step_runner : Runner C → ℕ → Runner C × Result E (List F)
  step_runner = step_with env.forward

  abbrev pub replay_then :
      Runner C × Result E (List F)
      → (Runner C → List F → Runner C × Result E (List F))
      → Runner C × Result E (List F)
  replay_then (r, bad e) k = (r, bad e)
  replay_then (r, good l) k = k r l

  -- Step by step through the tokens, the oldest first; the logits of the last one are kept.
  unfoldable pub replay : List ℕ → Runner C → List F → Runner C × Result E (List F)
  replay [] r last = (r, good last)
  replay (t ∷ ts) r last = replay_then (step_runner r t) (replay ts)

  abbrev pub error_of : Runner C × Result E (List F) → Runner C × Option E
  error_of (r, good l) = (r, none)
  error_of (r, bad e) = (r, some e)

  -- `Rewind` of a cache that can be trimmed, and of one that cannot.
  abbrev pub trim_or_replay : Runner C → ℕ → Option (ℕ → C) → Runner C × Option E
  trim_or_replay r n (some trim_to) =
      let target = length r.history - n in
      (record { cache = trim_to target; step_count = target; history = drop n r.history }, none)
  trim_or_replay r n none = error_of (replay (reverse (drop n r.history)) (reset_runner r) [])

  -- On the history of the runner, which is a field of it.
  abbrev pub rewind_on : List ℕ → Runner C → ℕ → Runner C × Option E
  rewind_on [] r n = (r, none)
  rewind_on (t ∷ ts) r n =
      if leb (length (t ∷ ts)) n
      then (reset_runner r, none)
      else trim_or_replay r n (env.trim r.cache)

  unfoldable pub rewind_runner : Runner C → ℕ → Runner C × Option E
  rewind_runner r zero = (r, none)
  rewind_runner r (suc n) = rewind_on r.history r (suc n)
