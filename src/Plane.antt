-- ===== src/Plane.antt =====
-- decode/plane.go: the counters of the decode plane, its direct-block fallbacks and its disabling.
-- Durations are left out. `E` is the type of errors.
mod Counters
pub mod Balance
pub mod Marks
pub mod Tests
pub use Counters.*
use autoresearch_mlx_go_ane.Prelude.{
  ℕ, suc, ◌+◌, ◌-◌, Bool, true, false, not, ◌&&◌, List, [], ◌∷◌, Option, none, some, ltb, leb, ◌==◌,
  if◌then◌else◌,
}
use autoresearch_mlx_go_ane.Spans.{Span}

-- `direct_fallbacks` has an entry for each span given up, with `build` as `directFallback` has it.
pub record Plane (E : Type 0) : Type 0 where
  pub disable_err : Option E
  pub direct_spans : List Span
  pub direct_fallbacks : List (ℕ × Bool)
  pub stats : Stats E

-- One call of a recording function, with its arguments. A dispatch synchronizes some of its calls.
pub data Event (E : Type 0) : Type 0 where
  host_input_fallback : Reason → Event E
  output_zero_copy output_copy_fallback output_pool_stall : Event E
  stage_build : StageKind → Option Bool → Bool → Event E
  dispatch : StageKind → ℕ → ℕ → Event E
  direct_block_build : Option Bool → Bool → Event E
  direct_block_dispatch : ℕ → Event E
  fallback : ℕ → Bool → Bool → Event E
  disabling : Option E → Event E

module _ where
  -- _, ok := p.directFallbacks[layer]
  abbrev pub has_fallback : List (ℕ × Bool) → ℕ → Bool
  has_fallback [] layer = false
  has_fallback ((start, build) ∷ rest) layer =
      if start == layer then true else has_fallback rest layer

  -- span, ok := p.directSpans[layer]
  abbrev pub find_span : List Span → ℕ → Option Span
  find_span [] layer = none
  find_span (s ∷ ss) layer = if s.start_layer == layer then some s else find_span ss layer

module _ {E : Type 0} where
  -- A span is given up once; later errors of the same span change nothing.
  abbrev pub mark_new : Plane E → ℕ → Bool → Bool → Plane E
  mark_new p start build true = p
  mark_new p start build false = record p {
    direct_fallbacks = (start, build) ∷ p.direct_fallbacks;
    stats = count_fallback p.stats build;
  }

  -- `failed` is `err != nil`.
  unfoldable pub mark_direct_block_fallback : Plane E → ℕ → Bool → Bool → Plane E
  mark_direct_block_fallback p start build failed =
      if failed then mark_new p start build (has_fallback p.direct_fallbacks start) else p

  abbrev pub use_span : Plane E → ℕ → Option Span → Option Span × Bool
  use_span p layer none = (none, false)
  use_span p layer (some s) = (some s, not (has_fallback p.direct_fallbacks layer))

  unfoldable pub should_use_direct_span : Plane E → ℕ → Option Span × Bool
  should_use_direct_span p layer = use_span p layer (find_span p.direct_spans layer)

  abbrev pub keep_first : Option E → E → Option E
  keep_first none e = some e
  keep_first (some d) e = some d

  -- An error's text is not empty, so the reason is set exactly by the first error.
  unfoldable pub disable : Plane E → Option E → Plane E
  disable p none = p
  disable p (some e) = record p {
    disable_err = keep_first p.disable_err e;
    stats = record p.stats {
      disabled = true;
      disable_reason = keep_first p.stats.disable_reason e;
    };
  }

  unfoldable pub effective_host_input_fallbacks : Stats E → ℕ
  effective_host_input_fallbacks s =
      let n =
        s.host_fallback_alias + s.host_fallback_eval + s.host_fallback_copy
        + s.host_fallback_other in
      if leb s.synchronized_stage_calls s.stage_calls && ltb 0 s.stage_calls
      then s.stage_calls - s.synchronized_stage_calls
      else if ltb 0 n
      then n
      else s.host_input_fallbacks

  -- Stats{Enabled: true} and empty maps, as `Wrap` makes them.
  abbrev pub new_stats : Stats E
  new_stats = record {
    disabled = false;
    disable_reason = none;
    stage_builds = 0;
    stage_build_failures = 0;
    dense_stage_builds = 0;
    shared_stage_builds = 0;
    expert_stage_builds = 0;
    direct_block_builds = 0;
    direct_block_build_failures = 0;
    direct_block_fallbacks = 0;
    direct_block_build_fallbacks = 0;
    direct_block_runtime_fallbacks = 0;
    direct_block_disabled_spans = 0;
    artifact_cache_hits = 0;
    artifact_cache_misses = 0;
    decode_steps = 0;
    synchronized_decode_steps = 0;
    dense_steps = 0;
    moe_steps = 0;
    direct_block_steps = 0;
    direct_block_layer_executions = 0;
    stage_calls = 0;
    synchronized_stage_calls = 0;
    output_zero_copy_steps = 0;
    output_copy_fallbacks = 0;
    output_pool_stalls = 0;
    host_input_fallbacks = 0;
    host_fallback_alias = 0;
    host_fallback_eval = 0;
    host_fallback_copy = 0;
    host_fallback_other = 0;
  }

  abbrev pub new_plane : List Span → Plane E
  new_plane spans = record {
    disable_err = none;
    direct_spans = spans;
    direct_fallbacks = [];
    stats = new_stats;
  }

  abbrev pub on_stats : Plane E → (Stats E → Stats E) → Plane E
  on_stats p f = record p { stats = f p.stats }

  unfoldable pub apply : Plane E → Event E → Plane E
  apply p (host_input_fallback r) = on_stats p (λ s. record_host_input_fallback s r)
  apply p output_zero_copy = on_stats p record_output_zero_copy
  apply p output_copy_fallback = on_stats p record_output_copy_fallback
  apply p output_pool_stall = on_stats p record_output_pool_stall
  apply p (stage_build kind hit failed) = on_stats p (λ s. record_stage_build s kind hit failed)
  apply p (dispatch kind calls sync) = on_stats p (λ s. record_dispatch s kind calls sync)
  apply p (direct_block_build hit failed) = on_stats p (λ s. record_direct_block_build s hit failed)
  apply p (direct_block_dispatch n) = on_stats p (λ s. record_direct_block_dispatch s n)
  apply p (fallback start build failed) = mark_direct_block_fallback p start build failed
  apply p (disabling e) = disable p e

  unfoldable pub apply_all : Plane E → List (Event E) → Plane E
  apply_all p [] = p
  apply_all p (e ∷ es) = apply_all (apply p e) es
