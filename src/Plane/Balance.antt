-- ===== src/Plane/Balance.antt =====
-- decode/plane.go: the counters of a plane agree with one another, after any calls.
use autoresearch_mlx_go_ane.Prelude.{
  ℕ, ◌+◌, ◌-◌, ◌≤◌, ◌≡◌, Bool, false, List, [], ◌∷◌, ltb, if◌then◌else◌, length, arith,
}
use autoresearch_mlx_go_ane.Plane.{
  Stats, Plane, has_fallback, effective_host_input_fallbacks, Event, dispatch,
}
use autoresearch_mlx_go_ane.Layer.{is_some}

-- No span is listed twice.
abbrev pub Once : List (ℕ × Bool) → Type 0
Once [] = Unit
Once ((start, build) ∷ rest) = (has_fallback rest start ≡ false) × Once rest

module _ {E : Type 0} where
  -- How the counters of stages, steps, calls and fallbacks add up.
  pub record IsBalanced (s : Stats E) : Type 0 where
    pub steps : s.decode_steps ≡ s.dense_steps + s.moe_steps + s.direct_block_steps
    pub synchronized_steps : s.synchronized_decode_steps ≤ s.decode_steps
    pub calls : s.synchronized_stage_calls ≤ s.stage_calls
    pub builds :
        s.stage_builds
        ≡ s.dense_stage_builds + s.shared_stage_builds + s.expert_stage_builds
          + s.direct_block_builds
    pub failures : s.stage_build_failures ≤ s.stage_builds
    pub direct_failures : s.direct_block_build_failures ≤ s.direct_block_builds
    pub artifacts : s.artifact_cache_hits + s.artifact_cache_misses ≤ s.stage_builds
    pub host :
        s.host_input_fallbacks
        ≡ s.host_fallback_alias + s.host_fallback_eval + s.host_fallback_copy
          + s.host_fallback_other
    pub spans :
        s.direct_block_fallbacks ≡ s.direct_block_build_fallbacks + s.direct_block_runtime_fallbacks
    pub disabled_spans : s.direct_block_disabled_spans ≡ s.direct_block_fallbacks

  -- The counters of a plane, its fallbacks and its disabling agree.
  pub record Agrees (p : Plane E) : Type 0 where
    pub balanced : IsBalanced p.stats
    pub entries : p.stats.direct_block_fallbacks ≡ length p.direct_fallbacks
    pub once : Once p.direct_fallbacks
    pub flag : p.stats.disabled ≡ is_some p.disable_err
    pub reason : p.stats.disable_reason ≡ p.disable_err

  -- A dispatch synchronizes at most the stages that it calls.
  unfoldable pub IsPossible : Event E → Type 0
  IsPossible (dispatch kind calls sync) = sync ≤ calls
  IsPossible e = Unit

  -- The best available count is that of the calls that were not synchronized, once there were calls.
  effective_of_balanced :
      (s : Stats E)
      → IsBalanced s
      → effective_host_input_fallbacks s ≡ (
          if ltb 0 s.stage_calls
          then s.stage_calls - s.synchronized_stage_calls
          else s.host_input_fallbacks)
  unfolding effective_host_input_fallbacks
  effective_of_balanced s h = ground arith
