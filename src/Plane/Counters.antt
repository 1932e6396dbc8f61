-- ===== src/Plane/Counters.antt =====
-- decode/plane.go: the counters of `Stats`, and the functions that record into them.
use autoresearch_mlx_go_ane.Prelude.{
  ℕ, suc, ◌+◌, Bool, true, false, Option, none, some, ltb, if◌then◌else◌,
}

pub data StageKind : Type 0 where
  stage_dense stage_shared stage_expert : StageKind

-- The reasons of a host fallback that the source tells apart; any other text is `by_other`.
pub data Reason : Type 0 where
  by_alias by_eval by_copy by_other : Reason

pub record Stats (E : Type 0) : Type 0 where
  pub disabled : Bool
  pub disable_reason : Option E
  pub stage_builds : ℕ
  pub stage_build_failures : ℕ
  pub dense_stage_builds : ℕ
  pub shared_stage_builds : ℕ
  pub expert_stage_builds : ℕ
  pub direct_block_builds : ℕ
  pub direct_block_build_failures : ℕ
  pub direct_block_fallbacks : ℕ
  pub direct_block_build_fallbacks : ℕ
  pub direct_block_runtime_fallbacks : ℕ
  pub direct_block_disabled_spans : ℕ
  pub artifact_cache_hits : ℕ
  pub artifact_cache_misses : ℕ
  pub decode_steps : ℕ
  pub synchronized_decode_steps : ℕ
  pub dense_steps : ℕ
  pub moe_steps : ℕ
  pub direct_block_steps : ℕ
  pub direct_block_layer_executions : ℕ
  pub stage_calls : ℕ
  pub synchronized_stage_calls : ℕ
  pub output_zero_copy_steps : ℕ
  pub output_copy_fallbacks : ℕ
  pub output_pool_stalls : ℕ
  pub host_input_fallbacks : ℕ
  pub host_fallback_alias : ℕ
  pub host_fallback_eval : ℕ
  pub host_fallback_copy : ℕ
  pub host_fallback_other : ℕ

module _ {E : Type 0} where
  abbrev pub record_host_input_fallback : Stats E → Reason → Stats E
  record_host_input_fallback s by_alias = record s {
    host_input_fallbacks = suc s.host_input_fallbacks;
    host_fallback_alias = suc s.host_fallback_alias;
  }
  record_host_input_fallback s by_eval = record s {
    host_input_fallbacks = suc s.host_input_fallbacks;
    host_fallback_eval = suc s.host_fallback_eval;
  }
  record_host_input_fallback s by_copy = record s {
    host_input_fallbacks = suc s.host_input_fallbacks;
    host_fallback_copy = suc s.host_fallback_copy;
  }
  record_host_input_fallback s by_other = record s {
    host_input_fallbacks = suc s.host_input_fallbacks;
    host_fallback_other = suc s.host_fallback_other;
  }

  abbrev pub record_output_zero_copy : Stats E → Stats E
  record_output_zero_copy s = record s { output_zero_copy_steps = suc s.output_zero_copy_steps }

  abbrev pub record_output_copy_fallback : Stats E → Stats E
  record_output_copy_fallback s = record s { output_copy_fallbacks = suc s.output_copy_fallbacks }

  abbrev pub record_output_pool_stall : Stats E → Stats E
  record_output_pool_stall s = record s { output_pool_stalls = suc s.output_pool_stalls }

  -- What was built reports whether its artifact was in the cache, if it can.
  abbrev pub record_init_stats : Stats E → Option Bool → Stats E
  record_init_stats s none = s
  record_init_stats s (some true) = record s { artifact_cache_hits = suc s.artifact_cache_hits }
  record_init_stats s (some false) = record s {
    artifact_cache_misses = suc s.artifact_cache_misses;
  }

  abbrev pub count_failure : Stats E → Bool → Stats E
  count_failure s false = s
  count_failure s true = record s { stage_build_failures = suc s.stage_build_failures }

  abbrev pub count_kind : Stats E → StageKind → Stats E
  count_kind s stage_dense = record s { dense_stage_builds = suc s.dense_stage_builds }
  count_kind s stage_shared = record s { shared_stage_builds = suc s.shared_stage_builds }
  count_kind s stage_expert = record s { expert_stage_builds = suc s.expert_stage_builds }

  abbrev pub record_stage_build : Stats E → StageKind → Option Bool → Bool → Stats E
  record_stage_build s kind hit failed =
      record_init_stats
        (count_kind (count_failure (record s { stage_builds = suc s.stage_builds }) failed) kind)
        hit

  abbrev pub count_steps : Stats E → StageKind → Stats E
  count_steps s stage_dense = record s { dense_steps = suc s.dense_steps }
  count_steps s stage_shared = record s { moe_steps = suc s.moe_steps }
  count_steps s stage_expert = record s { moe_steps = suc s.moe_steps }

  abbrev pub record_dispatch : Stats E → StageKind → ℕ → ℕ → Stats E
  record_dispatch s kind calls synchronized =
      count_steps
        (record s {
          decode_steps = suc s.decode_steps;
          synchronized_decode_steps =
              if ltb 0 synchronized
              then suc s.synchronized_decode_steps
              else s.synchronized_decode_steps;
          stage_calls = s.stage_calls + calls;
          synchronized_stage_calls = s.synchronized_stage_calls + synchronized;
        })
        kind

  abbrev pub count_direct_failure : Stats E → Bool → Stats E
  count_direct_failure s false = s
  count_direct_failure s true = record s {
    stage_build_failures = suc s.stage_build_failures;
    direct_block_build_failures = suc s.direct_block_build_failures;
  }

  abbrev pub record_direct_block_build : Stats E → Option Bool → Bool → Stats E
  record_direct_block_build s hit failed =
      record_init_stats
        (count_direct_failure
          (record s {
            stage_builds = suc s.stage_builds;
            direct_block_builds = suc s.direct_block_builds;
          })
          failed)
        hit

  abbrev pub record_direct_block_dispatch : Stats E → ℕ → Stats E
  record_direct_block_dispatch s layers = record s {
    decode_steps = suc s.decode_steps;
    synchronized_decode_steps = suc s.synchronized_decode_steps;
    stage_calls = suc s.stage_calls;
    synchronized_stage_calls = suc s.synchronized_stage_calls;
    direct_block_steps = suc s.direct_block_steps;
    direct_block_layer_executions = s.direct_block_layer_executions + layers;
  }

  abbrev pub count_fallback : Stats E → Bool → Stats E
  count_fallback s true = record s {
    direct_block_fallbacks = suc s.direct_block_fallbacks;
    direct_block_disabled_spans = suc s.direct_block_disabled_spans;
    direct_block_build_fallbacks = suc s.direct_block_build_fallbacks;
  }
  count_fallback s false = record s {
    direct_block_fallbacks = suc s.direct_block_fallbacks;
    direct_block_disabled_spans = suc s.direct_block_disabled_spans;
    direct_block_runtime_fallbacks = suc s.direct_block_runtime_fallbacks;
  }
