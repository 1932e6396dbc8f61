-- ===== src/Strategy/Tests.antt =====
-- Names with other case and with spaces around them.
use autoresearch_mlx_go_ane.Prelude.{◌≡◌, ◌↔◌, refl, true, false, [], ◌∷◌, none, some}
use autoresearch_mlx_go_ane.Prelude.Int.{pos}
use autoresearch_mlx_go_ane.Prelude.Literals.{lit}
use autoresearch_mlx_go_ane.Text.{trim_space, to_lower}
use autoresearch_mlx_go_ane.Strategy.{
  reference_only, auto, strategy_string, parse_draft_strategy_mode, parse_draft_output_mode,
  is_widened_attention_draft, Env, Policy, resolve_ane_draft_policy,
}
use autoresearch_mlx_go_ane.Strategy.Resolve.{resolve-explicit_iff}

abbrev env : Env
env = record { strategy = lit "Reference-Only"; output_mode = []; disable_auto_ref_guard = [] }

abbrev policy : Policy
policy = record {
  mode = lit "reference-only";
  output = auto;
  strategies = reference_only ∷ [];
  widened_attention = false;
  total_layers = pos 0;
  explicit_reference = true;
}

resolved : resolve_ane_draft_policy env none ≡ some policy
unfolding resolve_ane_draft_policy parse_draft_strategy_mode parse_draft_output_mode to_lower
    trim_space is_widened_attention_draft
resolved = refl

resolve-explicit_iff_example :
    (policy.explicit_reference ≡ true)
    ↔ (to_lower (trim_space policy.mode) ≡ strategy_string reference_only)
resolve-explicit_iff_example = resolve-explicit_iff env none policy resolved
