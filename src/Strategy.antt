-- ===== src/Strategy.antt =====
-- anedraftimpl/ane_draft_strategy.go: the draft strategies, how their names are read, and the order
-- in which they are tried. The environment variables are a record of texts; an unset one is empty.
pub mod Names
pub mod Resolve
mod Tests
use autoresearch_mlx_go_ane.Prelude.{
  ℕ, zero, suc, ◌*◌, Bool, true, false, not, ◌&&◌, ◌||◌, List, [], ◌∷◌, Option, none, some, ltb,
  if◌then◌else◌, length,
}
use autoresearch_mlx_go_ane.Prelude.Int.{ℤ, pos, negsuc}
use autoresearch_mlx_go_ane.Prelude.Literals.{Text, lit}
use autoresearch_mlx_go_ane.Text.{trim_space, to_lower, text_eqb}

pub data DraftStrategy : Type 0 where
  full_mil partial4 partial2 partial1 reference_only ffn_fallback : DraftStrategy

pub data DraftOutputMode : Type 0 where
  auto lm_head final_hidden last_ffn_residual last_attn_residual : DraftOutputMode

pub data DraftModelKind : Type 0 where
  unknown_kind external_modelc_kind lm_head_kind final_hidden_kind : DraftModelKind
  last_ffn_residual_kind last_attn_residual_kind reference_only_kind ffn_fallback_kind :
      DraftModelKind

unfoldable pub strategy_string : DraftStrategy → Text
strategy_string full_mil = lit "full"
strategy_string partial4 = lit "partial4"
strategy_string partial2 = lit "partial2"
strategy_string partial1 = lit "partial1"
strategy_string reference_only = lit "reference-only"
strategy_string ffn_fallback = lit "ffn"

unfoldable pub output_mode_string : DraftOutputMode → Text
output_mode_string auto = lit "auto"
output_mode_string lm_head = lit "lm_head"
output_mode_string final_hidden = lit "final_hidden"
output_mode_string last_ffn_residual = lit "last_ffn_residual"
output_mode_string last_attn_residual = lit "last_attn_residual"

pub is : Text → Text → Bool
unfolding text_eqb
is s name = text_eqb s name

-- The switch of ParseDraftStrategyMode: the strategy, and whether it is to be chosen.
pub parse_strategy : Text → Option (DraftStrategy × Bool)
unfolding is
parse_strategy s =
    if is s (lit "") || is s (lit "auto")
    then some (full_mil, true)
    else if is s (lit "full")
    then some (full_mil, false)
    else if is s (lit "partial4")
    then some (partial4, false)
    else if is s (lit "partial2")
    then some (partial2, false)
    else if is s (lit "partial1")
    then some (partial1, false)
    else if is s (lit "reference-only")
    then some (reference_only, false)
    else if is s (lit "ffn")
    then some (ffn_fallback, false)
    else none

unfoldable pub parse_draft_strategy_mode : Text → Option (DraftStrategy × Bool)
unfolding parse_strategy to_lower trim_space
parse_draft_strategy_mode raw = parse_strategy (to_lower (trim_space raw))

pub parse_mode : Text → Option DraftOutputMode
unfolding is
parse_mode s =
    if is s (lit "") || is s (lit "auto")
    then some auto
    else if is s (lit "lm_head")
    then some lm_head
    else if is s (lit "final_hidden")
    then some final_hidden
    else if is s (lit "last_ffn_residual")
    then some last_ffn_residual
    else if is s (lit "last_attn_residual")
    then some last_attn_residual
    else none

unfoldable pub parse_draft_output_mode : Text → Option DraftOutputMode
unfolding parse_mode to_lower trim_space
parse_draft_output_mode raw = parse_mode (to_lower (trim_space raw))

unfoldable pub auto_draft_strategies : Bool → Bool → List DraftStrategy
auto_draft_strategies true true = reference_only ∷ partial1 ∷ ffn_fallback ∷ []
auto_draft_strategies true false = partial1 ∷ reference_only ∷ ffn_fallback ∷ []
auto_draft_strategies false prefer = full_mil ∷ partial4 ∷ partial2 ∷ partial1 ∷ ffn_fallback ∷ []

-- The fields of models.ModelConfig that the policy reads.
pub record ModelConfig : Type 0 where
  pub num_layers : ℤ
  pub num_heads : ℤ
  pub head_dim : ℤ
  pub hidden_size : ℤ

unfoldable pub is_widened_attention_draft : Option ModelConfig → Bool
is_widened_attention_draft none = false
is_widened_attention_draft (some cfg) = widened cfg.num_heads cfg.head_dim cfg.hidden_size
  where
    widened : ℤ → ℤ → ℤ → Bool
    widened (pos (suc heads)) (pos (suc dim)) (pos (suc hidden)) =
        ltb (suc hidden) (suc dim * suc heads)
    widened _ _ _ = false

pub record Env : Type 0 where
  pub strategy : Text
  pub output_mode : Text
  pub disable_auto_ref_guard : Text

unfoldable pub draft_env_truthy : Text → Bool
unfolding is to_lower trim_space
draft_env_truthy raw =
    let s = to_lower (trim_space raw) in
    is s (lit "1") || is s (lit "true") || is s (lit "yes") || is s (lit "on")

pub record Policy : Type 0 where
  pub mode : Text
  pub output : DraftOutputMode
  pub strategies : List DraftStrategy
  pub widened_attention : Bool
  pub total_layers : ℤ
  pub explicit_reference : Bool

pub total_of : Option ModelConfig → ℤ
total_of none = pos 0
total_of (some cfg) = cfg.num_layers

-- len(strategies) == 1 && strategies[0] == DraftStrategyReferenceOnly
pub only_reference : List DraftStrategy → Bool
only_reference (reference_only ∷ []) = true
only_reference _ = false

pub mode_of : Text → Text
unfolding is
mode_of s = if is s (lit "") then lit "auto" else s

pub policy_of : Env → Option ModelConfig → Text → DraftOutputMode → List DraftStrategy → Policy
unfolding only_reference total_of
policy_of env cfg m output strategies = record {
  mode = m;
  output = output;
  strategies = strategies;
  widened_attention = is_widened_attention_draft cfg;
  total_layers = total_of cfg;
  explicit_reference = only_reference strategies;
}

pub strategies_of : Env → Option ModelConfig → DraftStrategy × Bool → List DraftStrategy
unfolding auto_draft_strategies
strategies_of env cfg (s, true) =
    auto_draft_strategies (is_widened_attention_draft cfg)
      (not (draft_env_truthy env.disable_auto_ref_guard))
strategies_of env cfg (s, false) = s ∷ []

pub with_output :
    Env → Option ModelConfig → Text → DraftStrategy × Bool → Option DraftOutputMode → Option Policy
unfolding policy_of strategies_of
with_output env cfg m chosen none = none
with_output env cfg m chosen (some output) =
    some (policy_of env cfg m output (strategies_of env cfg chosen))

pub with_strategy : Env → Option ModelConfig → Text → Option (DraftStrategy × Bool) → Option Policy
unfolding with_output
with_strategy env cfg m none = none
with_strategy env cfg m (some chosen) =
    with_output env cfg m chosen (parse_draft_output_mode (trim_space env.output_mode))

unfoldable pub resolve_ane_draft_policy : Env → Option ModelConfig → Option Policy
unfolding with_strategy mode_of
resolve_ane_draft_policy env cfg =
    let m = mode_of (to_lower (trim_space env.strategy)) in
    with_strategy env cfg m (parse_draft_strategy_mode m)

unfoldable pub draft_output_mode_candidates :
    DraftStrategy → DraftOutputMode → Bool → List DraftOutputMode
draft_output_mode_candidates partial1 auto true = last_attn_residual ∷ final_hidden ∷ []
draft_output_mode_candidates reference_only auto widened = []
draft_output_mode_candidates ffn_fallback auto widened = []
draft_output_mode_candidates s auto widened = lm_head ∷ final_hidden ∷ last_ffn_residual ∷ []
draft_output_mode_candidates s selected widened = selected ∷ []

unfoldable pub min_positive : ℤ → ℤ → ℤ
min_positive (negsuc a) b = b
min_positive (pos zero) b = b
min_positive (pos (suc a)) (negsuc b) = pos (suc a)
min_positive (pos (suc a)) (pos zero) = pos (suc a)
min_positive (pos (suc a)) (pos (suc b)) = if ltb (suc a) (suc b) then pos (suc a) else pos (suc b)

unfoldable pub draft_strategy_max_layers : DraftStrategy → ℤ → ℤ
unfolding min_positive
draft_strategy_max_layers partial4 total = min_positive total (pos 4)
draft_strategy_max_layers partial2 total = min_positive total (pos 2)
draft_strategy_max_layers partial1 total = min_positive total (pos 1)
draft_strategy_max_layers full_mil total = total
draft_strategy_max_layers reference_only total = pos 0
draft_strategy_max_layers ffn_fallback total = pos 0

unfoldable pub draft_selection_low_confidence : DraftStrategy → DraftModelKind → Bool → Bool
draft_selection_low_confidence ffn_fallback kind widened = true
draft_selection_low_confidence partial1 kind true = true
draft_selection_low_confidence s lm_head_kind widened = false
draft_selection_low_confidence s reference_only_kind widened = false
draft_selection_low_confidence s external_modelc_kind widened = false
draft_selection_low_confidence s kind widened = true
