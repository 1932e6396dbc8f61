-- ===== src/Strategy/Resolve.antt =====
-- Resolving the policy.
use autoresearch_mlx_go_ane.Prelude.{
  ◌≡◌, ◌↔◌, refl, sym, ap, ◌∙◌, subst, Bool, true, false, not, [], ◌∷◌, Option, none, some,
}
use autoresearch_mlx_go_ane.Prelude.Literals.{Text}
use autoresearch_mlx_go_ane.Text.{trim_space, to_lower}
use autoresearch_mlx_go_ane.Strategy.{
  DraftStrategy, DraftOutputMode, with_output, with_strategy, full_mil, partial4, partial2,
  partial1, reference_only, ffn_fallback, strategy_string, parse_draft_strategy_mode,
  auto_draft_strategies, ModelConfig, Env, Policy, only_reference, policy_of, strategies_of,
  resolve_ane_draft_policy, is_widened_attention_draft, draft_env_truthy,
}
use autoresearch_mlx_go_ane.Strategy.Names.{parse_draft_strategy_mode_iff}

-- What a resolved policy was made from.
record Made (env : Env) (cfg : Option ModelConfig) (p : Policy) : Type 0 where
  chosen : DraftStrategy × Bool
  read : parse_draft_strategy_mode p.mode ≡ some chosen
  listed : p.strategies ≡ strategies_of env cfg chosen
  explicit : p.explicit_reference ≡ only_reference (strategies_of env cfg chosen)

with_output-Made :
    (env : Env) (cfg : Option ModelConfig) (m : Text) (c : DraftStrategy × Bool) (p : Policy)
    (o : Option DraftOutputMode)
    → parse_draft_strategy_mode m ≡ some c
    → with_output env cfg m c o ≡ some p
    → Made env cfg p
unfolding with_output policy_of
with_output-Made env cfg m c p none read e = cc
with_output-Made env cfg m c p (some o) read e =
    let same : policy_of env cfg m o (strategies_of env cfg c) ≡ p = cc in
    subst (Made env cfg) same (record { chosen = c; read = read; listed = refl; explicit = refl })

with_strategy-Made :
    (env : Env) (cfg : Option ModelConfig) (m : Text) (p : Policy)
    (q : Option (DraftStrategy × Bool))
    → parse_draft_strategy_mode m ≡ q
    → with_strategy env cfg m q ≡ some p
    → Made env cfg p
unfolding with_strategy
with_strategy-Made env cfg m p none read e = cc
with_strategy-Made env cfg m p (some c) read e = with_output-Made env cfg m c p _ read e

resolve-Made :
    (env : Env) (cfg : Option ModelConfig) (p : Policy)
    → resolve_ane_draft_policy env cfg ≡ some p
    → Made env cfg p
unfolding resolve_ane_draft_policy
resolve-Made env cfg p e = with_strategy-Made env cfg _ p _ refl e

auto_list : (w b : Bool) → only_reference (auto_draft_strategies w b) ≡ false
unfolding only_reference auto_draft_strategies
auto_list true true = refl
auto_list true false = refl
auto_list false b = refl

single : (s : DraftStrategy) → only_reference (s ∷ []) ≡ true → s ≡ reference_only
unfolding only_reference
single reference_only e = refl
single full_mil e = cc
single partial4 e = cc
single partial2 e = cc
single partial1 e = cc
single ffn_fallback e = cc

explicit-named :
    (env : Env) (cfg : Option ModelConfig) (m : Text) (c : DraftStrategy × Bool)
    → parse_draft_strategy_mode m ≡ some c
    → only_reference (strategies_of env cfg c) ≡ true
    → parse_draft_strategy_mode m ≡ some (reference_only, false)
unfolding strategies_of
explicit-named env cfg m (s, true) e f =
    let no =
      auto_list (is_widened_attention_draft cfg)
        (not (draft_env_truthy env.disable_auto_ref_guard)) in
    cc
explicit-named env cfg m (s, false) e f =
    let s_is = single s f in rw e (ap (λ x. some (x, false)) s_is)

-- A policy that is resolved counts as an explicit choice of the reference exactly when its mode,
-- trimmed and in lower case, is the name of the reference-only strategy: no automatic choice does,
-- though the automatic list of a widened draft may start with the reference.
pub resolve-explicit_iff :
    (env : Env) (cfg : Option ModelConfig) (p : Policy)
    → resolve_ane_draft_policy env cfg ≡ some p
    → (p.explicit_reference ≡ true)
      ↔ (to_lower (trim_space p.mode) ≡ strategy_string reference_only)
unfolding strategies_of only_reference
resolve-explicit_iff env cfg p e =
    let made = resolve-Made env cfg p e in
    let names = parse_draft_strategy_mode_iff p.mode reference_only in
    (
      λ f. names.0 (explicit-named env cfg p.mode made.chosen made.read (sym made.explicit ∙ f)),
      λ f.
          let read = made.read in
          let by_name = names.1 f in
          let same : made.chosen ≡ (reference_only, false) = cc in
          made.explicit ∙ ap (λ c. only_reference (strategies_of env cfg c)) same,
    )
