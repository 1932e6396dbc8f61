-- ===== src/Strategy/Names.antt =====
-- Reading the names of the strategies.
use autoresearch_mlx_go_ane.Prelude.{
  ◌≡◌, ◌↔◌, ◌⊎◌, inl, inr, refl, ap, ◌∙◌, Bool, true, false, Option, none, some, if◌then◌else◌,
  Bool-cases,
}
use autoresearch_mlx_go_ane.Prelude.Literals.{Text, lit}
use autoresearch_mlx_go_ane.Text.{trim_space, to_lower, text_eqb-eq}
use autoresearch_mlx_go_ane.Strategy.{
  DraftStrategy, full_mil, partial4, partial2, partial1, reference_only, ffn_fallback,
  strategy_string, is, parse_strategy, parse_draft_strategy_mode,
}

abbrev chose : DraftStrategy → Option (DraftStrategy × Bool)
chose v = some (v, false)

chose_inj : (v w : DraftStrategy) → chose v ≡ chose w → v ≡ w
chose_inj v w e = cc

-- One case of the switch.
pick :
    (s name : Text) (v w : DraftStrategy) (rest : Option (DraftStrategy × Bool))
    → (if is s name then some (v, false) else rest) ≡ some (w, false)
    → ((s ≡ name) × (v ≡ w)) ⊎ (rest ≡ some (w, false))
unfolding is
pick s name v w rest e = elim (Bool-cases (is s name)) [
  | inl t ↦
      let hit : chose v ≡ chose w = simp t at e in inl (text_eqb-eq s name t, chose_inj v w hit)
  | inr t ↦ inr (simp t at e)
]

-- The first case chooses nothing by name.
skip :
    (b : Bool) (w : DraftStrategy) (rest : Option (DraftStrategy × Bool))
    → (if b then some (full_mil, true) else rest) ≡ some (w, false)
    → rest ≡ some (w, false)
skip true w rest e = cc
skip false w rest e = e

named : (v w : DraftStrategy) (s : Text) → s ≡ strategy_string v → v ≡ w → s ≡ strategy_string w
named v w s e f = e ∙ ap strategy_string f

parse_strategy-named :
    (s : Text) (w : DraftStrategy) → parse_strategy s ≡ some (w, false) → s ≡ strategy_string w
unfolding parse_strategy strategy_string
parse_strategy-named s w e = elim (pick s (lit "full") full_mil w _ (skip _ w _ e)) [
  | inl (a, b) ↦ named full_mil w s a b
  | inr e ↦ elim (pick s (lit "partial4") partial4 w _ e) [
    | inl (a, b) ↦ named partial4 w s a b
    | inr e ↦ elim (pick s (lit "partial2") partial2 w _ e) [
      | inl (a, b) ↦ named partial2 w s a b
      | inr e ↦ elim (pick s (lit "partial1") partial1 w _ e) [
        | inl (a, b) ↦ named partial1 w s a b
        | inr e ↦ elim (pick s (lit "reference-only") reference_only w _ e) [
          | inl (a, b) ↦ named reference_only w s a b
          | inr e ↦ elim (pick s (lit "ffn") ffn_fallback w none e) [
            | inl (a, b) ↦ named ffn_fallback w s a b
            | inr e ↦ absurd (cc)
          ]
        ]
      ]
    ]
  ]
]

parse_strategy-string : (w : DraftStrategy) → parse_strategy (strategy_string w) ≡ some (w, false)
unfolding parse_strategy strategy_string
parse_strategy-string full_mil = refl
parse_strategy-string partial4 = refl
parse_strategy-string partial2 = refl
parse_strategy-string partial1 = refl
parse_strategy-string reference_only = refl
parse_strategy-string ffn_fallback = refl

-- A text chooses a strategy by name exactly when, trimmed and in lower case, it is the name that
-- `String` prints for that strategy.
pub parse_draft_strategy_mode_iff :
    (raw : Text) (w : DraftStrategy)
    → (parse_draft_strategy_mode raw ≡ some (w, false))
      ↔ (to_lower (trim_space raw) ≡ strategy_string w)
unfolding parse_draft_strategy_mode
parse_draft_strategy_mode_iff raw w =
    (λ e. parse_strategy-named (to_lower (trim_space raw)) w e, λ e. rw e (parse_strategy-string w))
