-- ===== src/Text.antt =====
-- Go's `strings` and `strconv` as the code uses them, on texts as lists of code points. Letters
-- beyond ASCII keep their case: no name that the code compares with has one in its fold.
use autoresearch_mlx_go_ane.Prelude.{
  ℕ, ◌+◌, Bool, true, false, ◌&&◌, ◌||◌, [], ◌∷◌, leb, ◌==◌, if◌then◌else◌, ◌≡◌, inl, inr, refl,
  map, arith, Bool-cases,
}
use autoresearch_mlx_go_ane.Prelude.Literals.{Text}

-- unicode.IsSpace
pub is_space : ℕ → Bool
is_space c =
    c == 32
    || (leb 9 c && leb c 13)
    || c == 133
    || c == 160
    || c == 5760
    || (leb 8192 c && leb c 8202)
    || c == 8232
    || c == 8233
    || c == 8239
    || c == 8287
    || c == 12288

is_empty : Text → Bool
is_empty [] = true
is_empty (c ∷ cs) = false

trim_left : Text → Text
unfolding is_space
trim_left [] = []
trim_left (c ∷ cs) = let rest = trim_left cs in if is_space c then rest else c ∷ cs

trim_right : Text → Text
unfolding is_space is_empty
trim_right [] = []
trim_right (c ∷ cs) =
    let rest = trim_right cs in if is_space c && is_empty rest then [] else c ∷ rest

unfoldable pub trim_space : Text → Text
unfolding trim_left trim_right
trim_space s = trim_right (trim_left s)

lower : ℕ → ℕ
lower c = if leb 65 c && leb c 90 then c + 32 else c

unfoldable pub to_lower : Text → Text
unfolding lower
to_lower s = map lower s

unfoldable pub text_eqb : Text → Text → Bool
text_eqb [] [] = true
text_eqb [] (d ∷ ds) = false
text_eqb (c ∷ cs) [] = false
text_eqb (c ∷ cs) (d ∷ ds) = let rest = text_eqb cs ds in if c == d then rest else false

eqb_eq : (c d : ℕ) → (c == d) ≡ true → c ≡ d
eqb_eq c d e = ground arith

pub text_eqb-eq : (s t : Text) → text_eqb s t ≡ true → s ≡ t
unfolding text_eqb
text_eqb-eq [] [] e = refl
text_eqb-eq [] (d ∷ ds) e = cc
text_eqb-eq (c ∷ cs) [] e = cc
text_eqb-eq (c ∷ cs) (d ∷ ds) e = elim (Bool-cases (c == d)) [
  | inl f ↦
      let rest : text_eqb cs ds ≡ true = simp f at e in
      let ih = text_eqb-eq cs ds rest in let head = eqb_eq c d f in cc
  | inr f ↦ let bad : false ≡ true = simp f at e in cc
]
