-- ===== src/Prelude/Modify.antt =====
-- One entry of a list is changed in place, and predicates on all entries.
use autoresearch_mlx_go_ane.Prelude.{
  ℕ, zero, suc, ◌≡◌, refl, ap, ◌∙◌, List, [], ◌∷◌, ◌++◌, some, length, get_elem?, subst,
}

module _ {ℓ} {A : Type ℓ} where
  -- An index out of range changes nothing.
  abbrev pub modify : List A → ℕ → (A → A) → List A
  modify [] i f = []
  modify (x ∷ xs) zero f = f x ∷ xs
  modify (x ∷ xs) (suc i) f = x ∷ modify xs i f

  pub modify-modify :
      (xs : List A) (i : ℕ) (f g : A → A) → modify (modify xs i f) i g ≡ modify xs i (λ x. g (f x))
  modify-modify [] i f g = refl
  modify-modify (x ∷ xs) zero f g = refl
  modify-modify (x ∷ xs) (suc i) f g = ap (◌∷◌ x) (modify-modify xs i f g)

  pub length-modify : (xs : List A) (i : ℕ) (f : A → A) → length (modify xs i f) ≡ length xs
  length-modify [] i f = refl
  length-modify (x ∷ xs) zero f = refl
  length-modify (x ∷ xs) (suc i) f = ap suc (length-modify xs i f)

  pub get_elem?-modify :
      (xs : List A) (i : ℕ) (f : A → A) {x : A}
      → get_elem? xs i ≡ some x
      → get_elem? (modify xs i f) i ≡ some (f x)
  get_elem?-modify [] i f e = cc
  get_elem?-modify (y ∷ xs) zero f e = cc
  get_elem?-modify (y ∷ xs) (suc i) f e = get_elem?-modify xs i f e

  abbrev pub All {κ} : (A → Type κ) → List A → Type κ
  All P [] = Unit
  All P (x ∷ xs) = P x × All P xs

  pub All-modify {κ} :
      (P : A → Type κ) (f : A → A) (xs : List A) (i : ℕ)
      → ((x : A) → P x → P (f x))
      → All P xs
      → All P (modify xs i f)
  All-modify P f [] i keep h = tt
  All-modify P f (x ∷ xs) zero keep h = (keep x h.0, h.1)
  All-modify P f (x ∷ xs) (suc i) keep h = (h.0, All-modify P f xs i keep h.1)

  pub All-append {κ} : (P : A → Type κ) (xs ys : List A) → All P xs → All P ys → All P (xs ++ ys)
  All-append P [] ys h k = k
  All-append P (x ∷ xs) ys h k = (h.0, All-append P xs ys h.1 k)

  pub All-map {κ μ} :
      (P : A → Type κ) (Q : A → Type μ) (xs : List A) → ((x : A) → P x → Q x) → All P xs → All Q xs
  All-map P Q [] f h = tt
  All-map P Q (x ∷ xs) f h = (f x h.0, All-map P Q xs f h.1)

  pub All-get {κ} :
      (P : A → Type κ) (xs : List A) (i : ℕ) {x : A} → All P xs → get_elem? xs i ≡ some x → P x
  All-get P [] i h e = cc
  All-get P (y ∷ xs) zero {x} h e = let same : y ≡ x = cc in subst P same h.0
  All-get P (y ∷ xs) (suc i) h e = All-get P xs i h.1 e

  pub modify_fixed :
      (xs : List A) (i : ℕ) (f : A → A) {x : A}
      → get_elem? xs i ≡ some x
      → f x ≡ x
      → modify xs i f ≡ xs
  modify_fixed [] i f e h = refl
  modify_fixed (y ∷ xs) zero f e h = cc
  modify_fixed (y ∷ xs) (suc i) f e h = ap (◌∷◌ y) (modify_fixed xs i f e h)

  pub get_elem?-append_end : (xs : List A) (x : A) → get_elem? (xs ++ x ∷ []) (length xs) ≡ some x
  get_elem?-append_end [] x = refl
  get_elem?-append_end (y ∷ xs) x = get_elem?-append_end xs x

  pub modify_cong :
      (xs : List A) (i : ℕ) (f g : A → A) {x : A}
      → get_elem? xs i ≡ some x
      → f x ≡ g x
      → modify xs i f ≡ modify xs i g
  modify_cong [] i f g e h = refl
  modify_cong (y ∷ xs) zero f g e h = cc
  modify_cong (y ∷ xs) (suc i) f g e h = ap (◌∷◌ y) (modify_cong xs i f g e h)

  pub get_elem?-modify_other :
      (xs : List A) (i j : ℕ) (f : A → A) {x : A}
      → (i ≡ j → f x ≡ x)
      → get_elem? xs j ≡ some x
      → get_elem? (modify xs i f) j ≡ some x
  get_elem?-modify_other [] i j f h e = e
  get_elem?-modify_other (y ∷ xs) zero zero f {x} h e =
      let same : y ≡ x = cc in ap some (ap f same ∙ h refl)
  get_elem?-modify_other (y ∷ xs) zero (suc j) f h e = e
  get_elem?-modify_other (y ∷ xs) (suc i) zero f h e = e
  get_elem?-modify_other (y ∷ xs) (suc i) (suc j) f h e =
      get_elem?-modify_other xs i j f (λ same. h (ap suc same)) e

  pub get_elem?-append_left :
      (xs ys : List A) (j : ℕ) {x : A} → get_elem? xs j ≡ some x → get_elem? (xs ++ ys) j ≡ some x
  get_elem?-append_left [] ys j e = cc
  get_elem?-append_left (y ∷ xs) ys zero e = e
  get_elem?-append_left (y ∷ xs) ys (suc j) e = get_elem?-append_left xs ys j e
