-- ===== src/Block/Offsets.antt =====
-- decode/dispatch.go, advanceDirectBlockCaches: the offsets of the external caches after it.
use autoresearch_mlx_go_ane.Prelude.{
  ℕ, suc, ◌≡◌, refl, subst, ap, sym, ◌⊎◌, inl, inr, ==_iff, ◌∙◌, Bool, true, false, List, [], ◌∷◌,
  Option, none, some, ◌==◌, if◌then◌else◌, arith,
}
use autoresearch_mlx_go_ane.Block.{
  BlockEnv, agrees, all_at, set_offset, advance_then, advance_direct_block_caches,
}

module _ where
  abbrev pub is_in : ℕ → List ℕ → Bool
  is_in j [] = false
  is_in j (l ∷ ls) = let rest = is_in j ls in if l == j then true else rest

  -- No layer is listed twice.
  abbrev pub IsDistinct : List ℕ → Type 0
  IsDistinct [] = Unit
  IsDistinct (l ∷ ls) = (is_in l ls ≡ false) × IsDistinct ls

  abbrev pub one_more : Option ℕ → Option ℕ
  one_more none = none
  one_more (some n) = some (suc n)

  head_case :
      (l j n : ℕ) (b : Bool) (o : Option ℕ)
      → (l ≡ j → b ≡ false)
      → (l ≡ j → o ≡ some n)
      → (if b
          then one_more (if l == j then some (suc n) else o)
          else (if l == j then some (suc n) else o))
        ≡ (if (if l == j then true else b) then one_more o else o)
  head_case l j n b o h k = ground arith

  none_case :
      (l j : ℕ) (b : Bool) (o : Option ℕ)
      → (l ≡ j → o ≡ none)
      → (if b then one_more o else o) ≡ (if (if l == j then true else b) then one_more o else o)
  none_case l j b o h = ground arith

  set_head :
      (offsets : ℕ → Option ℕ) (l n j : ℕ) (ls : List ℕ)
      → offsets l ≡ some n
      → is_in l ls ≡ false
      → (if is_in j ls
          then one_more (set_offset offsets l (suc n) j)
          else set_offset offsets l (suc n) j)
        ≡ (if (if l == j then true else is_in j ls) then one_more (offsets j) else offsets j)
  set_head offsets l n j ls e d =
      head_case l j n (is_in j ls) (offsets j) (λ same. subst (λ x. is_in x ls ≡ false) same d)
        (λ same. subst (λ x. offsets x ≡ some n) same e)

  skip_head :
      (offsets : ℕ → Option ℕ) (l j : ℕ) (ls : List ℕ)
      → offsets l ≡ none
      → (if is_in j ls then one_more (offsets j) else offsets j)
        ≡ (if (if l == j then true else is_in j ls) then one_more (offsets j) else offsets j)
  skip_head offsets l j ls e =
      none_case l j (is_in j ls) (offsets j) (λ same. subst (λ x. offsets x ≡ none) same e)

  -- Every listed layer that has a cache has its rows at `n`.
  abbrev pub AllAt : List ℕ → ℕ → (ℕ → Option ℕ) → Type 0
  AllAt layers n offsets =
      (j : ℕ) → is_in j layers ≡ true → (offsets j ≡ none) ⊎ (offsets j ≡ some n)

  agrees_cases : (o : Option ℕ) (n : ℕ) → agrees o n ≡ true → (o ≡ none) ⊎ (o ≡ some n)
  agrees_cases none n e = inl refl
  agrees_cases (some m) n e = inr (ap some ((==_iff m n).0 e))

  pub all_at-AllAt :
      (offsets : ℕ → Option ℕ) (layers : List ℕ) (n : ℕ)
      → all_at offsets layers n ≡ true
      → AllAt layers n offsets
  all_at-AllAt offsets [] n e j i = cc
  all_at-AllAt offsets (l ∷ ls) n e j i =
      split (agrees (offsets l) n) refl e (λ g k. all_at-AllAt offsets ls n g j k) (l == j)
        ((==_iff l j).0) i
    where
      split :
          (a : Bool)
          → agrees (offsets l) n ≡ a
          → (if a then all_at offsets ls n else false) ≡ true
          → (all_at offsets ls n ≡ true
              → is_in j ls ≡ true
              → (offsets j ≡ none) ⊎ (offsets j ≡ some n))
          → (b : Bool) → (b ≡ true → l ≡ j)
          → (if b then true else is_in j ls) ≡ true
          → (offsets j ≡ none) ⊎ (offsets j ≡ some n)
      split false f g rest b h k = cc
      split true f g rest true h k =
          subst (λ x. (offsets x ≡ none) ⊎ (offsets x ≡ some n)) (h refl)
            (agrees_cases (offsets l) n f)
      split true f g rest false h k = rest g k

  -- The caches that a call leaves, if it got as far as all of them: one row more in each listed one.
  unfoldable pub IsAdvanced : List ℕ → (ℕ → Option ℕ) → (ℕ → Option ℕ) → Type 0
  IsAdvanced layers before after =
      (j : ℕ) → after j ≡ (if is_in j layers then one_more (before j) else before j)

  -- Caches that were at `n` are at the next position when they have advanced.
  pub AllAt-IsAdvanced :
      (layers : List ℕ) (n : ℕ) (before after : ℕ → Option ℕ)
      → AllAt layers n before
      → IsAdvanced layers before after
      → AllAt layers (suc n) after
  unfolding IsAdvanced
  AllAt-IsAdvanced layers n before after h k j i =
      subst (λ o. (o ≡ none) ⊎ (o ≡ some (suc n))) (sym (k j))
        (subst
          (λ b.
            ((if b then one_more (before j) else before j) ≡ none)
            ⊎ ((if b then one_more (before j) else before j) ≡ some (suc n)))
          (sym i) (moved (before j) (h j i)))
    where
      moved :
          (o : Option ℕ)
          → (o ≡ none) ⊎ (o ≡ some n)
          → (one_more o ≡ none) ⊎ (one_more o ≡ some (suc n))
      moved o (inl e) = inl (ap one_more e)
      moved o (inr e) = inr (ap one_more e)

module _ {E : Type 0} (env : BlockEnv E) where
  pub advance-one_more :
      (layers : List ℕ) (offsets : ℕ → Option ℕ) (j : ℕ)
      → IsDistinct layers
      → (advance_direct_block_caches env layers offsets).1 ≡ none
      → (advance_direct_block_caches env layers offsets).0 j
        ≡ (if is_in j layers then one_more (offsets j) else offsets j)
  unfolding advance_direct_block_caches
  advance-one_more [] offsets j d e = refl
  advance-one_more (l ∷ ls) offsets j d e =
      head (offsets l) (env.updates l) refl (λ m. advance-one_more ls m j d.1) e
    where
      head :
          (o : Option ℕ) (u : Option E)
          → offsets l ≡ o
          → ((m : ℕ → Option ℕ)
              → (advance_direct_block_caches env ls m).1 ≡ none
              → (advance_direct_block_caches env ls m).0 j
                ≡ (if is_in j ls then one_more (m j) else m j))
          → (advance_then env offsets l o u (advance_direct_block_caches env ls)).1 ≡ none
          → (advance_then env offsets l o u (advance_direct_block_caches env ls)).0 j
            ≡ (if (if l == j then true else is_in j ls) then one_more (offsets j) else offsets j)
      head none u f rest g = rest offsets g ∙ skip_head offsets l j ls f
      head (some n) (some x) f rest g = cc
      head (some n) none f rest g =
          rest (set_offset offsets l (suc n)) g ∙ set_head offsets l n j ls f d.0

  pub advance-succeeds :
      (layers : List ℕ) (offsets : ℕ → Option ℕ)
      → ((l : ℕ) → env.updates l ≡ none)
      → (advance_direct_block_caches env layers offsets).1 ≡ none
  unfolding advance_direct_block_caches
  advance-succeeds [] offsets h = refl
  advance-succeeds (l ∷ ls) offsets h =
      head (offsets l) (env.updates l) (h l) (λ m. advance-succeeds ls m h)
    where
      head :
          (o : Option ℕ) (u : Option E)
          → u ≡ none
          → ((m : ℕ → Option ℕ) → (advance_direct_block_caches env ls m).1 ≡ none)
          → (advance_then env offsets l o u (advance_direct_block_caches env ls)).1 ≡ none
      head none u f rest = rest offsets
      head (some n) none f rest = rest (set_offset offsets l (suc n))
      head (some n) (some x) f rest = cc
