-- ===== src/Surface/Cells.antt =====
-- The cells after an overwrite.
use autoresearch_mlx_go_ane.Prelude.{
  ℕ, zero, suc, ◌+◌, ◌≤◌, ◌≡◌, refl, ap, List, [], ◌∷◌, arith, length, take, drop, replicate,
}
use native.Mathlib.Nat.{zero-add, suc-add}
use autoresearch_mlx_go_ane.Surface.{overwrite}

module _ {A : Type 0} where
  pub overwrite-nil : (cs : List A) (n : ℕ) → overwrite cs n [] ≡ cs
  overwrite-nil [] n = refl
  overwrite-nil (c ∷ cs) zero = refl
  overwrite-nil (c ∷ cs) (suc n) = ap (◌∷◌ c) (overwrite-nil cs n)

  pub length-overwrite :
      (cs : List A) (n : ℕ) (ds : List A) → length (overwrite cs n ds) ≡ length cs
  length-overwrite [] n ds = refl
  length-overwrite (c ∷ cs) zero [] = refl
  length-overwrite (c ∷ cs) zero (d ∷ ds) = ap suc (length-overwrite cs zero ds)
  length-overwrite (c ∷ cs) (suc n) ds = ap suc (length-overwrite cs n ds)

  take-overwrite_front :
      (cs ds : List A) → length ds ≤ length cs → take (length ds) (overwrite cs zero ds) ≡ ds
  take-overwrite_front cs [] h = refl
  take-overwrite_front [] (d ∷ ds) h = absurd (omega arith)
  take-overwrite_front (c ∷ cs) (d ∷ ds) h = ap (◌∷◌ d) (take-overwrite_front cs ds (omega arith))

  -- What was written is read back.
  pub take-drop-overwrite :
      (cs : List A) (n : ℕ) (ds : List A)
      → n + length ds ≤ length cs
      → take (length ds) (drop n (overwrite cs n ds)) ≡ ds
  take-drop-overwrite cs zero ds h = take-overwrite_front cs ds (omega arith)
  take-drop-overwrite [] (suc n) [] h = absurd (omega arith)
  take-drop-overwrite [] (suc n) (d ∷ ds) h = absurd (omega arith)
  take-drop-overwrite (c ∷ cs) (suc n) ds h = take-drop-overwrite cs n ds (omega arith)

  -- A range that ends before the write is unchanged.
  pub take-drop-overwrite_before :
      (cs : List A) (m k n : ℕ) (ds : List A)
      → m + k ≤ n
      → take k (drop m (overwrite cs n ds)) ≡ take k (drop m cs)
  take-drop-overwrite_before [] m k n ds h = refl
  take-drop-overwrite_before (c ∷ cs) zero zero n ds h = refl
  take-drop-overwrite_before (c ∷ cs) zero (suc k) zero ds h = absurd (omega arith)
  take-drop-overwrite_before (c ∷ cs) zero (suc k) (suc n) ds h =
      ap (◌∷◌ c) (take-drop-overwrite_before cs zero k n ds (omega arith))
  take-drop-overwrite_before (c ∷ cs) (suc m) k zero ds h = absurd (omega arith)
  take-drop-overwrite_before (c ∷ cs) (suc m) k (suc n) ds h =
      take-drop-overwrite_before cs m k n ds (omega arith)

  -- A range that starts behind it, too.
  pub drop-overwrite_after :
      (cs : List A) (m n : ℕ) (ds : List A)
      → n + length ds ≤ m
      → drop m (overwrite cs n ds) ≡ drop m cs
  drop-overwrite_after [] m n ds h = refl
  drop-overwrite_after (c ∷ cs) m zero [] h = refl
  drop-overwrite_after (c ∷ cs) zero zero (d ∷ ds) h = absurd (omega arith)
  drop-overwrite_after (c ∷ cs) (suc m) zero (d ∷ ds) h =
      drop-overwrite_after cs m zero ds (omega arith)
  drop-overwrite_after (c ∷ cs) zero (suc n) ds h = absurd (omega arith)
  drop-overwrite_after (c ∷ cs) (suc m) (suc n) ds h = drop-overwrite_after cs m n ds (omega arith)

  take-overwrite_in :
      (cs : List A) (m k : ℕ) (ds : List A)
      → m + k ≤ length ds
      → length ds ≤ length cs
      → take k (drop m (overwrite cs zero ds)) ≡ take k (drop m ds)
  take-overwrite_in cs zero zero [] h g = refl
  take-overwrite_in cs (suc m) k [] h g = absurd (omega arith)
  take-overwrite_in cs zero (suc k) [] h g = absurd (omega arith)
  take-overwrite_in [] m k (d ∷ ds) h g = absurd (omega arith)
  take-overwrite_in (c ∷ cs) zero zero (d ∷ ds) h g = refl
  take-overwrite_in (c ∷ cs) zero (suc k) (d ∷ ds) h g =
      ap (◌∷◌ d) (take-overwrite_in cs zero k ds (omega arith) (omega arith))
  take-overwrite_in (c ∷ cs) (suc m) k (d ∷ ds) h g =
      take-overwrite_in cs m k ds (omega arith) (omega arith)

  -- A range inside the write reads what was written there.
  pub take-drop-overwrite_in :
      (cs : List A) (n m k : ℕ) (ds : List A)
      → m + k ≤ length ds
      → n + length ds ≤ length cs
      → take k (drop (n + m) (overwrite cs n ds)) ≡ take k (drop m ds)
  take-drop-overwrite_in cs zero m k ds h g =
      rw zero-add (take-overwrite_in cs m k ds h (omega arith))
  take-drop-overwrite_in [] (suc n) m k ds h g = absurd (omega arith)
  take-drop-overwrite_in (c ∷ cs) (suc n) m k ds h g =
      rw suc-add (take-drop-overwrite_in cs n m k ds h (omega arith))

  pub take-drop-replicate :
      (m k n : ℕ) (z : A) → m + k ≤ n → take k (drop m (replicate n z)) ≡ replicate k z
  take-drop-replicate zero zero n z h = refl
  take-drop-replicate zero (suc k) zero z h = absurd (omega arith)
  take-drop-replicate zero (suc k) (suc n) z h =
      ap (◌∷◌ z) (take-drop-replicate zero k n z (omega arith))
  take-drop-replicate (suc m) k zero z h = absurd (omega arith)
  take-drop-replicate (suc m) k (suc n) z h = take-drop-replicate m k n z (omega arith)
