-- ===== src/KvState/Rows.antt =====
-- The rows of a surface: `r` cells for each position.
use autoresearch_mlx_go_ane.Prelude.{
  ℕ, ◌+◌, ◌*◌, ◌≤◌, ◌<◌, ◌≡◌, ◌⊎◌, inl, inr, refl, ap, subst, List, [], ◌∷◌, arith, length, take,
  drop, replicate,
}
use autoresearch_mlx_go_ane.Surface.{overwrite}
use autoresearch_mlx_go_ane.Surface.Cells.{
  take-drop-overwrite_in, take-drop-overwrite_before, drop-overwrite_after, take-drop-replicate,
}

pub mul_mono : (a b r : ℕ) → a ≤ b → a * r ≤ b * r
mul_mono a b r h = grind arith

pub row_fits : (p m r n : ℕ) → p < m → n ≡ m * r → p * r + r ≤ n
row_fits p m r n h e =
    let wide : (p + 1) * r ≤ m * r = mul_mono (p + 1) m r (omega arith) in
    let split : (p + 1) * r ≡ p * r + r = grind arith in omega arith

module _ {A : Type 0} where
  abbrev pub row : ℕ → ℕ → List A → List A
  row r p cells = take r (drop (p * r) cells)

  take-all : (ds : List A) → take (length ds) ds ≡ ds
  take-all [] = refl
  take-all (d ∷ ds) = ap (◌∷◌ d) (take-all ds)

  -- Rows `p` to `p + n` are overwritten by `ds`: each of them reads its part of `ds`.
  pub row-overwrite_in :
      (r p n q : ℕ) (cells ds : List A)
      → length ds ≡ n * r
      → (p + n) * r ≤ length cells
      → q < n
      → row r (p + q) (overwrite cells (p * r) ds) ≡ row r q ds
  row-overwrite_in r p n q cells ds e h g =
      let split : (p + q) * r ≡ p * r + q * r = grind arith in
      rw split (take-drop-overwrite_in cells (p * r) (q * r) r ds (grind arith) (grind arith))

  -- Every other row is unchanged.
  pub row-overwrite_out :
      (r p n q : ℕ) (cells ds : List A)
      → length ds ≡ n * r
      → (q < p) ⊎ (p + n ≤ q)
      → row r q (overwrite cells (p * r) ds) ≡ row r q cells
  row-overwrite_out r p n q cells ds e (inl before) =
      take-drop-overwrite_before cells (q * r) r (p * r) ds (grind arith)
  row-overwrite_out r p n q cells ds e (inr behind) =
      let fits : (p + n) * r ≤ q * r = mul_mono (p + n) q r behind in
      let spread : (p + n) * r ≡ p * r + n * r = grind arith in
      ap (take r) (drop-overwrite_after cells (q * r) (p * r) ds (omega arith))

  pub row-replicate : (r n q : ℕ) (z : A) → q < n → row r q (replicate (n * r) z) ≡ replicate r z
  row-replicate r n q z h = take-drop-replicate (q * r) r (n * r) z (grind arith)

  pub row-first : (ds : List A) (r : ℕ) → length ds ≡ r → row r 0 ds ≡ ds
  row-first ds r e =
      let none_before : 0 * r ≡ 0 = omega arith in
      rw none_before (subst (λ k. take k ds ≡ ds) e (take-all ds))
