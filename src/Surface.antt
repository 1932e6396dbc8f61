-- ===== src/Surface.antt =====
-- surface_eval_plan_darwin.go: float surfaces (`IOSurfaceFloat32`) without a compiled layout.
-- An element type stands for float32. `answers` says whether the platform locks and maps the
-- surface and reports enough bytes. A nil wrapper is `none`.
pub mod Cells
pub mod Access
mod Tests
use autoresearch_mlx_go_ane.Prelude.{
  ℕ, zero, suc, ◌+◌, Bool, true, false, not, List, [], ◌∷◌, Option, none, some, ltb, ◌==◌,
  if◌then◌else◌, length, take, drop, replicate,
}
use autoresearch_mlx_go_ane.Prelude.Int.{ℤ, pos, negsuc}

pub record Surface (A : Type 0) : Type 0 where
  pub is_open : Bool
  pub count : ℕ
  pub cells : List A
  pub answers : Bool

pub data Error : Type 0 where
  nil_wrapper bad_offset closed out_of_bounds bad_length platform : Error

pub data Result {ℓ} (A : Type ℓ) : Type ℓ where
  ok : A → Result A
  err : Error → Result A

-- copy(dst[offset:offset+len(data)], data)
abbrev pub overwrite : {A : Type 0} → List A → ℕ → List A → List A
overwrite [] n ds = []
overwrite (c ∷ cs) zero [] = c ∷ cs
overwrite (c ∷ cs) zero (d ∷ ds) = d ∷ overwrite cs zero ds
overwrite (c ∷ cs) (suc n) ds = c ∷ overwrite cs n ds

module _ {A : Type 0} where
  -- WriteAt behind its tests of the wrapper and of the offset, for data that is not empty.
  pub write_cells : Surface A → ℕ → List A → Result (Surface A)
  write_cells s offset values =
      if not s.is_open
      then err closed
      else if ltb s.count (offset + length values)
      then err out_of_bounds
      else if not s.answers
      then err platform
      else ok (record s { cells = overwrite s.cells offset values })

  pub write_span : Surface A → ℕ → List A → Result (Surface A)
  unfolding write_cells
  write_span s offset [] = ok s
  write_span s offset (d ∷ ds) = write_cells s offset (d ∷ ds)

  unfoldable pub write_at : Option (Surface A) → ℤ → List A → Result (Surface A)
  unfolding write_span
  write_at none offset values = err nil_wrapper
  write_at (some s) (negsuc n) values = err bad_offset
  write_at (some s) (pos offset) values = write_span s offset values

  -- ReadAt behind the same tests.
  pub read_cells : Surface A → ℕ → ℕ → Result (List A)
  read_cells s offset n =
      if not s.is_open
      then err closed
      else if ltb s.count (offset + n)
      then err out_of_bounds
      else if n == 0
      then ok []
      else if not s.answers
      then err platform
      else ok (take n (drop offset s.cells))

  unfoldable pub read_at : Option (Surface A) → ℤ → ℤ → Result (List A)
  unfolding read_cells
  read_at none offset n = err nil_wrapper
  read_at (some s) (negsuc m) n = err bad_offset
  read_at (some s) (pos m) (negsuc n) = err bad_offset
  read_at (some s) (pos m) (pos n) = read_cells s m n

  -- Write: the data has exactly the surface's length.
  unfoldable pub write : Option (Surface A) → List A → Result (Surface A)
  write none values = err nil_wrapper
  write (some s) values =
      if not s.is_open
      then err closed
      else if not (length values == s.count)
      then err bad_length
      else if not s.answers
      then err platform
      else ok (record s { cells = overwrite s.cells 0 values })

  unfoldable pub fill : Option (Surface A) → A → Result (Surface A)
  unfolding write
  fill none v = err nil_wrapper
  fill (some s) v = write (some s) (replicate s.count v)
