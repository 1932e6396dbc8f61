-- ===== src/Surface/Access.antt =====
-- Reads and writes of a surface.
use autoresearch_mlx_go_ane.Prelude.{
  ℕ, suc, ◌+◌, ◌≤◌, ◌<◌, ◌≡◌, ◌⊎◌, inl, inr, refl, sym, ap, ◌∙◌, true, List, [], ◌∷◌, some, length,
  take, drop, lt→ltb, le→ltb, suc_eqb_zero,
}
use autoresearch_mlx_go_ane.Prelude.Int.{pos}
use autoresearch_mlx_go_ane.Surface.{
  Surface, ok, err, overwrite, write_cells, write_at, read_cells, read_at, out_of_bounds,
}
use autoresearch_mlx_go_ane.Surface.Cells.{
  overwrite-nil, length-overwrite, take-drop-overwrite, take-drop-overwrite_before,
  drop-overwrite_after,
}

module _ {A : Type 0} where
  -- A surface in service: open, answering, with as many cells as it counts.
  pub record IsLive (n : ℕ) (s : Surface A) : Type 0 where
    pub opened : s.is_open ≡ true
    pub answering : s.answers ≡ true
    pub counted : s.count ≡ n
    pub full : length s.cells ≡ n

  -- A write in bounds succeeds on a live surface, and changes the cells of its range alone.
  pub write_at-ok :
      (n : ℕ) (s : Surface A) (offset : ℕ) (ds : List A)
      → IsLive n s
      → offset + length ds ≤ n
      → write_at (some s) (pos offset) ds ≡ ok (record s { cells = overwrite s.cells offset ds })
  unfolding write_at write_cells
  write_at-ok n s offset [] live h = rw (overwrite-nil s.cells offset) refl
  write_at-ok n s offset (d ∷ ds) live h =
      simp (live.opened, live.answering, live.counted, le→ltb n (offset + length (d ∷ ds)) h)

  pub overwrite-IsLive :
      (n : ℕ) (s : Surface A) (offset : ℕ) (ds : List A)
      → IsLive n s
      → IsLive n (record s { cells = overwrite s.cells offset ds })
  overwrite-IsLive n s offset ds live = record {
    opened = live.opened;
    answering = live.answering;
    counted = live.counted;
    full = length-overwrite s.cells offset ds ∙ live.full;
  }

  -- A write out of bounds fails whatever the platform answers, and leaves the surface as it is.
  pub write_at_past :
      (s : Surface A) (offset : ℕ) (d : A) (ds : List A)
      → s.is_open ≡ true
      → s.count < offset + length (d ∷ ds)
      → write_at (some s) (pos offset) (d ∷ ds) ≡ err out_of_bounds
  unfolding write_at write_cells
  write_at_past s offset d ds o h = simp (o, lt→ltb s.count (offset + length (d ∷ ds)) h)

  read_at-ok :
      (n : ℕ) (s : Surface A) (offset k : ℕ)
      → IsLive n s
      → offset + suc k ≤ n
      → read_at (some s) (pos offset) (pos (suc k)) ≡ ok (take (suc k) (drop offset s.cells))
  unfolding read_at read_cells
  read_at-ok n s offset k live h =
      simp (live.opened, live.answering, live.counted, le→ltb n (offset + suc k) h, suc_eqb_zero k)

  -- On a live surface a write of at least one element in bounds succeeds and is read back, and
  -- every read in bounds of a range apart from it gives what it gave before.
  pub read_at-write_at :
      (n : ℕ) (s : Surface A) (offset : ℕ) (d : A) (ds : List A) (m k : ℕ)
      → IsLive n s
      → offset + length (d ∷ ds) ≤ n
      → m + suc k ≤ n
      → (t : Surface A) × (write_at (some s) (pos offset) (d ∷ ds) ≡ ok t)
        × (read_at (some t) (pos offset) (pos (length (d ∷ ds))) ≡ ok (d ∷ ds))
        × ((m + suc k ≤ offset) ⊎ (offset + length (d ∷ ds) ≤ m)
            → read_at (some t) (pos m) (pos (suc k)) ≡ read_at (some s) (pos m) (pos (suc k)))
  read_at-write_at n s offset d ds m k live h g =
      let after = overwrite-IsLive n s offset (d ∷ ds) live in
      (
        record s { cells = overwrite s.cells offset (d ∷ ds) },
        write_at-ok n s offset (d ∷ ds) live h,
        read_at-ok n _ offset (length ds) after h
            ∙ ap ok (take-drop-overwrite s.cells offset (d ∷ ds) (rw live.full h)),
        λ apart.
            read_at-ok n _ m k after g ∙ ap ok (elsewhere apart) ∙ sym (read_at-ok n s m k live g),
      )
    where
      elsewhere :
          (m + suc k ≤ offset) ⊎ (offset + length (d ∷ ds) ≤ m)
          → take (suc k) (drop m (overwrite s.cells offset (d ∷ ds)))
            ≡ take (suc k) (drop m s.cells)
      elsewhere (inl before) = take-drop-overwrite_before s.cells m (suc k) offset (d ∷ ds) before
      elsewhere (inr behind) =
          ap (take (suc k)) (drop-overwrite_after s.cells m offset (d ∷ ds) behind)
