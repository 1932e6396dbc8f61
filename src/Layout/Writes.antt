-- ===== src/Layout/Writes.antt =====
-- writeFloat32IOSurfaceAtWithLayout as a whole: which bytes it leaves at which element.
use autoresearch_mlx_go_ane.Prelude.{
  ℕ, zero, suc, ◌+◌, ◌/◌, ◌%◌, ◌≤◌, ◌<◌, ◌≡◌, ◌≢◌, ◌⊎◌, inl, inr, refl, ap, sym, subst, ◌∙◌, true,
  false, List, [], ◌∷◌, some, none, arith, length, take, drop, get_elem?, ltb, ◌==◌, if◌then◌else◌,
  le→ltb, lt→ltb,
}
use autoresearch_mlx_go_ane.Surface.{overwrite}
use autoresearch_mlx_go_ane.Surface.Cells.{
  length-overwrite, take-drop-overwrite, take-drop-overwrite_before, drop-overwrite_after,
}
use autoresearch_mlx_go_ane.Layout.{
  Layout, logical_count, alloc_size, valid, place, layout_byte_offset, stored, float32_to_fp16,
  store, store_placed, store_all, write_at_with_layout,
}
use autoresearch_mlx_go_ane.Layout.Place.{
  Sizes, valid-Sizes, IsRoomy, cell, cells_apart, layout_byte_offset-within,
}

-- The bytes of one float, low byte first: those of its half in a two byte element.
abbrev pub encoded : Layout → ℕ → List ℕ
encoded l v =
    if l.elem_size == 2
    then float32_to_fp16 v % 256 ∷ float32_to_fp16 v / 256 % 256 ∷ []
    else v % 256 ∷ v / 256 % 256 ∷ v / 65536 % 256 ∷ v / 16777216 % 256 ∷ []

-- The bytes of one element on the surface.
abbrev pub cell_bytes : Layout → List ℕ → ℕ → List ℕ
cell_bytes l bytes i = take l.elem_size (drop (place l i) bytes)

-- The elements from `i` on hold the values, and all others are as they were.
pub record Wrote (l : Layout) (i : ℕ) (values before after : List ℕ) : Type 0 where
  pub size : length after ≡ length before
  pub cells : (k v : ℕ) → get_elem? values k ≡ some v → cell_bytes l after (i + k) ≡ encoded l v
  pub others :
      (j : ℕ)
      → j < logical_count l
      → (j < i) ⊎ (i + length values ≤ j)
      → cell_bytes l after j ≡ cell_bytes l before j

size_tests :
    (e : ℕ) → (e ≡ 2) ⊎ (e ≡ 4) → ((e == 2) ≡ true) ⊎ (((e == 2) ≡ false) × ((e == 4) ≡ true))
size_tests e h = ground arith

length-encoded :
    (l : Layout) (v : ℕ)
    → (l.elem_size ≡ 2) ⊎ (l.elem_size ≡ 4)
    → length (encoded l v) ≡ l.elem_size
length-encoded l v (inl e) = let two : (l.elem_size == 2) ≡ true = ground arith in rw two (sym e)
length-encoded l v (inr e) = let two : (l.elem_size == 2) ≡ false = ground arith in rw two (sym e)

store-stored :
    (l : Layout) (off v : ℕ) (bytes : List ℕ)
    → (l.elem_size ≡ 2) ⊎ (l.elem_size ≡ 4)
    → off + l.elem_size ≤ alloc_size l
    → store l off v bytes ≡ stored (overwrite bytes off (encoded l v))
unfolding store
store-stored l off v bytes (inl e) h =
    let two : (l.elem_size == 2) ≡ true = ground arith in
    let fits : ltb (off + 1) (alloc_size l) ≡ true = ground arith in rw (two, fits) refl
store-stored l off v bytes (inr e) h =
    let two : (l.elem_size == 2) ≡ false = ground arith in
    let four : (l.elem_size == 4) ≡ true = ground arith in
    let fits : ltb off (alloc_size l) ≡ true = ground arith in rw (two, four, fits) refl

module _ (l : Layout) (v : valid l ≡ true) (roomy : IsRoomy l) where
  sizes : Sizes l
  sizes = valid-Sizes l v

  -- The bytes with the element `i` replaced.
  abbrev replaced : ℕ → ℕ → List ℕ → List ℕ
  replaced i x bytes = overwrite bytes (place l i) (encoded l x)

  placed-within : (i : ℕ) → i < logical_count l → place l i + l.elem_size ≤ alloc_size l
  unfolding layout_byte_offset
  placed-within i h =
      let (off, at, inside) = layout_byte_offset-within l i v roomy h in
      let test = lt→ltb i (logical_count l) h in
      let same : some (place l i) ≡ some off =
        subst (λ b. (if b then some (place l i) else none) ≡ some off) test at in
      let eq : place l i ≡ off = cc in rw eq inside

  store_placed-stored :
      (i x : ℕ) (bytes : List ℕ)
      → i < logical_count l
      → store_placed l (layout_byte_offset l i (logical_count l)) x bytes
        ≡ stored (replaced i x bytes)
  unfolding store_placed layout_byte_offset
  store_placed-stored i x bytes h =
      rw (lt→ltb i (logical_count l) h)
        (store-stored l (place l i) x bytes sizes.elem (placed-within i h))

  cell_bytes-replaced :
      (i x : ℕ) (bytes : List ℕ)
      → i < logical_count l
      → alloc_size l ≤ length bytes
      → cell_bytes l (replaced i x bytes) i ≡ encoded l x
  cell_bytes-replaced i x bytes h room =
      let len = length-encoded l x sizes.elem in
      let inside = placed-within i h in
      subst (λ n. take n (drop (place l i) (replaced i x bytes)) ≡ encoded l x) len
        (take-drop-overwrite bytes (place l i) (encoded l x) (omega arith))

  cell_bytes-replaced_other :
      (i j x : ℕ) (bytes : List ℕ)
      → i < logical_count l
      → j < logical_count l
      → j ≢ i
      → cell_bytes l (replaced i x bytes) j ≡ cell_bytes l bytes j
  cell_bytes-replaced_other i j x bytes hi hj ne =
      let len = length-encoded l x sizes.elem in
      elim (cells_apart l j i sizes roomy (cell l j sizes hj) (cell l i sizes hi) ne) [
        | inl lt ↦
            take-drop-overwrite_before bytes (place l j) l.elem_size (place l i) (encoded l x) lt
        | inr gt ↦
            ap (take l.elem_size)
              (drop-overwrite_after bytes (place l j) (place l i) (encoded l x) (omega arith))
      ]

  -- One element, and then the rest.
  Wrote-cons :
      (i x : ℕ) (xs bytes after : List ℕ)
      → i + suc (length xs) ≤ logical_count l
      → alloc_size l ≤ length bytes
      → Wrote l (i + 1) xs (replaced i x bytes) after
      → Wrote l i (x ∷ xs) bytes after
  Wrote-cons i x xs bytes after h room w = record {
    size = w.size ∙ length-overwrite bytes (place l i) (encoded l x);
    cells = at;
    others = λ j hj apart.
        w.others j hj (later j apart)
        ∙ cell_bytes-replaced_other i j x bytes (omega arith) hj (λ e. differs j apart e);
  }
    where
      later : (j : ℕ) → (j < i) ⊎ (i + suc (length xs) ≤ j) → (j < i + 1) ⊎ (i + 1 + length xs ≤ j)
      later j (inl lt) = inl (omega arith)
      later j (inr ge) = inr (omega arith)

      differs : (j : ℕ) → (j < i) ⊎ (i + suc (length xs) ≤ j) → j ≢ i
      differs j (inl lt) e = absurd (omega arith)
      differs j (inr ge) e = absurd (omega arith)

      at : (k y : ℕ) → get_elem? (x ∷ xs) k ≡ some y → cell_bytes l after (i + k) ≡ encoded l y
      at zero y e =
          let same : x ≡ y = cc in
          let here : i ≡ i + 0 = omega arith in
          subst (λ j. cell_bytes l after j ≡ encoded l y) here
            (w.others i (omega arith) (inl (omega arith))
              ∙ cell_bytes-replaced i x bytes (omega arith) room
              ∙ ap (encoded l) same)
      at (suc k) y e =
          let there : i + 1 + k ≡ i + suc k = omega arith in
          subst (λ j. cell_bytes l after j ≡ encoded l y) there (w.cells k y e)

  store_all-Wrote :
      (i : ℕ) (values bytes : List ℕ)
      → i + length values ≤ logical_count l
      → alloc_size l ≤ length bytes
      → (after : List ℕ) × (store_all l i (logical_count l) values (stored bytes) ≡ stored after)
        × Wrote l i values bytes after
  unfolding store_all
  store_all-Wrote i [] bytes h room =
      (bytes, refl, record { size = refl; cells = λ k v e. cc; others = λ j hj a. refl })
  store_all-Wrote i (x ∷ xs) bytes h room =
      let len = length-overwrite bytes (place l i) (encoded l x) in
      let (after, run, w) =
        store_all-Wrote (i + 1) xs (replaced i x bytes) (omega arith) (omega arith) in
      (
        after,
        ap (store_all l (i + 1) (logical_count l) xs) (store_placed-stored i x bytes (omega arith))
            ∙ run,
        Wrote-cons i x xs bytes after h room w,
      )

-- In a valid layout whose rows fit their stride, every write in range to a surface that answers, of
-- at least the layout's size, succeeds without a panic: the bytes of each written element are then
-- those of its value, as a half or as a float, the bytes of every other element are as they were,
-- and the surface keeps its length.
pub write_at_with_layout-stored :
    (l : Layout) (offset : ℕ) (values bytes : List ℕ)
    → valid l ≡ true
    → IsRoomy l
    → offset + length values ≤ logical_count l
    → alloc_size l ≤ length bytes
    → (after : List ℕ) × (write_at_with_layout l true offset values (logical_count l) bytes
        ≡ stored after)
      × Wrote l offset values bytes after
unfolding write_at_with_layout
write_at_with_layout-stored l offset values bytes v roomy h room =
    let fits = le→ltb (logical_count l) (offset + length values) h in
    rw (v, fits) (store_all-Wrote l v roomy offset values bytes h room)
