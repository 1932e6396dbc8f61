-- ===== src/Layout/Place.antt =====
-- Where layoutByteOffset puts the elements.
use autoresearch_mlx_go_ane.Prelude.{
  ℕ, ◌+◌, ◌*◌, ◌/◌, ◌%◌, ◌≤◌, ◌<◌, ◌≡◌, ◌≢◌, ◌⊎◌, inl, inr, refl, sym, ap, ◌∙◌, true, not, ◌&&◌,
  ◌||◌, some, arith, ltb, ◌==◌, lt→ltb,
}
use native.Mathlib.Nat.{mod-lt, mod-add-div}
use autoresearch_mlx_go_ane.Layout.{
  Layout, logical_count, alloc_size, valid, place, layout_byte_offset,
}

-- What `valid` tests.
pub record Sizes (l : Layout) : Type 0 where
  pub channelled : 0 < l.channels
  pub wide : 0 < l.width
  pub high : 0 < l.height
  pub elem : (l.elem_size ≡ 2) ⊎ (l.elem_size ≡ 4)
  pub rows : l.height * l.row_stride ≤ l.plane_stride

tests :
    (c w h e r m p q : ℕ)
    → (not (c == 0 || w == 0 || h == 0)
        && (e == 2 || e == 4)
        && not (r == 0 || not (m == 0))
        && not (ltb p q))
      ≡ true
    → (0 < c) × (0 < w) × (0 < h) × ((e ≡ 2) ⊎ (e ≡ 4)) × (q ≤ p)
tests c w h e r m p q t = (ground arith, ground arith, ground arith, ground arith, ground arith)

pub valid-Sizes : (l : Layout) → valid l ≡ true → Sizes l
unfolding valid
valid-Sizes l e =
    let (c, w, h, z, r) =
      tests l.channels l.width l.height l.elem_size l.row_stride (l.row_stride % 64) l.plane_stride
        (l.height * l.row_stride) e in
    record { channelled = c; wide = w; high = h; elem = z; rows = r }

-- The three coordinates of an element: channel, row, column.
pub record Cell (l : Layout) (i : ℕ) : Type 0 where
  pub c : ℕ
  pub h : ℕ
  pub w : ℕ
  pub index : i ≡ h * (l.channels * l.width) + (c * l.width + w)
  pub placed : place l i ≡ c * l.plane_stride + h * l.row_stride + w * l.elem_size
  pub c_in : c < l.channels
  pub h_in : h < l.height
  pub w_in : w < l.width

lt_of_mul_lt : (a b n : ℕ) → a * n < b * n → a < b
lt_of_mul_lt a b n h = grind arith

mul_pos : (a b : ℕ) → 0 < a → 0 < b → 0 < a * b
mul_pos a b h k = grind arith

pub cell : (l : Layout) (i : ℕ) → Sizes l → i < logical_count l → Cell l i
unfolding logical_count place
cell l i s lt =
    let n = l.channels * l.width in
    let pos = mul_pos l.channels l.width s.channelled s.wide in
    let rem : i % n < n = mod-lt i pos in
    let col : i % n % l.width < l.width = mod-lt (i % n) s.wide in
    let whole : i % n + n * (i / n) ≡ i = mod-add-div i n in
    let part : i % n % l.width + l.width * (i % n / l.width) ≡ i % n =
      mod-add-div (i % n) l.width in
    let count : l.channels * l.height * l.width ≡ l.height * n = grind arith in
    record {
      c = i % n / l.width;
      h = i / n;
      w = i % n % l.width;
      index = grind arith;
      placed = refl;
      c_in = lt_of_mul_lt (i % n / l.width) l.channels l.width (grind arith);
      h_in = lt_of_mul_lt (i / n) l.height n (grind arith);
      w_in = col;
    }

mul_mono_place : (a b r : ℕ) → a ≤ b → a * r ≤ b * r
mul_mono_place a b r h = grind arith

-- A block of size `n` ends before the next one starts.
pub step : (a b n x : ℕ) → a < b → x ≤ n → a * n + x ≤ b * n
step a b n x h le =
    let up : (a + 1) * n ≤ b * n = mul_mono_place (a + 1) b n (omega arith) in
    let split : (a + 1) * n ≡ a * n + n = grind arith in omega arith

-- The rows of a tensor fit the stride.
abbrev pub IsRoomy : Layout → Type 0
IsRoomy l = l.width * l.elem_size ≤ l.row_stride

-- An element ends within its column's, row's and plane's space.
row_end :
    (l : Layout) (w : ℕ) → IsRoomy l → w < l.width → w * l.elem_size + l.elem_size ≤ l.row_stride
row_end l w roomy h =
    let fits = step w l.width l.elem_size l.elem_size h (omega arith) in omega arith

plane_end :
    (l : Layout) (h w : ℕ)
    → Sizes l
    → IsRoomy l
    → h < l.height
    → w < l.width
    → h * l.row_stride + w * l.elem_size + l.elem_size ≤ l.plane_stride
plane_end l h w s roomy hh hw =
    let rows = s.rows in
    let fits =
      step h l.height l.row_stride (w * l.elem_size + l.elem_size) hh (row_end l w roomy hw) in
    omega arith

-- In a valid layout whose rows fit their stride, every element in range lies wholly in the
-- allocation.
pub layout_byte_offset-within :
    (l : Layout) (i : ℕ)
    → valid l ≡ true
    → IsRoomy l
    → i < logical_count l
    → (off : ℕ) × (layout_byte_offset l i (logical_count l) ≡ some off)
      × (off + l.elem_size ≤ alloc_size l)
unfolding layout_byte_offset alloc_size
layout_byte_offset-within l i v roomy lt =
    let s = valid-Sizes l v in
    let at = cell l i s lt in
    let inside =
      step at.c l.channels l.plane_stride (at.h * l.row_stride + at.w * l.elem_size + l.elem_size)
        at.c_in (plane_end l at.h at.w s roomy at.h_in at.w_in) in
    let placed : place l i ≡ at.c * l.plane_stride + at.h * l.row_stride + at.w * l.elem_size =
      at.placed in
    (place l i, (rw (lt→ltb i (logical_count l) lt) refl), omega arith)

pub three : (a b : ℕ) → (a < b) ⊎ ((a ≡ b) ⊎ (b < a))
three a b = grind arith

-- The earlier of two cells in the order of channel, row and column ends before the other starts.
before :
    (l : Layout) (c h w c' h' w' : ℕ)
    → Sizes l
    → IsRoomy l
    → (h < l.height) × (w < l.width)
    → (c < c') ⊎ ((c ≡ c') × ((h < h') ⊎ ((h ≡ h') × (w < w'))))
    → c * l.plane_stride + h * l.row_stride + w * l.elem_size + l.elem_size
      ≤ c' * l.plane_stride + h' * l.row_stride + w' * l.elem_size
before l c h w c' h' w' s roomy (hh, hw) (inl lt) =
    let fits =
      step c c' l.plane_stride (h * l.row_stride + w * l.elem_size + l.elem_size) lt
        (plane_end l h w s roomy hh hw) in
    omega arith
before l c h w c' h' w' s roomy (hh, hw) (inr (e, inl lt)) =
    let fits = step h h' l.row_stride (w * l.elem_size + l.elem_size) lt (row_end l w roomy hw) in
    let same : c * l.plane_stride ≡ c' * l.plane_stride = ap (λ x. x * l.plane_stride) e in
    omega arith
before l c h w c' h' w' s roomy (hh, hw) (inr (e, inr (f, lt))) =
    let fits = step w w' l.elem_size l.elem_size lt (omega arith) in
    let same : c * l.plane_stride ≡ c' * l.plane_stride = ap (λ x. x * l.plane_stride) e in
    let same_row : h * l.row_stride ≡ h' * l.row_stride = ap (λ x. x * l.row_stride) f in
    omega arith

pub cells_apart :
    (l : Layout) (i j : ℕ)
    → Sizes l
    → IsRoomy l
    → Cell l i
    → Cell l j
    → i ≢ j
    → (place l i + l.elem_size ≤ place l j) ⊎ (place l j + l.elem_size ≤ place l i)
cells_apart l i j s roomy a b ne =
    let up = before l a.c a.h a.w b.c b.h b.w s roomy (a.h_in, a.w_in) in
    let down = before l b.c b.h b.w a.c a.h a.w s roomy (b.h_in, b.w_in) in
    rw (a.placed, b.placed)
      elim (three a.c b.c) [
        | inl lt ↦ inl (up (inl lt))
        | inr (inr gt) ↦ inr (down (inl gt))
        | inr (inl ec) ↦ elim (three a.h b.h) [
          | inl lt ↦ inl (up (inr (ec, inl lt)))
          | inr (inr gt) ↦ inr (down (inr (sym ec, inl gt)))
          | inr (inl eh) ↦ elim (three a.w b.w) [
            | inl lt ↦ inl (up (inr (ec, inr (eh, lt))))
            | inr (inr gt) ↦ inr (down (inr (sym ec, inr (sym eh, gt))))
            | inr (inl ew) ↦ absurd (ne (a.index ∙ rw (ec, eh, ew) refl ∙ sym b.index))
          ]
        ]
      ]

-- In a valid layout whose rows fit their stride, two different elements in range have no byte in
-- common.
pub layout_byte_offset-apart :
    (l : Layout) (i j : ℕ)
    → valid l ≡ true
    → IsRoomy l
    → i < logical_count l
    → j < logical_count l
    → i ≢ j
    → (off : ℕ) × (off' : ℕ) × (layout_byte_offset l i (logical_count l) ≡ some off)
      × (layout_byte_offset l j (logical_count l) ≡ some off')
      × ((off + l.elem_size ≤ off') ⊎ (off' + l.elem_size ≤ off))
unfolding layout_byte_offset
layout_byte_offset-apart l i j v roomy hi hj ne =
    let s = valid-Sizes l v in
    (
      place l i,
      place l j,
      (rw (lt→ltb i (logical_count l) hi) refl),
      (rw (lt→ltb j (logical_count l) hj) refl),
      cells_apart l i j s roomy (cell l i s hi) (cell l j s hj) ne,
    )
