-- ===== src/Layout/Overrun.antt =====
-- Layouts that `valid` accepts and whose rows do not fit their stride.
use autoresearch_mlx_go_ane.Prelude.{
  ℕ, ◌+◌, ◌-◌, ◌*◌, ◌<◌, ◌≡◌, inl, inr, refl, sym, ap, ◌∙◌, true, some, arith, lt→ltb,
}
use autoresearch_mlx_go_ane.Layout.{
  Layout, logical_count, alloc_size, valid, place, layout_byte_offset,
}
use autoresearch_mlx_go_ane.Layout.Place.{valid-Sizes, cell, step, three}

digit : (a b n x y : ℕ) → a * n + x ≡ b * n + y → x < n → y < n → (a ≡ b) × (x ≡ y)
digit a b n x y e hx hy = elim (three a b) [
  | inl lt ↦ let over = step a b n n lt (omega arith) in absurd (omega arith)
  | inr (inr gt) ↦ let over = step b a n n gt (omega arith) in absurd (omega arith)
  | inr (inl same) ↦ let times : a * n ≡ b * n = ap (λ k. k * n) same in (same, omega arith)
]

col_in : (c n w m : ℕ) → c < n → w < m → c * m + w < n * m
col_in c n w m hc hw = let fits = step c n m m hc (omega arith) in omega arith

pred_split : (a n : ℕ) → 0 < a → (a - 1) * n + n ≡ a * n
pred_split a n h =
    let up : (a - 1) + 1 ≡ a = omega arith in
    let split : ((a - 1) + 1) * n ≡ (a - 1) * n + n = grind arith in sym split ∙ ap (λ k. k * n) up

last_col : (c w : ℕ) → 0 < c → 0 < w → (c - 1) * w + (w - 1) < c * w
last_col c w hc hw = let e = pred_split c w hc in omega arith

last_in :
    (c h w : ℕ) → 0 < c → 0 < h → 0 < w → (h - 1) * (c * w) + ((c - 1) * w + (w - 1)) < c * h * w
last_in c h w hc hh hw =
    let e = pred_split h (c * w) hh in
    let col = last_col c w hc hw in let turn : c * h * w ≡ h * (c * w) = grind arith in omega arith

last_end :
    (c h w r e : ℕ)
    → 0 < c
    → 0 < h
    → 0 < w
    → r < w * e
    → c * (h * r) < (c - 1) * (h * r) + (h - 1) * r + (w - 1) * e + e
last_end c h w r e hc hh hw narrow =
    let planes = pred_split c (h * r) hc in
    let rows = pred_split h r hh in let cols = pred_split w e hw in omega arith

-- In a layout that `valid` accepts, whose rows do not fit their stride and whose planes have no
-- padding, some element in range is placed partly or wholly past the allocation.
pub layout_byte_offset_past :
    (l : Layout)
    → valid l ≡ true
    → l.row_stride < l.width * l.elem_size
    → l.plane_stride ≡ l.height * l.row_stride
    → (i : ℕ) × (off : ℕ) × (layout_byte_offset l i (logical_count l) ≡ some off)
      × (alloc_size l < off + l.elem_size)
unfolding layout_byte_offset alloc_size logical_count
layout_byte_offset_past l v narrow tight =
    let s = valid-Sizes l v in
    let i =
      (l.height - 1) * (l.channels * l.width) + ((l.channels - 1) * l.width + (l.width - 1)) in
    let low = last_in l.channels l.height l.width s.channelled s.high s.wide in
    let at = cell l i s low in
    let (h, rem) =
      digit (l.height - 1) at.h (l.channels * l.width) _ _ at.index
        (last_col l.channels l.width s.channelled s.wide)
        (col_in at.c l.channels at.w l.width at.c_in at.w_in) in
    let (c, w) =
      digit (l.channels - 1) at.c l.width (l.width - 1) at.w rem (let p = s.wide in omega arith)
        at.w_in in
    (
      i,
      place l i,
      (rw (lt→ltb i (l.channels * l.height * l.width) low) refl),
      rw (at.placed, sym c, sym h, sym w, tight)
          (last_end l.channels l.height l.width l.row_stride l.elem_size s.channelled s.high s.wide
            narrow),
    )
