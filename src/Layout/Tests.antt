-- ===== src/Layout/Tests.antt =====
-- A layout with room for its rows, and one without.
use autoresearch_mlx_go_ane.Prelude.{
  ℕ, ◌≡◌, ◌≤◌, ◌<◌, ◌⊎◌, ◌+◌, refl, true, [], ◌∷◌, List, some, arith, length, replicate,
}
use autoresearch_mlx_go_ane.Layout.{
  Layout, logical_count, alloc_size, valid, layout_byte_offset, stored, write_at_with_layout,
  float32_to_fp16, fp16_to_float32,
}
use autoresearch_mlx_go_ane.Layout.Place.{layout_byte_offset-within, layout_byte_offset-apart}
use autoresearch_mlx_go_ane.Layout.Writes.{Wrote, write_at_with_layout-stored}
use autoresearch_mlx_go_ane.Layout.Half.{canonical, float32_to_fp16-fp16_to_float32}

abbrev padded : Layout
padded = record {
  channels = 2;
  width = 3;
  height = 2;
  elem_size = 2;
  row_stride = 64;
  plane_stride = 128;
}

abbrev narrow : Layout
narrow = record {
  channels = 1;
  width = 40;
  height = 2;
  elem_size = 2;
  row_stride = 64;
  plane_stride = 128;
}

abbrev two_values : List ℕ
two_values = 15360 ∷ 16384 ∷ []

abbrev blank : List ℕ
blank = replicate 256 0

padded_valid : valid padded ≡ true
unfolding valid
padded_valid = refl

narrow_valid : valid narrow ≡ true
unfolding valid
narrow_valid = refl

first_in : 0 < logical_count padded
unfolding logical_count
first_in = omega arith

last_in : 11 < logical_count padded
unfolding logical_count
last_in = omega arith

write_fits : 10 + length two_values ≤ logical_count padded
unfolding logical_count
write_fits = omega arith

layout_byte_offset-within_example :
    (off : ℕ) × (layout_byte_offset padded 11 (logical_count padded) ≡ some off)
    × (off + 2 ≤ alloc_size padded)
layout_byte_offset-within_example =
    layout_byte_offset-within padded 11 padded_valid (omega arith) last_in

layout_byte_offset-apart_example :
    (off : ℕ) × (off' : ℕ) × (layout_byte_offset padded 0 (logical_count padded) ≡ some off)
    × (layout_byte_offset padded 11 (logical_count padded) ≡ some off')
    × ((off + 2 ≤ off') ⊎ (off' + 2 ≤ off))
layout_byte_offset-apart_example =
    layout_byte_offset-apart padded 0 11 padded_valid (omega arith) first_in last_in (omega arith)

blank_holds : alloc_size padded ≤ length blank
unfolding alloc_size
blank_holds = omega arith

write_at_with_layout-stored_example :
    (after : List ℕ) × (write_at_with_layout padded true 10 two_values (logical_count padded) blank
      ≡ stored after)
    × Wrote padded 10 two_values blank after
write_at_with_layout-stored_example =
    write_at_with_layout-stored padded 10 two_values blank padded_valid (omega arith) write_fits
      blank_holds

float32_to_fp16-fp16_to_float32_example : float32_to_fp16 (fp16_to_float32 48128) ≡ canonical 48128
float32_to_fp16-fp16_to_float32_example = float32_to_fp16-fp16_to_float32 48128 (omega arith)

one_widened : fp16_to_float32 15360 ≡ 1065353216
unfolding fp16_to_float32
one_widened = refl
