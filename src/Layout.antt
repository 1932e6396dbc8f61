-- ===== src/Layout.antt =====
-- compiled_layout_darwin.go and surface_layout_io_darwin.go: the strided layout of a compiled tensor,
-- the place of an element in it, and the half-precision codec of its elements.
-- A negative size is read as 0, which every test of `valid` refuses like a negative one. A float is
-- its bits, a surface its bytes, and an index past the slice a panic.
pub mod Place
pub mod Overrun
pub mod Writes
pub mod Half
mod Tests
use autoresearch_mlx_go_ane.Prelude.{
  ℕ, zero, suc, ◌+◌, ◌-◌, ◌*◌, ◌/◌, ◌%◌, ◌^◌, Bool, true, false, not, ◌&&◌, ◌||◌, List, [], ◌∷◌,
  Option, none, some, ltb, leb, ◌==◌, if◌then◌else◌, length,
}
use autoresearch_mlx_go_ane.Surface.{overwrite}

pub record Layout : Type 0 where
  pub channels : ℕ
  pub width : ℕ
  pub height : ℕ
  pub elem_size : ℕ
  pub row_stride : ℕ
  pub plane_stride : ℕ

unfoldable pub logical_count : Layout → ℕ
logical_count l = l.channels * l.height * l.width

unfoldable pub alloc_size : Layout → ℕ
alloc_size l = l.channels * l.plane_stride

unfoldable pub valid : Layout → Bool
valid l =
    not (l.channels == 0 || l.width == 0 || l.height == 0)
    && (l.elem_size == 2 || l.elem_size == 4)
    && not (l.row_stride == 0 || not (l.row_stride % 64 == 0))
    && not (ltb l.plane_stride (l.height * l.row_stride))

-- The sum that layoutByteOffset returns.
unfoldable pub place : Layout → ℕ → ℕ
place l i =
    let row_size = l.channels * l.width in
    let rem = i % row_size in
    rem / l.width * l.plane_stride + i / row_size * l.row_stride + rem % l.width * l.elem_size

unfoldable pub layout_byte_offset : Layout → ℕ → ℕ → Option ℕ
unfolding place
layout_byte_offset l i count = if ltb i count then some (place l i) else none

-- float32ToFP16: 112 is 127 - 15.
unfoldable pub float32_to_fp16 : ℕ → ℕ
float32_to_fp16 b =
    let sign = b / 2147483648 % 2 * 32768 in
    let exp = b / 8388608 % 256 in
    if leb exp 112
    then sign
    else if leb 143 exp
    then sign + 31744
    else sign + (exp - 112) * 1024 + b % 8388608 / 8192

-- The loop that shifts a subnormal's fraction up to its leading bit, with the number of its steps;
-- a fraction that is not 0 needs at most ten.
pub shift_up : ℕ → ℕ → ℕ → ℕ × ℕ
shift_up zero steps frac = (steps, frac)
shift_up (suc fuel) steps frac =
    let rest = shift_up fuel (steps + 1) (frac * 2) in
    if frac / 1024 % 2 == 0 then rest else (steps, frac)

-- The exponent counts down from 0 on uint32 and is added to 113, which wraps it back.
pub subnormal : ℕ → ℕ × ℕ → ℕ
subnormal sign (steps, frac) = sign * 2147483648 + (113 - steps) * 8388608 + frac % 1024 * 8192

unfoldable pub fp16_to_float32 : ℕ → ℕ
unfolding shift_up subnormal
fp16_to_float32 h =
    let sign = h / 32768 % 2 in
    let exp = h / 1024 % 32 in
    let frac = h % 1024 in
    if exp == 0
    then (if frac == 0 then sign * 2147483648 else subnormal sign (shift_up 10 0 frac))
    else if ltb exp 31
    then sign * 2147483648 + (exp + 112) * 8388608 + frac * 8192
    else sign * 2147483648 + 2139095040 + frac * 8192

pub data Stored : Type 0 where
  stored : List ℕ → Stored
  refused panicked : Stored

-- One element, low byte first. For the wide element only the first index is tested.
pub store : Layout → ℕ → ℕ → List ℕ → Stored
unfolding alloc_size float32_to_fp16
store l off v bytes =
    if l.elem_size == 2
    then (if ltb (off + 1) (alloc_size l)
        then stored
            (overwrite bytes off (float32_to_fp16 v % 256 ∷ float32_to_fp16 v / 256 % 256 ∷ []))
        else panicked)
    else if l.elem_size == 4
    then (if ltb off (alloc_size l)
        then stored (
            overwrite bytes off
              (v % 256 ∷ v / 256 % 256 ∷ v / 65536 % 256 ∷ v / 16777216 % 256 ∷ []))
        else panicked)
    else refused

pub store_placed : Layout → Option ℕ → ℕ → List ℕ → Stored
unfolding store
store_placed l none v bytes = refused
store_placed l (some off) v bytes = store l off v bytes

pub store_all : Layout → ℕ → ℕ → List ℕ → Stored → Stored
unfolding store_placed layout_byte_offset
store_all l i count [] s = s
store_all l i count (v ∷ vs) refused = refused
store_all l i count (v ∷ vs) panicked = panicked
store_all l i count (v ∷ vs) (stored bytes) =
    store_all l (i + 1) count vs (store_placed l (layout_byte_offset l i count) v bytes)

-- writeFloat32IOSurfaceAtWithLayout; `answers` says that the surface locks, maps, and is as large as
-- the layout's allocation.
unfoldable pub write_at_with_layout : Layout → Bool → ℕ → List ℕ → ℕ → List ℕ → Stored
unfolding valid store_all
write_at_with_layout l answers offset values count bytes =
    if not (valid l)
    then refused
    else if ltb count (offset + length values)
    then refused
    else if not answers
    then refused
    else store_all l offset count values (stored bytes)
