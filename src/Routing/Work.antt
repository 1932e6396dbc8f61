-- ===== src/Routing/Work.antt =====
-- The overflow test of `linearMACs`.
use autoresearch_mlx_go_ane.Prelude.{
  ℕ, ◌*◌, ◌/◌, ◌<◌, ◌≡◌, ◌⊎◌, inl, inr, none, some, arith, ltb, if◌then◌else◌, lt_or_le, ◌≤◌,
}
use autoresearch_mlx_go_ane.Prelude.Int.{pos}
use autoresearch_mlx_go_ane.Routing.{linear_macs, macs_uint64, mul_uint64, u64_mod, max_uint64}

-- The test `b > q / a` says that the product is past `q`.
div_test : (q a b : ℕ) → 0 < a → ltb (q / a) b ≡ ltb q (a * b)
div_test q a b h = grind arith

mul_uint64_fits : (a b : ℕ) → a * b < u64_mod → mul_uint64 a b ≡ some (a * b)
unfolding mul_uint64
mul_uint64_fits a b h = grind (arith, div_test max_uint64 a b)

mul_uint64_overflows : (a b : ℕ) → max_uint64 < a * b → mul_uint64 a b ≡ none
unfolding mul_uint64
mul_uint64_overflows a b h = grind (arith, div_test max_uint64 a b)

macs_uint64_exact :
    (b i o : ℕ)
    → 0 < o
    → macs_uint64 b i o ≡ (if ltb (b * i * o) u64_mod then some (b * i * o) else none)
unfolding macs_uint64
macs_uint64_exact b i o h = elim (lt_or_le (b * i) u64_mod) [
  | inl small ↦ rw (mul_uint64_fits b i small, macs_uint64) (outer (lt_or_le (b * i * o) u64_mod))
  | inr large ↦ rw (mul_uint64_overflows b i large, macs_uint64) (past (grind arith))
]
  where
    past : u64_mod ≤ b * i * o → none ≡ (if ltb (b * i * o) u64_mod then some (b * i * o) else none)
    past g = ground arith

    outer :
        (b * i * o < u64_mod) ⊎ (u64_mod ≤ b * i * o)
        → mul_uint64 (b * i) o ≡ (if ltb (b * i * o) u64_mod then some (b * i * o) else none)
    outer (inl fits) = rw (mul_uint64_fits (b * i) o fits) (ground arith)
    outer (inr over) = rw (mul_uint64_overflows (b * i) o over) (past over)

-- For dimensions that are not negative, the last of them positive, the flag is set exactly when
-- their product fits in a `uint64`, and the work is then that product.
pub linear_macs_exact :
    (b i o : ℕ)
    → 0 < o
    → linear_macs (pos b) (pos i) (pos o)
      ≡ (if ltb (b * i * o) u64_mod then some (b * i * o) else none)
unfolding linear_macs
linear_macs_exact b i o h = macs_uint64_exact b i o h
