-- ===== src/Layout/Half.antt =====
-- The half-precision codec.
use autoresearch_mlx_go_ane.Prelude.{
  ℕ, zero, suc, ◌+◌, ◌-◌, ◌*◌, ◌/◌, ◌%◌, ◌≤◌, ◌<◌, ◌≡◌, inl, inr, refl, true, false, arith, ltb,
  leb, ◌==◌, if◌then◌else◌, Bool-cases, ltb→lt, ◌∙◌,
}
use autoresearch_mlx_go_ane.Layout.{float32_to_fp16, fp16_to_float32, shift_up, subnormal}

-- The three fields of the widened number.
fields :
    (s e f : ℕ)
    → s < 2
    → e < 256
    → f < 1024
    → ((s * 2147483648 + e * 8388608 + f * 8192) / 2147483648 % 2 ≡ s)
      × ((s * 2147483648 + e * 8388608 + f * 8192) / 8388608 % 256 ≡ e)
      × ((s * 2147483648 + e * 8388608 + f * 8192) % 8388608 / 8192 ≡ f)
fields s e f hs he hf = (omega arith, omega arith, omega arith)

-- The three fields of the half number.
halves : (h : ℕ) → h < 65536 → h / 32768 % 2 * 32768 + h / 1024 % 32 * 1024 + h % 1024 ≡ h
halves h b = omega arith

steps_grow : (fuel k frac : ℕ) → k ≤ (shift_up fuel k frac).0
unfolding shift_up
steps_grow zero k frac = omega arith
steps_grow (suc fuel) k frac = elim (Bool-cases (frac / 1024 % 2 == 0)) [
  | inl e ↦ let more = steps_grow fuel (k + 1) (frac * 2) in rw e (omega arith)
  | inr e ↦ rw e (omega arith)
]

one_step : (frac : ℕ) → frac < 1024 → 1 ≤ (shift_up 10 0 frac).0
unfolding shift_up
one_step frac h = let low : frac / 1024 % 2 ≡ 0 = omega arith in rw low (steps_grow 9 1 (frac * 2))

-- A number whose exponent field is 112 or less is flushed to a zero of its sign.
flush-low :
    (s e f : ℕ)
    → s < 2
    → e ≤ 112
    → f < 1024
    → float32_to_fp16 (s * 2147483648 + e * 8388608 + f * 8192) ≡ s * 32768
unfolding float32_to_fp16
flush-low s e f hs he hf =
    let (a, b, c) = fields s e f hs (omega arith) hf in
    let low : leb e 112 ≡ true = ground arith in rw (a, b, low) refl

round :
    (s e f : ℕ)
    → s < 2
    → 112 < e
    → e < 143
    → f < 1024
    → float32_to_fp16 (s * 2147483648 + e * 8388608 + f * 8192) ≡ s * 32768 + (e - 112) * 1024 + f
unfolding float32_to_fp16
round s e f hs he he' hf =
    let (a, b, c) = fields s e f hs (omega arith) hf in
    let low : leb e 112 ≡ false = ground arith in
    let high : leb 143 e ≡ false = ground arith in rw (a, b, c, low, high) refl

top :
    (s f : ℕ)
    → s < 2
    → f < 1024
    → float32_to_fp16 (s * 2147483648 + 2139095040 + f * 8192) ≡ s * 32768 + 31744
unfolding float32_to_fp16
top s f hs hf = let (a, b, c) = fields s 255 f hs (omega arith) hf in rw (a, b) refl

-- What the narrow codec makes of its own widened numbers: subnormals go to a zero and NaNs to an
-- infinity of their sign, and every other number to itself.
pub canonical : ℕ → ℕ
canonical h =
    if h / 1024 % 32 == 0
    then h / 32768 % 2 * 32768
    else if h / 1024 % 32 == 31
    then h / 32768 % 2 * 32768 + 31744
    else h

-- Every half-precision number widened and narrowed is the same number again, but that subnormals
-- become a zero of their sign and NaNs an infinity of their sign.
pub float32_to_fp16-fp16_to_float32 :
    (h : ℕ) → h < 65536 → float32_to_fp16 (fp16_to_float32 h) ≡ canonical h
unfolding fp16_to_float32 subnormal canonical
float32_to_fp16-fp16_to_float32 h b = elim (Bool-cases (h / 1024 % 32 == 0)) [
  | inl e ↦ elim (Bool-cases (h % 1024 == 0)) [
    | inl f ↦
        let pad : h / 32768 % 2 * 2147483648 ≡ h / 32768 % 2 * 2147483648 + 0 * 8388608 + 0 * 8192 =
          omega arith in
        rw (e, f, pad) (flush-low (h / 32768 % 2) 0 0 (omega arith) (omega arith) (omega arith))
    | inr f ↦
        let many = one_step (h % 1024) (omega arith) in
        rw (e, f)
          (flush-low (h / 32768 % 2) (113 - (shift_up 10 0 (h % 1024)).0)
            ((shift_up 10 0 (h % 1024)).1 % 1024) (omega arith) (omega arith) (omega arith))
  ]
  | inr e ↦ elim (Bool-cases (h / 1024 % 32 == 31)) [
    | inl f ↦
        let last : ltb (h / 1024 % 32) 31 ≡ false = ground arith in
        rw (e, f, last) (top (h / 32768 % 2) (h % 1024) (omega arith) (omega arith))
    | inr f ↦
        let below : ltb (h / 1024 % 32) 31 ≡ true = ground arith in
        let some_exp : 0 < h / 1024 % 32 = ground arith in
        let small : h / 1024 % 32 < 31 = ltb→lt _ _ below in
        rw (e, f, below)
          (round (h / 32768 % 2) (h / 1024 % 32 + 112) (h % 1024) (omega arith) (omega arith)
              (omega arith) (omega arith)
            ∙ (omega arith))
  ]
]
