-- ===== src/Spans/Cover.antt =====
-- The spans cover the dense layers.
use autoresearch_mlx_go_ane.Prelude.{
  ℕ, zero, suc, ◌+◌, ◌≤◌, ◌≡◌, inl, inr, refl, sym, ap, ◌∙◌, Bool, List, [], ◌∷◌, ◌++◌, Option,
  none, some, arith, ◌||◌, ◌==◌, if◌then◌else◌, length, drop, Bool-cases, length-append,
}
use autoresearch_mlx_go_ane.Prelude.Modify.{All}
use autoresearch_mlx_go_ane.Spans.{
  Span, full_attention_dense_offsets, dense_from, extend, spans_from, build_direct_spans,
  direct_span_layer_count,
}

-- The layers that have an offset, from layer `i` on.
pub keys_from : ℕ → List (Option ℕ) → List ℕ
keys_from i [] = []
keys_from i (none ∷ os) = keys_from (i + 1) os
keys_from i (some o ∷ os) = i ∷ keys_from (i + 1) os

pub layers_of : List Span → List ℕ
layers_of [] = []
layers_of (s ∷ ss) = s.layers ++ layers_of ss

extend-keys :
    (j next : ℕ) (os : List (Option ℕ))
    → extend j next os
        ++ keys_from (j + length (extend j next os)) (drop (length (extend j next os)) os)
      ≡ keys_from j os
unfolding extend keys_from
extend-keys j next [] = refl
extend-keys j next (none ∷ os) = let here : j + 0 ≡ j = omega arith in rw here refl
extend-keys j next (some o ∷ os) = elim (Bool-cases (o == next)) [
  | inl e ↦
      let ih = extend-keys (j + 1) (next + 1) os in
      let turn : j + suc (length (extend (j + 1) (next + 1) os))
          ≡ j + 1 + length (extend (j + 1) (next + 1) os) =
        omega arith in
      rw (e, turn) (ap (◌∷◌ j) ih)
  | inr e ↦ let here : j + 0 ≡ j = omega arith in rw (e, here) refl
]

length-drop : (n : ℕ) (os : List (Option ℕ)) → length (drop n os) ≤ length os
length-drop zero os = omega arith
length-drop (suc n) [] = omega arith
length-drop (suc n) (o ∷ os) = let ih = length-drop n os in omega arith

spans-keys :
    (fuel i : ℕ) (os : List (Option ℕ))
    → length os ≤ fuel
    → layers_of (spans_from fuel i os) ≡ keys_from i os
unfolding spans_from keys_from layers_of
spans-keys zero i [] h = refl
spans-keys zero i (o ∷ os) h = absurd (omega arith)
spans-keys (suc fuel) i [] h = refl
spans-keys (suc fuel) i (none ∷ os) h = spans-keys fuel (i + 1) os (omega arith)
spans-keys (suc fuel) i (some o ∷ os) h =
    let less = length-drop (length (extend (i + 1) (o + 1) os)) os in
    let ih =
      spans-keys fuel (i + 1 + length (extend (i + 1) (o + 1) os))
        (drop (length (extend (i + 1) (o + 1) os)) os) (omega arith) in
    ap (◌∷◌ i) (ap (◌++◌ (extend (i + 1) (o + 1) os)) ih ∙ extend-keys (i + 1) (o + 1) os)

-- Consecutive layers.
pub count_up : ℕ → ℕ → List ℕ
count_up i zero = []
count_up i (suc n) = i ∷ count_up (i + 1) n

pub IsRun : Span → Type 0
IsRun s = (n : ℕ) × (s.layers ≡ s.start_layer ∷ count_up (s.start_layer + 1) n)

extend-run :
    (j next : ℕ) (os : List (Option ℕ)) → extend j next os ≡ count_up j (length (extend j next os))
unfolding extend count_up
extend-run j next [] = refl
extend-run j next (none ∷ os) = refl
extend-run j next (some o ∷ os) = elim (Bool-cases (o == next)) [
  | inl e ↦ rw e (ap (◌∷◌ j) (extend-run (j + 1) (next + 1) os))
  | inr e ↦ rw e refl
]

spans-IsRun : (fuel i : ℕ) (os : List (Option ℕ)) → All IsRun (spans_from fuel i os)
unfolding spans_from IsRun
spans-IsRun zero i os = tt
spans-IsRun (suc fuel) i [] = tt
spans-IsRun (suc fuel) i (none ∷ os) = spans-IsRun fuel (i + 1) os
spans-IsRun (suc fuel) i (some o ∷ os) = (
  (length (extend (i + 1) (o + 1) os), ap (◌∷◌ i) (extend-run (i + 1) (o + 1) os)),
  spans-IsRun fuel _ _,
)

-- The layers from `i` on, `n` of them, that are neither linear nor mixtures of experts.
pub dense_layers : (ℕ → Bool) → (ℕ → Bool) → ℕ → ℕ → List ℕ
dense_layers is_moe is_linear i zero = []
dense_layers is_moe is_linear i (suc n) =
    let rest = dense_layers is_moe is_linear (i + 1) n in
    if is_linear i || is_moe i then rest else i ∷ rest

keys-dense :
    (is_moe is_linear : ℕ → Bool) (i offset n : ℕ)
    → keys_from i (dense_from is_linear is_moe i offset n) ≡ dense_layers is_moe is_linear i n
unfolding dense_from keys_from dense_layers
keys-dense is_moe is_linear i offset zero = refl
keys-dense is_moe is_linear i offset (suc n) = elim (Bool-cases (is_linear i)) [
  | inl e ↦ rw e (keys-dense is_moe is_linear (i + 1) offset n)
  | inr e ↦ elim (Bool-cases (is_moe i)) [
    | inl f ↦ rw (e, f) (keys-dense is_moe is_linear (i + 1) offset n)
    | inr f ↦ rw (e, f) (ap (◌∷◌ i) (keys-dense is_moe is_linear (i + 1) (offset + 1) n))
  ]
]

count-layers : (ss : List Span) → direct_span_layer_count ss ≡ length (layers_of ss)
unfolding direct_span_layer_count layers_of
count-layers [] = refl
count-layers (s ∷ ss) =
    ap (λ n. length s.layers + n) (count-layers ss) ∙ sym (length-append s.layers (layers_of ss))

-- The spans built from the offsets of a model's dense full-attention layers hold each such layer
-- once, in order, and no other; each is a run of consecutive layers; and their layer count is the
-- number of those layers.
pub build_direct_spans-cover :
    (num_layers : ℕ) (is_moe is_linear : ℕ → Bool)
    → (layers_of (build_direct_spans (full_attention_dense_offsets num_layers is_moe is_linear))
        ≡ dense_layers is_moe is_linear 0 num_layers)
      × All IsRun (build_direct_spans (full_attention_dense_offsets num_layers is_moe is_linear))
      × (direct_span_layer_count
            (build_direct_spans (full_attention_dense_offsets num_layers is_moe is_linear))
          ≡ length (dense_layers is_moe is_linear 0 num_layers))
unfolding build_direct_spans full_attention_dense_offsets
build_direct_spans-cover num_layers is_moe is_linear =
    let os = dense_from is_linear is_moe 0 0 num_layers in
    let all =
      spans-keys (length os) 0 os (omega arith) ∙ keys-dense is_moe is_linear 0 0 num_layers in
    (all, spans-IsRun (length os) 0 os, count-layers (spans_from (length os) 0 os) ∙ ap length all)
