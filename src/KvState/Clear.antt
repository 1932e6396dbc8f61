-- ===== src/KvState/Clear.antt =====
-- `Rewind` and `Reset`: what they leave in each row.
use autoresearch_mlx_go_ane.Prelude.{
  ℕ, zero, suc, ◌+◌, ◌-◌, ◌*◌, ◌≤◌, ◌<◌, ◌≡◌, ◌⊎◌, inl, inr, refl, subst, true, List, [], none,
  some, arith, length, length-replicate, replicate, leb, leb→le, ◌==◌, Bool-cases,
}
use autoresearch_mlx_go_ane.Prelude.Int.{pos}
use autoresearch_mlx_go_ane.KvState.Rows.{
  row, mul_mono, row-overwrite_in, row-overwrite_out, row-replicate,
}
use autoresearch_mlx_go_ane.KvState.Steps.{
  IsLiveLayer, IsValid, put_layer, layer_at-All, layer_at-map, cut, cut-IsValid, clear-ok,
}
use autoresearch_mlx_go_ane.KvState.{
  Layer, State, layer_at, clear_layers, move_to, reset, rewind_by, rewind,
}

unused : (p r : ℕ) → 0 < r → (p * r == 0) ≡ true → p ≡ 0
unused zero r h e = refl
unused (suc p) (suc r) h e = absurd (ground (arith, e))
unused (suc p) zero h e = absurd (omega arith)

module _ {A : Type 0} where
  abbrev pub keys : Layer A → List A
  keys (some k, v) = k.cells
  keys (none, v) = []

  abbrev pub values : Layer A → List A
  values (k, some v) = v.cells
  values (k, none) = []

  abbrev pub row_at : State A → ℕ → ℕ → List A × List A
  row_at s j q = (
    row s.row_size q (keys (layer_at s.layers j)),
    row s.row_size q (values (layer_at s.layers j)),
  )

  pub put-in :
      (r n p m q : ℕ) (ks vs : List A) (l : Layer A)
      → IsLiveLayer n l
      → length ks ≡ m * r
      → length vs ≡ m * r
      → (p + m) * r ≤ n
      → q < m
      → (row r (p + q) (keys (put_layer (p * r) ks vs l)) ≡ row r q ks)
        × (row r (p + q) (values (put_layer (p * r) ks vs l)) ≡ row r q vs)
  put-in r n p m q ks vs (some k, some v) h ek ev f g = (
    row-overwrite_in r p m q k.cells ks ek (rw (h.0).full f) g,
    row-overwrite_in r p m q v.cells vs ev (rw (h.1).full f) g,
  )
  put-in r n p m q ks vs (none, v) h ek ev f g = absurd h
  put-in r n p m q ks vs (some k, none) h ek ev f g = absurd h

  pub put-out :
      (r p m q : ℕ) (ks vs : List A) (l : Layer A)
      → length ks ≡ m * r
      → length vs ≡ m * r
      → (q < p) ⊎ (p + m ≤ q)
      → (row r q (keys (put_layer (p * r) ks vs l)) ≡ row r q (keys l))
        × (row r q (values (put_layer (p * r) ks vs l)) ≡ row r q (values l))
  put-out r p m q ks vs (some k, some v) ek ev apart =
      (row-overwrite_out r p m q k.cells ks ek apart, row-overwrite_out r p m q v.cells vs ev apart)
  put-out r p m q ks vs (none, v) ek ev apart = (refl, refl)
  put-out r p m q ks vs (some k, none) ek ev apart = (refl, refl)

  -- The rows of a state moved to `p` by `n`.
  pub record Cut (z : A) (s t : State A) (p n : ℕ) : Type 0 where
    pub valid : IsValid t
    pub placed : t.position ≡ p
    pub cleared :
        (j q : ℕ)
        → j < s.num_layers
        → p ≤ q
        → q < p + n
        → row_at t j q ≡ (replicate s.row_size z, replicate s.row_size z)
    pub kept : (j q : ℕ) → (q < p) ⊎ (p + n ≤ q) → row_at t j q ≡ row_at s j q

  cut-cleared :
      (z : A) (s : State A) (p n j q : ℕ)
      → IsValid s
      → p + n ≤ s.position
      → j < s.num_layers
      → q < n
      → row_at (cut z s p n) j (p + q) ≡ (replicate s.row_size z, replicate s.row_size z)
  cut-cleared z s p n j q h le hj hq =
      let zs = replicate (n * s.row_size) z in
      let there : j < length s.layers = rw h.sized hj in
      let live = layer_at-All (IsLiveLayer s.surface_n) s.layers j h.live there in
      let top : s.position ≤ s.max_seq_len = h.within in
      let bound : (p + n) * s.row_size ≤ s.max_seq_len * s.row_size =
        mul_mono (p + n) s.max_seq_len s.row_size (omega arith) in
      let sized = length-replicate (n * s.row_size) z in
      let (e, f) =
        put-in s.row_size s.surface_n p n q zs zs (layer_at s.layers j) live sized sized
          (rw h.area bound) hq in
      let r = row-replicate s.row_size n q z hq in
      rw (layer_at-map (put_layer (p * s.row_size) zs zs) s.layers j refl, e, f, r) refl

  cut-kept :
      (z : A) (s : State A) (p n j q : ℕ)
      → (q < p) ⊎ (p + n ≤ q)
      → row_at (cut z s p n) j q ≡ row_at s j q
  cut-kept z s p n j q apart =
      let zs = replicate (n * s.row_size) z in
      let sized = length-replicate (n * s.row_size) z in
      let (e, f) = put-out s.row_size p n q zs zs (layer_at s.layers j) sized sized apart in
      rw (layer_at-map (put_layer (p * s.row_size) zs zs) s.layers j refl, e, f) refl

  cut-Cut :
      (z : A) (s : State A) (p n : ℕ) → IsValid s → p + n ≤ s.position → Cut z s (cut z s p n) p n
  cut-Cut z s p n h le = record {
    valid = cut-IsValid z s p n h (omega arith);
    placed = refl;
    cleared = λ j q hj low high.
        let at : p + (q - p) ≡ q = omega arith in
        subst (λ x. row_at (cut z s p n) j x ≡ (replicate s.row_size z, replicate s.row_size z)) at
          (cut-cleared z s p n j (q - p) h le hj (omega arith));
    kept = λ j q apart. cut-kept z s p n j q apart;
  }

  pub reset-Cut :
      (z : A) (s : State A)
      → IsValid s
      → (t : State A) × (reset z s ≡ (t, none)) × Cut z s t 0 s.position
  unfolding reset
  reset-Cut z s h = elim (Bool-cases (s.position * s.row_size == 0)) [
    | inl e ↦
        let none_used : s.position ≡ 0 = unused s.position s.row_size h.wide e in
        (
          record s { position = 0 },
          simp e,
          record {
            valid = record {
              live = h.live;
              sized = h.sized;
              area = h.area;
              within = omega arith;
              wide = h.wide;
            };
            placed = refl;
            cleared = λ j q hj low high. absurd (omega arith);
            kept = λ j q apart. refl;
          },
        )
    | inr e ↦
        let start : 0 * s.row_size ≡ 0 = omega arith in
        let cleared : move_to s 0 (clear_layers s.layers 0 (replicate (s.position * s.row_size) z))
            ≡ (cut z s 0 s.position, none) =
          subst
            (λ x.
              move_to s 0 (clear_layers s.layers x (replicate (s.position * s.row_size) z))
              ≡ (cut z s 0 s.position, none))
            start (clear-ok z s 0 s.position h (omega arith)) in
        (cut z s 0 s.position, simp (e, cleared), cut-Cut z s 0 s.position h (omega arith))
  ]

  -- On a state in service `Rewind` by `n` does not fail: it moves the position back by `n`, to 0 at
  -- the least, keeps the state in service, fills the rows between with zeros in every layer, and
  -- keeps every other row.
  pub rewind-Cut :
      (z : A) (s : State A) (n : ℕ)
      → IsValid s
      → (t : State A) × (rewind z s (pos n) ≡ (t, none))
        × Cut z s t (s.position - n) (s.position - (s.position - n))
  unfolding rewind rewind_by
  rewind-Cut z s zero h =
      let here : s.position - 0 ≡ s.position = omega arith in
      let still : Cut z s s s.position (s.position - s.position) = record {
        valid = h;
        placed = refl;
        cleared = λ j q hj low high. absurd (omega arith);
        kept = λ j q apart. refl;
      } in
      (s, refl, rw here still)
  rewind-Cut z s (suc n) h = elim (Bool-cases (leb s.position (suc n))) [
    | inl e ↦
        let past : s.position ≤ suc n = leb→le s.position (suc n) e in
        let base : s.position - suc n ≡ 0 = omega arith in
        let (t, same, c) = reset-Cut z s h in
        let all : s.position - 0 ≡ s.position = omega arith in (t, simp (e, same), rw (base, all) c)
    | inr e ↦
        let before : suc n < s.position = grind (arith, e) in
        let span : s.position - (s.position - suc n) ≡ suc n = omega arith in
        (
          cut z s (s.position - suc n) (suc n),
          simp (e, clear-ok z s (s.position - suc n) (suc n) h (omega arith)),
          rw span (cut-Cut z s (s.position - suc n) (suc n) h (omega arith)),
        )
  ]
