-- ===== src/KvState/Session.antt =====
-- `WriteLayerKV`, alone and before a `Reset`: what it leaves in each row.
use autoresearch_mlx_go_ane.Prelude.{
  ℕ, ◌+◌, ◌*◌, ◌≤◌, ◌<◌, ◌≡◌, ◌≢◌, ◌⊎◌, inl, inr, refl, sym, ◌∙◌, subst, true, not, ◌||◌, List,
  none, some, arith, length, ltb, ◌==◌, Bool-cases,
}
use autoresearch_mlx_go_ane.Prelude.Int.{pos}
use autoresearch_mlx_go_ane.KvState.Rows.{row, mul_mono, row-first}
use autoresearch_mlx_go_ane.KvState.Steps.{
  IsLiveLayer, IsValid, put_layer, layer_at-All, layer_at-modify, layer_at-modify_other, put_row,
  write_layer_kv-ok, put_row-IsValid,
}
use autoresearch_mlx_go_ane.KvState.{
  State, Fault, layer_at, write_layer, write_layer_kv, reset, bad_layer, bad_position, bad_row,
}
use autoresearch_mlx_go_ane.KvState.Clear.{keys, values, row_at, put-in, put-out, reset-Cut}

lengths :
    (n i m p k v r : ℕ)
    → ltb i n ≡ true
    → ltb p m ≡ true
    → ((n ≤ i) ⊎ (m ≤ p)) ⊎ ((k ≢ r) ⊎ (v ≢ r))
    → (not (k == r) || not (v == r)) ≡ true
lengths n i m p k v r e f h = ground arith

lt_or_eq : (i j : ℕ) → (i ≢ j) ⊎ (i ≡ j)
lt_or_eq i j = grind arith

other_row : (i j q p : ℕ) → i ≡ j → (j ≢ i) ⊎ (q ≢ p) → (q < p) ⊎ (p + 1 ≤ q)
other_row i j q p e apart = grind arith

module _ {A : Type 0} where
  -- What a written row leaves.
  pub record Wrote (s t : State A) (i : ℕ) (ks vs : List A) : Type 0 where
    pub serves : IsValid t
    pub stays : t.position ≡ s.position
    pub written : row_at t i s.position ≡ (ks, vs)
    pub others : (j q : ℕ) → (j ≢ i) ⊎ (q ≢ s.position) → row_at t j q ≡ row_at s j q

  wrote-here :
      (s : State A) (i : ℕ) (ks vs : List A)
      → IsValid s
      → i < s.num_layers
      → s.position < s.max_seq_len
      → length ks ≡ s.row_size
      → length vs ≡ s.row_size
      → row_at (put_row s i ks vs) i s.position ≡ (ks, vs)
  wrote-here s i ks vs h hi hp ek ev =
      let there : i < length s.layers = rw h.sized hi in
      let live = layer_at-All (IsLiveLayer s.surface_n) s.layers i h.live there in
      let bound : (s.position + 1) * s.row_size ≤ s.max_seq_len * s.row_size =
        mul_mono (s.position + 1) s.max_seq_len s.row_size (omega arith) in
      let one : 1 * s.row_size ≡ s.row_size = omega arith in
      let at : s.position + 0 ≡ s.position = omega arith in
      let (e, f) =
        put-in s.row_size s.surface_n s.position 1 0 ks vs (layer_at s.layers i) live (ek ∙ sym one)
          (ev ∙ sym one) (rw h.area bound) (omega arith) in
      let e' =
        subst
          (λ x.
            row s.row_size x
              (keys (put_layer (s.position * s.row_size) ks vs (layer_at s.layers i)))
            ≡ row s.row_size 0 ks)
          at e in
      let f' =
        subst
          (λ x.
            row s.row_size x
              (values (put_layer (s.position * s.row_size) ks vs (layer_at s.layers i)))
            ≡ row s.row_size 0 vs)
          at f in
      rw
        (
          layer_at-modify s.layers i
              (put_layer (s.position * s.row_size) ks vs (layer_at s.layers i)) there,
          e',
          f',
          row-first ks s.row_size ek,
          row-first vs s.row_size ev,
        )
        refl

  wrote-others :
      (s : State A) (i j q : ℕ) (ks vs : List A)
      → i < length s.layers
      → length ks ≡ s.row_size
      → length vs ≡ s.row_size
      → (j ≢ i) ⊎ (q ≢ s.position)
      → row_at (put_row s i ks vs) j q ≡ row_at s j q
  wrote-others s i j q ks vs there ek ev apart = elim (lt_or_eq i j) [
    | inl ne ↦
        rw
          (layer_at-modify_other s.layers i j
            (λ _. put_layer (s.position * s.row_size) ks vs (layer_at s.layers i)) ne)
          refl
    | inr e ↦
        let one : 1 * s.row_size ≡ s.row_size = omega arith in
        let beside : (q < s.position) ⊎ (s.position + 1 ≤ q) = other_row i j q s.position e apart in
        let (f, g) =
          put-out s.row_size s.position 1 q ks vs (layer_at s.layers i) (ek ∙ sym one)
            (ev ∙ sym one) beside in
        rw
          (
            sym e,
            layer_at-modify s.layers i
                (put_layer (s.position * s.row_size) ks vs (layer_at s.layers i)) there,
            f,
            g,
          )
          refl
  ]

  -- On a state in service, rows of the right length for a layer and a position in range are written
  -- without an error: the row at the position of that layer reads back as written, every other row
  -- of every layer is unchanged, and the state stays in service.
  pub write_layer_kv-Wrote :
      (s : State A) (i : ℕ) (ks vs : List A)
      → IsValid s
      → i < s.num_layers
      → s.position < s.max_seq_len
      → length ks ≡ s.row_size
      → length vs ≡ s.row_size
      → (t : State A) × (write_layer_kv s (pos i) ks vs ≡ (t, none)) × Wrote s t i ks vs
  write_layer_kv-Wrote s i ks vs h hi hp ek ev = (
    put_row s i ks vs,
    write_layer_kv-ok s i ks vs h hi hp ek ev,
    record {
      serves = put_row-IsValid s i ks vs h hi;
      stays = refl;
      written = wrote-here s i ks vs h hi hp ek ev;
      others = λ j q apart. wrote-others s i j q ks vs (rw h.sized hi) ek ev apart;
    },
  )

  -- On a state in service, after rows of the right length are written for a layer and a position in
  -- range, a `Reset` without an `Advance` between succeeds and moves to position 0, and the written
  -- row is still there.
  pub reset_keeps_row :
      (z : A) (s : State A) (i : ℕ) (ks vs : List A)
      → IsValid s
      → i < s.num_layers
      → s.position < s.max_seq_len
      → length ks ≡ s.row_size
      → length vs ≡ s.row_size
      → (t : State A) × (reset z ((write_layer_kv s (pos i) ks vs).0) ≡ (t, none))
        × (t.position ≡ 0)
        × (row_at t i s.position ≡ (ks, vs))
  reset_keeps_row z s i ks vs h hi hp ek ev =
      let (w, same, wrote) = write_layer_kv-Wrote s i ks vs h hi hp ek ev in
      let (t, done, c) = reset-Cut z w wrote.serves in
      let behind : (s.position < 0) ⊎ (0 + w.position ≤ s.position) =
        inr (let e = wrote.stays in omega arith) in
      (t, rw same done, c.placed, c.kept i s.position behind ∙ wrote.written)

  -- A row for a layer or at a position out of range, or of the wrong length, is refused with an
  -- error, and the state is left as it is.
  pub write_layer_kv_refuses :
      (s : State A) (i : ℕ) (ks vs : List A)
      → ((s.num_layers ≤ i) ⊎ (s.max_seq_len ≤ s.position))
        ⊎ ((length ks ≢ s.row_size) ⊎ (length vs ≢ s.row_size))
      → (f : Fault) × (write_layer_kv s (pos i) ks vs ≡ (s, some f))
  unfolding write_layer_kv write_layer
  write_layer_kv_refuses s i ks vs h = elim (Bool-cases (ltb i s.num_layers)) [
    | inr e ↦ (bad_layer, simp (e))
    | inl e ↦ elim (Bool-cases (ltb s.position s.max_seq_len)) [
      | inr f ↦ (bad_position, simp (e, f))
      | inl f ↦
          let lens =
            lengths s.num_layers i s.max_seq_len s.position (length ks) (length vs) s.row_size e f
              h in
          (bad_row, simp (e, f, lens))
    ]
  ]
