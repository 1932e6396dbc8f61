-- ===== src/KvState/Steps.antt =====
-- One operation on a state in service.
use autoresearch_mlx_go_ane.Prelude.{
  ℕ, zero, suc, ◌+◌, ◌*◌, ◌≤◌, ◌<◌, ◌≡◌, ◌≢◌, refl, sym, ap, ◌∙◌, true, List, [], ◌∷◌, map, none,
  some, arith, length, length-replicate, replicate, lt→ltb, eqb_refl,
}
use autoresearch_mlx_go_ane.Prelude.Int.{pos}
use autoresearch_mlx_go_ane.Prelude.Modify.{All, All-modify, modify, length-modify}
use autoresearch_mlx_go_ane.Surface.{overwrite}
use autoresearch_mlx_go_ane.Surface.Access.{IsLive, write_at-ok, overwrite-IsLive}
use autoresearch_mlx_go_ane.KvState.Rows.{mul_mono, row_fits}
use autoresearch_mlx_go_ane.KvState.{
  Layer, State, write_pair, layer_at, fault_of, write_row, write_layer, write_layer_kv, clear_layer,
  clear_layers, move_to,
}

module _ {A : Type 0} where
  abbrev pub IsLiveLayer : ℕ → Layer A → Type 0
  IsLiveLayer n (some k, some v) = IsLive n k × IsLive n v
  IsLiveLayer n (none, v) = ⊥
  IsLiveLayer n (some k, none) = ⊥

  -- A state in service: both surfaces of every layer are live, hold one row for each position, and
  -- the position is in range.
  pub record IsValid (s : State A) : Type 0 where
    pub live : All (IsLiveLayer s.surface_n) s.layers
    pub sized : length s.layers ≡ s.num_layers
    pub area : s.surface_n ≡ s.max_seq_len * s.row_size
    pub within : s.position ≤ s.max_seq_len
    pub wide : 0 < s.row_size

  -- The cells of both surfaces after an overwrite.
  abbrev pub put_layer : ℕ → List A → List A → Layer A → Layer A
  put_layer offset ks vs (some k, some v) = (
    some (record k { cells = overwrite k.cells offset ks }),
    some (record v { cells = overwrite v.cells offset vs }),
  )
  put_layer offset ks vs (none, v) = (none, v)
  put_layer offset ks vs (some k, none) = (some k, none)

  pub put_layer-IsLive :
      (n offset : ℕ) (ks vs : List A) (l : Layer A)
      → IsLiveLayer n l
      → IsLiveLayer n (put_layer offset ks vs l)
  put_layer-IsLive n offset ks vs (some k, some v) h =
      (overwrite-IsLive n k offset ks h.0, overwrite-IsLive n v offset vs h.1)
  put_layer-IsLive n offset ks vs (none, v) h = h
  put_layer-IsLive n offset ks vs (some k, none) h = h

  pub write_pair-ok :
      (n offset : ℕ) (ks vs : List A) (l : Layer A)
      → IsLiveLayer n l
      → offset + length ks ≤ n
      → offset + length vs ≤ n
      → write_pair l offset ks vs ≡ (put_layer offset ks vs l, true)
  unfolding write_pair
  write_pair-ok n offset ks vs (some k, some v) h f g =
      rw (write_at-ok n k offset ks h.0 f, write_at-ok n v offset vs h.1 g, write_pair)
  write_pair-ok n offset ks vs (none, v) h f g = absurd h
  write_pair-ok n offset ks vs (some k, none) h f g = absurd h

  pub clear_layers-ok :
      (n start : ℕ) (zs : List A) (ls : List (Layer A))
      → All (IsLiveLayer n) ls
      → start + length zs ≤ n
      → clear_layers ls start zs ≡ (map (put_layer start zs zs) ls, true)
  unfolding clear_layers clear_layer
  clear_layers-ok n start zs [] h f = refl
  clear_layers-ok n start zs ((some k, some v) ∷ ls) h f =
      simp
        (write_pair-ok n start zs zs (some k, some v) h.0 f f, clear_layers-ok n start zs ls h.1 f)
  clear_layers-ok n start zs ((none, v) ∷ ls) h f = absurd h.0
  clear_layers-ok n start zs ((some k, none) ∷ ls) h f = absurd h.0

  pub layer_at-All :
      (P : Layer A → Type 0) (ls : List (Layer A)) (i : ℕ)
      → All P ls
      → i < length ls
      → P (layer_at ls i)
  layer_at-All P [] i h g = absurd (omega arith)
  layer_at-All P (l ∷ ls) zero h g = h.0
  layer_at-All P (l ∷ ls) (suc i) h g = layer_at-All P ls i h.1 (omega arith)

  pub layer_at-modify :
      (ls : List (Layer A)) (i : ℕ) (l : Layer A)
      → i < length ls
      → layer_at (modify ls i (λ _. l)) i ≡ l
  layer_at-modify [] i l g = absurd (omega arith)
  layer_at-modify (l' ∷ ls) zero l g = refl
  layer_at-modify (l' ∷ ls) (suc i) l g = layer_at-modify ls i l (omega arith)

  pub layer_at-modify_other :
      (ls : List (Layer A)) (i j : ℕ) (f : Layer A → Layer A)
      → i ≢ j
      → layer_at (modify ls i f) j ≡ layer_at ls j
  layer_at-modify_other [] i j f ne = refl
  layer_at-modify_other (l ∷ ls) zero zero f ne = absurd (ne refl)
  layer_at-modify_other (l ∷ ls) zero (suc j) f ne = refl
  layer_at-modify_other (l ∷ ls) (suc i) zero f ne = refl
  layer_at-modify_other (l ∷ ls) (suc i) (suc j) f ne =
      layer_at-modify_other ls i j f (λ e. ne (ap suc e))

  pub layer_at-map :
      (f : Layer A → Layer A) (ls : List (Layer A)) (i : ℕ)
      → f (none, none) ≡ (none, none)
      → layer_at (map f ls) i ≡ f (layer_at ls i)
  layer_at-map f [] i e = sym e
  layer_at-map f (l ∷ ls) zero e = refl
  layer_at-map f (l ∷ ls) (suc i) e = layer_at-map f ls i e

  -- The state after a row was written.
  abbrev pub put_row : State A → ℕ → List A → List A → State A
  put_row s i ks vs = record s {
    layers =
        modify s.layers i (λ _. put_layer (s.position * s.row_size) ks vs (layer_at s.layers i));
  }

  pub write_layer_kv-ok :
      (s : State A) (i : ℕ) (ks vs : List A)
      → IsValid s
      → i < s.num_layers
      → s.position < s.max_seq_len
      → length ks ≡ s.row_size
      → length vs ≡ s.row_size
      → write_layer_kv s (pos i) ks vs ≡ (put_row s i ks vs, none)
  unfolding write_layer_kv write_layer write_row fault_of
  write_layer_kv-ok s i ks vs h hi hp ek ev =
      let fits = row_fits s.position s.max_seq_len s.row_size s.surface_n hp h.area in
      let there : i < length s.layers = rw h.sized hi in
      let written =
        write_pair-ok s.surface_n (s.position * s.row_size) ks vs (layer_at s.layers i)
          (layer_at-All (IsLiveLayer s.surface_n) s.layers i h.live there) (rw ek fits)
          (rw ev fits) in
      simp (
        lt→ltb i s.num_layers hi,
        lt→ltb s.position s.max_seq_len hp,
        ek,
        ev,
        eqb_refl s.row_size,
        written,
      )

  pub put_row-IsValid :
      (s : State A) (i : ℕ) (ks vs : List A)
      → IsValid s
      → i < s.num_layers
      → IsValid (put_row s i ks vs)
  put_row-IsValid s i ks vs h hi =
      let there : i < length s.layers = rw h.sized hi in
      let mine = layer_at-All (IsLiveLayer s.surface_n) s.layers i h.live there in
      record {
        live =
            All-modify (IsLiveLayer s.surface_n) _ s.layers i
              (λ _ _. put_layer-IsLive s.surface_n _ ks vs (layer_at s.layers i) mine) h.live;
        sized = length-modify s.layers i _ ∙ h.sized;
        area = h.area;
        within = h.within;
        wide = h.wide;
      }

  map_put-IsLive :
      (n start : ℕ) (zs : List A) (ls : List (Layer A))
      → All (IsLiveLayer n) ls
      → All (IsLiveLayer n) (map (put_layer start zs zs) ls)
  map_put-IsLive n start zs [] h = tt
  map_put-IsLive n start zs (l ∷ ls) h =
      (put_layer-IsLive n start zs zs l h.0, map_put-IsLive n start zs ls h.1)

  length-map_put :
      (start : ℕ) (zs : List A) (ls : List (Layer A))
      → length (map (put_layer start zs zs) ls) ≡ length ls
  length-map_put start zs [] = refl
  length-map_put start zs (l ∷ ls) = ap suc (length-map_put start zs ls)

  -- The state moved to `p` with the `n` rows from `p` on filled with `z`.
  abbrev pub cut : A → State A → ℕ → ℕ → State A
  cut z s p n = record s {
    layers =
        map
          (put_layer (p * s.row_size) (replicate (n * s.row_size) z) (replicate (n * s.row_size) z))
          s.layers;
    position = p;
  }

  pub cut-IsValid :
      (z : A) (s : State A) (p n : ℕ) → IsValid s → p ≤ s.position → IsValid (cut z s p n)
  cut-IsValid z s p n h le = record {
    live = map_put-IsLive s.surface_n _ _ s.layers h.live;
    sized = length-map_put _ _ s.layers ∙ h.sized;
    area = h.area;
    within = let top : s.position ≤ s.max_seq_len = h.within in omega arith;
    wide = h.wide;
  }

  rows_fit :
      (z : A) (s : State A) (p n : ℕ)
      → IsValid s
      → p + n ≤ s.position
      → p * s.row_size + length (replicate (n * s.row_size) z) ≤ s.surface_n
  rows_fit z s p n h le =
      let top : s.position ≤ s.max_seq_len = h.within in
      let within : p + n ≤ s.max_seq_len = omega arith in
      let bound : (p + n) * s.row_size ≤ s.max_seq_len * s.row_size =
        mul_mono _ _ s.row_size within in
      let split : (p + n) * s.row_size ≡ p * s.row_size + n * s.row_size = grind arith in
      rw (length-replicate (n * s.row_size) z, h.area, sym split) bound

  -- Both `Rewind` and `Reset` do this on a state in service.
  pub clear-ok :
      (z : A) (s : State A) (p n : ℕ)
      → IsValid s
      → p + n ≤ s.position
      → move_to s p (clear_layers s.layers (p * s.row_size) (replicate (n * s.row_size) z))
        ≡ (cut z s p n, none)
  unfolding move_to
  clear-ok z s p n h le = simp (
      clear_layers-ok s.surface_n (p * s.row_size) (replicate (n * s.row_size) z) s.layers h.live
        (rows_fit z s p n h le))
