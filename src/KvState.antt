-- ===== src/KvState.antt =====
-- draft_kv_state_darwin.go: the key and value surfaces of each layer, one row per position.
-- The slices `k` and `v` are kept zipped, and a nil wrapper in them is `none`. The surfaces are
-- those of `NewDraftKVSurfaceState`, which have no compiled layout.
pub mod Rows
pub mod Steps
pub mod Clear
pub mod Session
pub mod Building
mod Tests
use autoresearch_mlx_go_ane.Prelude.{
  ℕ, zero, suc, ◌+◌, ◌-◌, ◌*◌, Bool, true, false, not, ◌&&◌, ◌||◌, List, [], ◌∷◌, ◌++◌, Option,
  none, some, ltb, leb, ◌==◌, if◌then◌else◌, length, get_elem?, take, drop, replicate,
}
use autoresearch_mlx_go_ane.Prelude.Int.{ℤ, pos, negsuc, pos_part}
use autoresearch_mlx_go_ane.Prelude.Modify.{modify}
use autoresearch_mlx_go_ane.Surface.{Surface, Result, ok, err, write_at}

abbrev pub Layer : Type 0 → Type 0
Layer A = Option (Surface A) × Option (Surface A)

pub record State (A : Type 0) : Type 0 where
  pub num_layers : ℕ
  pub num_heads : ℕ
  pub head_dim : ℕ
  pub max_seq_len : ℕ
  pub row_size : ℕ
  pub surface_n : ℕ
  pub position : ℕ
  pub layers : List (Layer A)

pub data Fault : Type 0 where
  bad_layer bad_position bad_row past_end unavailable write_failed : Fault

-- An operation on the shared state: what it leaves, and its error if it returns one.
abbrev pub Done : Type 0 → Type 0
Done A = State A × Option Fault

pub fault_of : Bool → Option Fault
fault_of true = none
fault_of false = some write_failed

module _ {A : Type 0} where
  -- Both surfaces of a layer, K first; after a failed K write V is not tried.
  pub write_pair : Layer A → ℕ → List A → List A → Layer A × Bool
  write_pair (k, v) offset k_row v_row = elim (write_at k (pos offset) k_row) [
    | err e ↦ ((k, v), false)
    | ok k' ↦ elim (write_at v (pos offset) v_row) [
      | err e ↦ ((some k', v), false)
      | ok v' ↦ ((some k', some v'), true)
    ]
  ]

  -- s.k[layer], s.v[layer]
  abbrev pub layer_at : List (Layer A) → ℕ → Layer A
  layer_at [] i = (none, none)
  layer_at (l ∷ ls) zero = l
  layer_at (l ∷ ls) (suc i) = layer_at ls i

  pub write_row : State A → ℕ → List A → List A → Done A
  unfolding write_pair fault_of
  write_row s i k_row v_row =
      let (l, fine) = write_pair (layer_at s.layers i) (s.position * s.row_size) k_row v_row in
      (record s { layers = modify s.layers i (λ _. l) }, fault_of fine)

  pub write_layer : State A → ℕ → List A → List A → Done A
  unfolding write_row
  write_layer s i k_row v_row =
      if not (ltb i s.num_layers)
      then (s, some bad_layer)
      else if not (ltb s.position s.max_seq_len)
      then (s, some bad_position)
      else if not (length k_row == s.row_size) || not (length v_row == s.row_size)
      then (s, some bad_row)
      else write_row s i k_row v_row

  unfoldable pub write_layer_kv : State A → ℤ → List A → List A → Done A
  unfolding write_layer
  write_layer_kv s (negsuc n) k_row v_row = (s, some bad_layer)
  write_layer_kv s (pos i) k_row v_row = write_layer s i k_row v_row

  unfoldable pub advance : State A → Done A
  advance s =
      if ltb s.max_seq_len (s.position + 1)
      then (s, some past_end)
      else (record s { position = s.position + 1 }, none)

  -- A layer with a nil surface is skipped.
  pub clear_layer : Layer A → ℕ → List A → Layer A × Bool
  unfolding write_pair
  clear_layer (none, v) start zeros = ((none, v), true)
  clear_layer (some k, none) start zeros = ((some k, none), true)
  clear_layer (some k, some v) start zeros = write_pair (some k, some v) start zeros zeros

  -- The loop of `Rewind` and of `resetLocked`, which stops at the first failed write.
  pub clear_layers : List (Layer A) → ℕ → List A → List (Layer A) × Bool
  unfolding clear_layer
  clear_layers [] start zeros = ([], true)
  clear_layers (l ∷ ls) start zeros =
      let (l', fine) = clear_layer l start zeros in
      let (ls', rest) = clear_layers ls start zeros in
      if fine then (l' ∷ ls', rest) else (l' ∷ ls, false)

  -- What both do with the result of the loop.
  pub move_to : State A → ℕ → List (Layer A) × Bool → Done A
  move_to s p (ls, true) = (record s { layers = ls; position = p }, none)
  move_to s p (ls, false) = (record s { layers = ls }, some write_failed)

  module _ (zero_val : A) where
    unfoldable pub reset : State A → Done A
    unfolding clear_layers move_to
    reset s =
        let used = s.position * s.row_size in
        if used == 0
        then (record s { position = 0 }, none)
        else move_to s 0 (clear_layers s.layers 0 (replicate used zero_val))

    pub rewind_by : State A → ℕ → Done A
    unfolding clear_layers move_to reset
    rewind_by s n =
        let new_pos = s.position - n in
        if leb s.position n
        then reset s
        else move_to s new_pos
            (clear_layers s.layers (new_pos * s.row_size) (replicate (n * s.row_size) zero_val))

    -- n <= 0 changes nothing.
    unfoldable pub rewind : State A → ℤ → Done A
    unfolding rewind_by
    rewind s (negsuc n) = (s, none)
    rewind s (pos zero) = (s, none)
    rewind s (pos (suc n)) = rewind_by s (suc n)

  -- LayerSurfaces
  pub available : Layer A → Option (Surface A × Surface A)
  available (some k, some v) = some (k, v)
  available (some k, none) = none
  available (none, v) = none

  unfoldable pub layer_surfaces : State A → ℤ → Option (Surface A × Surface A)
  unfolding available
  layer_surfaces s (negsuc n) = none
  layer_surfaces s (pos i) = if ltb i s.num_layers then available (layer_at s.layers i) else none

  -- Every surface is closed and dropped.
  unfoldable pub close : State A → State A
  close s = record s { layers = replicate (length s.layers) (none, none); position = 0 }

-- SliceRoPERow: one row of the two tables.
unfoldable pub slice_rope_row :
    {A : Type 0} → List A → List A → ℤ → ℤ → ℤ → Option (List A × List A)
slice_rope_row cos_table sin_table (pos (suc d)) (pos (suc m)) (pos p) =
    if not (length cos_table == suc d * suc m) || not (length sin_table == suc d * suc m)
    then none
    else if not (ltb p (suc m))
    then none
    else some (take (suc d) (drop (p * suc d) cos_table), take (suc d) (drop (p * suc d) sin_table))
slice_rope_row _ _ _ _ _ = none
