-- ===== src/KvState/Building.antt =====
-- NewDraftKVSurfaceState of draft_kv_state_darwin.go: it opens two surfaces for each layer, fills
-- them with zeros, and on a failure closes every surface that it opened.
pub mod Ledger
use autoresearch_mlx_go_ane.Prelude.{
  ℕ, zero, suc, ◌+◌, ◌*◌, Bool, ◌||◌, List, [], ◌∷◌, Option, none, some, ◌==◌, if◌then◌else◌,
}
use autoresearch_mlx_go_ane.Prelude.Int.{ℤ, pos, negsuc}
use autoresearch_mlx_go_ane.Surface.{Surface, Result, ok, err, fill}
use autoresearch_mlx_go_ane.KvState.{Layer, State}

-- What NewIOSurfaceFloat32(surfaceN) returns for the key and for the value surface of each layer.
pub record AllocEnv (A : Type 0) : Type 0 where
  pub key_surface : ℕ → ℕ → Option (Surface A)
  pub value_surface : ℕ → ℕ → Option (Surface A)

-- A failure carries how many surfaces were opened and how many of them were closed again.
pub data Opened (A : Type 0) : Type 0 where
  made : A → Opened A
  dropped : ℕ → ℕ → Opened A

module _ {A : Type 0} where
  -- The two calls of Fill on the surfaces of one layer.
  pub fill_both : Surface A → Surface A → A → Opened (Layer A)
  fill_both ks vs zero_val = elim (fill (some ks) zero_val) [
    | err e ↦ dropped 2 2
    | ok ks' ↦ elim (fill (some vs) zero_val) [
      | err e ↦ dropped 2 2
      | ok vs' ↦ made (some ks', some vs')
    ]
  ]

  pub open_pair : Option (Surface A) → Option (Surface A) → A → Opened (Layer A)
  unfolding fill_both
  open_pair none vs zero_val = dropped 0 0
  open_pair (some ks) none zero_val = dropped 1 1
  open_pair (some ks) (some vs) zero_val = fill_both ks vs zero_val

  -- cleanup: the surfaces of one layer that are not nil are closed.
  pub closes : Layer A → ℕ
  closes (none, none) = 0
  closes (some k, none) = 1
  closes (none, some v) = 1
  closes (some k, some v) = 2

  pub join_layer : Opened (Layer A) → Opened (List (Layer A)) → Opened (List (Layer A))
  unfolding closes
  join_layer (dropped o c) rest = dropped o c
  join_layer (made l) (made ls) = made (l ∷ ls)
  join_layer (made l) (dropped o c) = dropped (o + 2) (c + closes l)

  -- The layers from `i` on, `n` of them.
  pub open_layers : AllocEnv A → A → ℕ → ℕ → ℕ → Opened (List (Layer A))
  unfolding open_pair join_layer
  open_layers env zero_val count i zero = made []
  open_layers env zero_val count i (suc n) =
      join_layer (open_pair (env.key_surface count i) (env.value_surface count i) zero_val)
        (open_layers env zero_val count (i + 1) n)

  pub state_of : ℕ → ℕ → ℕ → ℕ → Opened (List (Layer A)) → Opened (State A)
  state_of layers heads dim seq (dropped o c) = dropped o c
  state_of layers heads dim seq (made ls) = made (record {
    num_layers = layers;
    num_heads = heads;
    head_dim = dim;
    max_seq_len = seq;
    row_size = heads * dim;
    surface_n = heads * dim * seq;
    position = 0;
    layers = ls;
  })

  -- `none` is the error of dimensions that are not positive.
  unfoldable pub new_draft_kv_surface_state :
      AllocEnv A → A → ℤ → ℤ → ℤ → ℤ → Option (Opened (State A))
  unfolding open_layers state_of
  new_draft_kv_surface_state env zero_val (pos (suc l)) (pos (suc h)) (pos (suc d)) (pos (suc m)) =
      some (
        state_of (suc l) (suc h) (suc d) (suc m)
          (open_layers env zero_val (suc h * suc d * suc m) 0 (suc l)))
  new_draft_kv_surface_state env zero_val _ _ _ _ = none
