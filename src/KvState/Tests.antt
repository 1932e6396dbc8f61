-- ===== src/KvState/Tests.antt =====
-- A state of one layer with two positions and rows of one element.
use autoresearch_mlx_go_ane.KvState.Building.{AllocEnv}
use autoresearch_mlx_go_ane.KvState.Building.Ledger.{Allocates}
use autoresearch_mlx_go_ane.Surface.Access.{IsLive}
use autoresearch_mlx_go_ane.Prelude.{
  replicate, length-replicate, ℕ, ◌≡◌, ◌-◌, refl, true, [], ◌∷◌, none, some, arith,
}
use autoresearch_mlx_go_ane.Prelude.Int.{pos}
use autoresearch_mlx_go_ane.Surface.{Surface}
use autoresearch_mlx_go_ane.KvState.{State, write_layer_kv, rewind}
use autoresearch_mlx_go_ane.KvState.Steps.{IsValid}
use autoresearch_mlx_go_ane.KvState.Clear.{Cut, rewind-Cut}
use autoresearch_mlx_go_ane.KvState.Session.{Wrote, write_layer_kv-Wrote}

abbrev pair : Surface ℕ
pair = record { is_open = true; count = 2; cells = 5 ∷ 0 ∷ []; answers = true }

abbrev state : State ℕ
state = record {
  num_layers = 1;
  num_heads = 1;
  head_dim = 1;
  max_seq_len = 2;
  row_size = 1;
  surface_n = 2;
  position = 1;
  layers = (some pair, some pair) ∷ [];
}

state-IsValid : IsValid state
state-IsValid = record {
  live = (
    (
      record { opened = refl; answering = refl; counted = refl; full = refl },
      record { opened = refl; answering = refl; counted = refl; full = refl },
    ),
    tt,
  );
  sized = refl;
  area = refl;
  within = omega arith;
  wide = omega arith;
}

rewind-Cut_example :
    (t : State ℕ) × (rewind 0 state (pos 1) ≡ (t, none)) × Cut 0 state t (1 - 1) (1 - (1 - 1))
rewind-Cut_example = rewind-Cut 0 state 1 state-IsValid

write_layer_kv-Wrote_example :
    (t : State ℕ) × (write_layer_kv state (pos 0) (7 ∷ []) (8 ∷ []) ≡ (t, none))
    × Wrote state t 0 (7 ∷ []) (8 ∷ [])
write_layer_kv-Wrote_example =
    write_layer_kv-Wrote state 0 (7 ∷ []) (8 ∷ []) state-IsValid (omega arith) (omega arith) refl
      refl

-- A platform that answers every allocation with a live surface, and one that gives no values.
abbrev fresh : ℕ → Surface ℕ
fresh n = record { is_open = true; count = n; cells = replicate n 9; answers = true }

abbrev giving : AllocEnv ℕ
giving = record { key_surface = λ n i. some (fresh n); value_surface = λ n i. some (fresh n) }

abbrev halting : AllocEnv ℕ
halting = record { key_surface = λ n i. some (fresh n); value_surface = λ n i. none }

fresh-IsLive : (n : ℕ) → IsLive n (fresh n)
fresh-IsLive n = record {
  opened = refl;
  answering = refl;
  counted = refl;
  full = length-replicate n 9;
}

giving-Allocates : Allocates giving
giving-Allocates = record {
  gives_keys = λ n i. (fresh n, refl, fresh-IsLive n);
  gives_values = λ n i. (fresh n, refl, fresh-IsLive n);
}
