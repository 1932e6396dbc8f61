-- ===== src/DecodeState/Tests.antt =====
-- Surfaces are lists of cells, which take a row of their own length.
use autoresearch_mlx_go_ane.Prelude.{
  ℕ, ◌≡◌, refl, sym, ap, true, false, List, [], ◌∷◌, none, some, length,
}
use autoresearch_mlx_go_ane.Layer.{good}
use autoresearch_mlx_go_ane.DecodeState.{
  SurfaceIo, DecodeState, StateSnapshot, write_rows, restore_decode_state, snapshot_decode_state,
}
use autoresearch_mlx_go_ane.DecodeState.Restore.{snapshot-restore}

abbrev cells_io : SurfaceIo (List ℕ) ℕ ℕ
cells_io = record {
  read_surface = λ v. good v;
  write_surface = λ v xs. (xs, none);
  count = λ v. length v;
}

abbrev later : DecodeState (List ℕ)
later = record {
  is_closed = false;
  is_stateful = true;
  decode_pos = 9;
  mil_state = some (1 ∷ 2 ∷ []) ∷ some (3 ∷ []) ∷ [];
}

abbrev earlier : StateSnapshot ℕ
earlier = record { taken_at = 4; rows = (7 ∷ 8 ∷ []) ∷ (5 ∷ []) ∷ [] }

snapshot-restore_example :
    snapshot_decode_state cells_io (restore_decode_state cells_io later (some earlier)).0
    ≡ good earlier
unfolding restore_decode_state write_rows
snapshot-restore_example =
    snapshot-restore cells_io later earlier (λ v v' xs e. sym (ap good (λ i. (e i).0))) refl
