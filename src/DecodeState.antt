-- ===== src/DecodeState.antt =====
-- draft_model_darwin.go: SnapshotDecodeState, RestoreDecodeState and RestoreStatefulMILState of
-- ANEDraftModel. `V` is the type of state surfaces, `F` of floats, `E` of errors; what a surface
-- answers is a field of `SurfaceIo`.
pub mod Restore
pub mod Tests
use autoresearch_mlx_go_ane.Prelude.{
  ℕ, Bool, true, false, not, ◌||◌, List, [], ◌∷◌, Option, none, some, ◌==◌, if◌then◌else◌, length,
}
use autoresearch_mlx_go_ane.Prelude.Int.{ℤ, pos, negsuc}
use autoresearch_mlx_go_ane.Layer.{Result, good, bad}

pub record SurfaceIo (V F E : Type 0) : Type 0 where
  pub read_surface : V → Result E (List F)
  pub write_surface : V → List F → V × Option E
  pub count : V → ℕ

-- The fields of ANEDraftModel that hold its decode state; a nil surface is none.
pub record DecodeState (V : Type 0) : Type 0 where
  pub is_closed : Bool
  pub is_stateful : Bool
  pub decode_pos : ℕ
  pub mil_state : List (Option V)

-- DecodeStateSnapshot.
pub record StateSnapshot (F : Type 0) : Type 0 where
  pub taken_at : ℕ
  pub rows : List (List F)

pub data StateFault (E : Type 0) : Type 0 where
  is_shut is_unavailable wrong_count : StateFault E
  nil_surface wrong_size : StateFault E
  surface_error : E → StateFault E

module _ {V F E : Type 0} (io : SurfaceIo V F E) where
  abbrev pub no_state : {A : Type 0} → List A → Bool
  no_state [] = true
  no_state (x ∷ xs) = false

  abbrev pub row_then :
      Result E (List F)
      → Result (StateFault E) (List (List F))
      → Result (StateFault E) (List (List F))
  row_then (bad e) rest = bad (surface_error e)
  row_then (good xs) (bad e) = bad e
  row_then (good xs) (good rows) = good (xs ∷ rows)

  -- The loop that reads the surfaces.
  unfoldable pub read_rows : List (Option V) → Result (StateFault E) (List (List F))
  read_rows [] = good []
  read_rows (none ∷ vs) = bad nil_surface
  read_rows (some v ∷ vs) = row_then (io.read_surface v) (read_rows vs)

  abbrev pub snapshot_of :
      ℕ → Result (StateFault E) (List (List F)) → Result (StateFault E) (StateSnapshot F)
  snapshot_of p (bad e) = bad e
  snapshot_of p (good rows) = good (record { taken_at = p; rows = rows })

  unfoldable pub snapshot_decode_state : DecodeState V → Result (StateFault E) (StateSnapshot F)
  snapshot_decode_state m =
      if m.is_closed
      then bad is_shut
      else if not m.is_stateful || no_state m.mil_state
      then bad is_unavailable
      else snapshot_of m.decode_pos (read_rows m.mil_state)

  -- The surfaces with one in front, when its write is done.
  abbrev pub in_front :
      Option V → List (Option V) × Option (StateFault E) → List (Option V) × Option (StateFault E)
  in_front v (vs, e) = (v ∷ vs, e)

  abbrev pub written_then :
      List (Option V)
      → List (Option V) × Option (StateFault E)
      → V × Option E
      → List (Option V) × Option (StateFault E)
  written_then vs rest (v, some e) = (some v ∷ vs, some (surface_error e))
  written_then vs rest (v, none) = in_front (some v) rest

  -- The loop that writes the surfaces; those before an error stay written. The lists are of one
  -- length.
  unfoldable pub write_rows :
      List (Option V) → List (List F) → List (Option V) × Option (StateFault E)
  write_rows [] rows = ([], none)
  write_rows (v ∷ vs) [] = (v ∷ vs, none)
  write_rows (none ∷ vs) (row ∷ rows) = (none ∷ vs, some nil_surface)
  write_rows (some v ∷ vs) (row ∷ rows) =
      let rest = write_rows vs rows in
      if io.count v == length row
      then written_then vs rest (io.write_surface v row)
      else (some v ∷ vs, some wrong_size)

  abbrev pub rows_written :
      DecodeState V
      → ℕ
      → List (Option V) × Option (StateFault E)
      → DecodeState V × Option (StateFault E)
  rows_written m p (vs, some e) = (record m { mil_state = vs }, some e)
  rows_written m p (vs, none) = (record m { mil_state = vs; decode_pos = p }, none)

  abbrev pub restore_rows :
      DecodeState V → ℕ → List (List F) → DecodeState V × Option (StateFault E)
  restore_rows m p rows =
      if m.is_closed
      then (m, some is_shut)
      else if not m.is_stateful || no_state m.mil_state
      then (m, some is_unavailable)
      else if length rows == length m.mil_state
      then rows_written m p (write_rows m.mil_state rows)
      else (m, some wrong_count)

  unfoldable pub restore_decode_state :
      DecodeState V → Option (StateSnapshot F) → DecodeState V × Option (StateFault E)
  restore_decode_state m none = (m, some is_unavailable)
  restore_decode_state m (some s) = restore_rows m s.taken_at s.rows

  abbrev pub at_least_zero : ℤ → ℕ
  at_least_zero (pos p) = p
  at_least_zero (negsuc p) = 0

  unfoldable pub restore_stateful_mil_state :
      DecodeState V → ℤ → List (List F) → DecodeState V × Option (StateFault E)
  restore_stateful_mil_state m p rows = restore_rows m (at_least_zero p) rows
