-- ===== src/DecodeState/Restore.antt =====
-- draft_model_darwin.go: a snapshot of a model that has been restored.
use autoresearch_mlx_go_ane.Prelude.{
  ℕ, suc, ◌≡◌, refl, ◌∙◌, ap, Bool, true, false, not, ◌||◌, List, [], ◌∷◌, Option, none, some, ◌==◌,
  ==_iff, if◌then◌else◌, length, arith,
}
use autoresearch_mlx_go_ane.Layer.{Result, good, bad}
use autoresearch_mlx_go_ane.DecodeState.{
  SurfaceIo, DecodeState, StateSnapshot, StateFault, is_shut, is_unavailable, wrong_count,
  wrong_size, no_state, row_then, read_rows, snapshot_of, snapshot_decode_state, written_then,
  write_rows, rows_written, restore_decode_state,
}

module _ {V F E : Type 0} (io : SurfaceIo V F E) where
  -- What the surfaces promise: a write that succeeds is read back.
  abbrev pub KeepsWrites : Type 0
  KeepsWrites =
      (v v' : V) (xs : List F) → io.write_surface v xs ≡ (v', none) → io.read_surface v' ≡ good xs

  write_rows-read :
      (vs : List (Option V)) (rows : List (List F))
      → KeepsWrites
      → length rows ≡ length vs
      → (write_rows io vs rows).1 ≡ none
      → (read_rows io (write_rows io vs rows).0 ≡ good rows)
        × (length (write_rows io vs rows).0 ≡ length vs)
  unfolding write_rows read_rows
  write_rows-read [] [] k l q = (refl, refl)
  write_rows-read [] (row ∷ rows) k l q = absurd (omega arith)
  write_rows-read (v ∷ vs) [] k l q = absurd (omega arith)
  write_rows-read (none ∷ vs) (row ∷ rows) k l q = cc
  write_rows-read (some v ∷ vs) (row ∷ rows) k l q =
      fits (io.count v == length row) (io.write_surface v row) refl (write_rows io vs rows)
        (write_rows-read vs rows k (omega arith)) q
    where
      fits :
          (b : Bool) (p : V × Option E)
          → io.write_surface v row ≡ p
          → (rest : List (Option V) × Option (StateFault E))
          → (rest.1 ≡ none → (read_rows io rest.0 ≡ good rows) × (length rest.0 ≡ length vs))
          → (if b then written_then io vs rest p else (some v ∷ vs, some wrong_size)).1 ≡ none
          → (read_rows io
                (if b then written_then io vs rest p else (some v ∷ vs, some wrong_size)).0
              ≡ good (row ∷ rows))
            × (length (if b then written_then io vs rest p else (some v ∷ vs, some wrong_size)).0
                ≡ suc (length vs))
      fits false p e rest ih q' = cc
      fits true (v', some x) e rest ih q' = cc
      fits true (v', none) e (ws, r) ih q' =
          let (f, g) = ih q' in
          (
            ap (λ (o : Result E (List F)). row_then io o (read_rows io ws)) (k v v' row e)
                ∙ ap (λ (o : Result (StateFault E) (List (List F))). row_then io (good row) o) f,
            ap suc g,
          )

  no_state-length :
      (vs ws : List (Option V)) → length ws ≡ length vs → no_state io ws ≡ no_state io vs
  no_state-length [] [] e = refl
  no_state-length [] (w ∷ ws) e = absurd (omega arith)
  no_state-length (v ∷ vs) [] e = absurd (omega arith)
  no_state-length (v ∷ vs) (w ∷ ws) e = refl

  snapshot-of_open :
      (m : DecodeState V) (p : ℕ) (rows : List (List F)) (ws : List (Option V))
      → m.is_closed ≡ false
      → (not m.is_stateful || no_state io m.mil_state) ≡ false
      → length ws ≡ length m.mil_state
      → read_rows io ws ≡ good rows
      → snapshot_decode_state io (record m { mil_state = ws; decode_pos = p })
        ≡ good (record { taken_at = p; rows = rows })
  unfolding snapshot_decode_state
  snapshot-of_open m p rows ws c a l r =
      ap
        (λ b.
          if b
          then bad is_shut
          else if not m.is_stateful || no_state io ws
          then bad is_unavailable
          else snapshot_of io p (read_rows io ws))
        c
      ∙ ap (λ b. if b then bad is_unavailable else snapshot_of io p (read_rows io ws))
          (ap (λ b. not m.is_stateful || b) (no_state-length m.mil_state ws l) ∙ a)
      ∙ ap (snapshot_of io p) r

  -- Where a surface gives back what was written into it: after a restore that succeeds, whatever
  -- the model's state was, a snapshot of the model is the one that was restored.
  pub snapshot-restore :
      (m : DecodeState V) (s : StateSnapshot F)
      → KeepsWrites
      → (restore_decode_state io m (some s)).1 ≡ none
      → snapshot_decode_state io (restore_decode_state io m (some s)).0 ≡ good s
  unfolding restore_decode_state
  snapshot-restore m s k q =
      open_model m.is_closed (not m.is_stateful || no_state io m.mil_state)
        (length s.rows == length m.mil_state) refl refl refl q
    where
      restored : Bool → Bool → Bool → DecodeState V × Option (StateFault E)
      restored c a l =
          if c
          then (m, some is_shut)
          else if a
          then (m, some is_unavailable)
          else if l
          then rows_written io m s.taken_at (write_rows io m.mil_state s.rows)
          else (m, some wrong_count)

      wrote :
          (p : List (Option V) × Option (StateFault E))
          → m.is_closed ≡ false
          → (not m.is_stateful || no_state io m.mil_state) ≡ false
          → (p.1 ≡ none → (read_rows io p.0 ≡ good s.rows) × (length p.0 ≡ length m.mil_state))
          → (rows_written io m s.taken_at p).1 ≡ none
          → snapshot_decode_state io (rows_written io m s.taken_at p).0 ≡ good s
      wrote (ws, some e) c a f q' = cc
      wrote (ws, none) c a f q' =
          let (r, l) = f refl in snapshot-of_open m s.taken_at s.rows ws c a l r

      open_model :
          (c a l : Bool)
          → m.is_closed ≡ c
          → (not m.is_stateful || no_state io m.mil_state) ≡ a
          → (length s.rows == length m.mil_state) ≡ l
          → (restored c a l).1 ≡ none
          → snapshot_decode_state io (restored c a l).0 ≡ good s
      open_model true a l ec ea el q' = cc
      open_model false true l ec ea el q' = cc
      open_model false false false ec ea el q' = cc
      open_model false false true ec ea el q' =
          wrote (write_rows io m.mil_state s.rows) ec ea
            (write_rows-read m.mil_state s.rows k ((==_iff _ _).0 el)) q'
