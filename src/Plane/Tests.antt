-- ===== src/Plane/Tests.antt =====
-- A plane with one span, which is given up after a failed build.
use autoresearch_mlx_go_ane.Prelude.{ℕ, true, false, List, [], ◌∷◌, some}
use autoresearch_mlx_go_ane.Spans.{Span}
use autoresearch_mlx_go_ane.Plane.{
  stage_dense, by_alias, Event, host_input_fallback, stage_build, dispatch, fallback, disabling,
}

abbrev one_span : List Span
one_span = record { start_layer = 0; layer_offset = 0; layers = 0 ∷ 1 ∷ [] } ∷ []

abbrev some_events : List (Event ℕ)
some_events =
    stage_build stage_dense (some true) false
    ∷ dispatch stage_dense 1 1
    ∷ dispatch stage_dense 3 2
    ∷ host_input_fallback by_alias
    ∷ fallback 0 true true
    ∷ fallback 0 false true
    ∷ disabling (some 9)
    ∷ []
