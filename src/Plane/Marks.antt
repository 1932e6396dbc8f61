-- ===== src/Plane/Marks.antt =====
-- decode/plane.go: a span that was given up is not used again, and the first error stays.
use autoresearch_mlx_go_ane.Prelude.{
  ℕ, ◌≡◌, refl, ap, Bool, true, false, not, List, [], ◌∷◌, Option, none, some, arith,
}
use autoresearch_mlx_go_ane.Spans.{Span}
use autoresearch_mlx_go_ane.Plane.{
  Plane, has_fallback, find_span, use_span, mark_new, mark_direct_block_fallback,
  should_use_direct_span, disable, Event, apply, apply_all, host_input_fallback, output_zero_copy,
  output_copy_fallback, output_pool_stall, stage_build, dispatch, direct_block_build,
  direct_block_dispatch, fallback, disabling,
}

module _ {E : Type 0} where
  mark_new-kept :
      (p : Plane E) (start : ℕ) (build known : Bool) (layer : ℕ)
      → has_fallback p.direct_fallbacks layer ≡ true
      → has_fallback (mark_new p start build known).direct_fallbacks layer ≡ true
  mark_new-kept p start build known layer h = ground arith

  apply-kept :
      (p : Plane E) (e : Event E) (layer : ℕ)
      → has_fallback p.direct_fallbacks layer ≡ true
      → has_fallback (apply p e).direct_fallbacks layer ≡ true
  unfolding apply mark_direct_block_fallback disable
  apply-kept p (host_input_fallback r) layer h = h
  apply-kept p output_zero_copy layer h = h
  apply-kept p output_copy_fallback layer h = h
  apply-kept p output_pool_stall layer h = h
  apply-kept p (stage_build kind hit failed) layer h = h
  apply-kept p (dispatch kind calls sync) layer h = h
  apply-kept p (direct_block_build hit failed) layer h = h
  apply-kept p (direct_block_dispatch n) layer h = h
  apply-kept p (fallback start build false) layer h = h
  apply-kept p (fallback start build true) layer h =
      mark_new-kept p start build (has_fallback p.direct_fallbacks start) layer h
  apply-kept p (disabling none) layer h = h
  apply-kept p (disabling (some e)) layer h = h

  apply_all-kept :
      (p : Plane E) (es : List (Event E)) (layer : ℕ)
      → has_fallback p.direct_fallbacks layer ≡ true
      → has_fallback (apply_all p es).direct_fallbacks layer ≡ true
  unfolding apply_all
  apply_all-kept p [] layer h = h
  apply_all-kept p (e ∷ es) layer h = apply_all-kept (apply p e) es layer (apply-kept p e layer h)

  mark_new-marks :
      (p : Plane E) (start : ℕ) (build known : Bool)
      → has_fallback p.direct_fallbacks start ≡ known
      → has_fallback (mark_new p start build known).direct_fallbacks start ≡ true
  mark_new-marks p start build known e = ground arith

  not_used :
      (p : Plane E) (layer : ℕ)
      → has_fallback p.direct_fallbacks layer ≡ true
      → (should_use_direct_span p layer).1 ≡ false
  unfolding should_use_direct_span
  not_used p layer h = pick (find_span p.direct_spans layer)
    where
      pick : (o : Option Span) → (use_span p layer o).1 ≡ false
      pick none = refl
      pick (some s) = ap not h

  -- A direct span that `markDirectBlockFallback` has given up for an error is not used again,
  -- whatever is recorded afterwards.
  pub given_up_forever :
      (p : Plane E) (start : ℕ) (build : Bool) (es : List (Event E))
      → (should_use_direct_span
          (apply_all (mark_direct_block_fallback p start build true) es)
          start).1
        ≡ false
  unfolding mark_direct_block_fallback
  given_up_forever p start build es =
      let q = mark_new p start build (has_fallback p.direct_fallbacks start) in
      not_used (apply_all q es) start (
        apply_all-kept q es start
          (mark_new-marks p start build (has_fallback p.direct_fallbacks start) refl))
