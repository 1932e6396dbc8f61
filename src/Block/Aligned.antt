-- ===== src/Block/Aligned.antt =====
-- decode/dispatch.go: the offsets of the external caches after a call of directBlockOutput.
use autoresearch_mlx_go_ane.Prelude.{
  ℕ, suc, ◌≡◌, refl, ap, sym, subst, ◌∙◌, Bool, true, false, List, Option, none, some, ltb, ◌==◌,
  ==_iff, if◌then◌else◌,
}
use autoresearch_mlx_go_ane.Block.{
  BlockEnv, Positions, handled, declined, Stepped, Synced, ready, unready, sync_failed, want_pos,
  all_at, moved, restored, sync_direct_block_state, advance_direct_block_caches, first_error,
  decline, stepped, caches_advanced, viewed, checked, synced, direct_block_output,
}
use autoresearch_mlx_go_ane.Block.Offsets.{
  IsDistinct, AllAt, all_at-AllAt, AllAt-IsAdvanced, IsAdvanced, advance-one_more, advance-succeeds,
}

module _ {E : Type 0} (env : BlockEnv E) where
  caches_advanced-handled :
      (p : Positions) (layers : List ℕ) (r : (ℕ → Option ℕ) × Option E)
      → (r.1 ≡ none → IsAdvanced layers p.offsets r.0)
      → (caches_advanced env p r).answer ≡ handled
      → IsAdvanced layers p.offsets (caches_advanced env p r).positions.offsets
        × ((caches_advanced env p r).positions.block ≡ suc p.block)
  caches_advanced-handled p layers (offsets, some e) h f = cc
  caches_advanced-handled p layers (offsets, none) h f = last env.advance f
    where
      last :
          (o : Option E)
          → (stepped env (record p { offsets = offsets }) o).answer ≡ handled
          → IsAdvanced layers p.offsets
              (stepped env (record p { offsets = offsets }) o).positions.offsets
            × ((stepped env (record p { offsets = offsets }) o).positions.block ≡ suc p.block)
      last (some e) g = cc
      last none g = (h refl, refl)

  checked-handled :
      (p : Positions) (layers : List ℕ) (o : Option E)
      → IsDistinct layers
      → (checked env p layers o).answer ≡ handled
      → IsAdvanced layers p.offsets (checked env p layers o).positions.offsets
        × ((checked env p layers o).positions.block ≡ suc p.block)
  unfolding IsAdvanced
  checked-handled p layers (some e) d f = cc
  checked-handled p layers none d f = view env.output env.zero_rows f
    where
      view :
          (o z : Option E)
          → (viewed env p layers o z).answer ≡ handled
          → IsAdvanced layers p.offsets (viewed env p layers o z).positions.offsets
            × ((viewed env p layers o z).positions.block ≡ suc p.block)
      view (some e) z g = cc
      view none (some e) g = cc
      view none none g =
          caches_advanced-handled p layers (advance_direct_block_caches env layers p.offsets)
            (λ e j. advance-one_more env layers p.offsets j d e) g

  -- The block's position after a synchronization is the one that the caches ask for.
  pub record KeepsPosition : Type 0 where
    pub resets : (b p : ℕ) → env.reset b ≡ (p, none) → p ≡ 0
    pub restores : (b w p : ℕ) → env.restore b w ≡ (p, none) → p ≡ w

  moved-ready :
      (r : ℕ × Option E) (w b : ℕ)
      → ((p : ℕ) → r ≡ (p, none) → p ≡ w)
      → moved env r ≡ ready b
      → b ≡ w
  moved-ready (p, none) w b h f = let same : p ≡ b = cc in sym same ∙ h p refl
  moved-ready (p, some e) w b h f = cc

  sync-ready :
      (p : Positions) (layers : List ℕ) (b : ℕ)
      → KeepsPosition
      → sync_direct_block_state env p layers ≡ ready b
      → (all_at p.offsets layers (want_pos p.offsets layers) ≡ true)
        × (b ≡ want_pos p.offsets layers)
  unfolding sync_direct_block_state
  sync-ready p layers b k f =
      go (all_at p.offsets layers want) refl (p.block == want) (want == 0)
        (ltb env.max_seq_len want) env.state ((==_iff p.block want).0) ((==_iff want 0).0) f
    where
      want : ℕ
      want = want_pos p.offsets layers

      go :
          (a : Bool)
          → all_at p.offsets layers (want_pos p.offsets layers) ≡ a
          → (s z m : Bool) (o : Option E) → (s ≡ true → p.block ≡ want_pos p.offsets layers)
          → (z ≡ true → want_pos p.offsets layers ≡ 0)
          → (if a
              then if s
                then ready p.block
                else if z
                then moved env (env.reset p.block)
                else if m
                then unready
                else restored env p.block (want_pos p.offsets layers) o
              else sync_failed p.block env.mismatch)
            ≡ ready b
          → (all_at p.offsets layers (want_pos p.offsets layers) ≡ true)
            × (b ≡ want_pos p.offsets layers)
      go false t s z m o hs hz g = cc
      go true t true z m o hs hz g = let same : p.block ≡ b = cc in (t, sym same ∙ hs refl)
      go true t false true m o hs hz g =
          (t, moved-ready (env.reset p.block) 0 b (k.resets p.block) g ∙ sym (hz refl))
      go true t false false true o hs hz g = cc
      go true t false false false (some e) hs hz g = cc
      go true t false false false none hs hz g = (
        t,
        moved-ready (env.restore p.block (want_pos p.offsets layers)) (want_pos p.offsets layers) b
            (k.restores p.block (want_pos p.offsets layers)) g,
      )

  synced-IsAligned :
      (p : Positions) (layers : List ℕ) (s : Synced E) (want : ℕ)
      → ((b : ℕ) → s ≡ ready b → AllAt layers want p.offsets × (b ≡ want))
      → IsDistinct layers
      → (synced env p layers s).answer ≡ handled
      → AllAt layers want p.offsets
        × IsAdvanced layers p.offsets (synced env p layers s).positions.offsets
        × ((synced env p layers s).positions.block ≡ suc want)
  synced-IsAligned p layers (sync_failed b e) want h d f = cc
  synced-IsAligned p layers unready want h d f = cc
  synced-IsAligned p layers (ready b) want h d f =
      let (caches, block) =
        checked-handled (record p { block = b }) layers (first_error env env.checks) d f in
      ((h b refl).0, caches, block ∙ ap suc (h b refl).1)

  -- When no layer of the block is listed twice, and a reset or a restore that succeeds puts the
  -- block at the position asked for: before a call of `directBlockOutput` that is handled, the
  -- caches of the block's layers, where there are any, all have as many rows as the first of them;
  -- the call leaves each of them, and no other, with one row more, and the block's position is one
  -- past that number, so that the block and its caches are at one position.
  pub direct_block_output-IsAligned :
      (p : Positions) (layers : List ℕ)
      → KeepsPosition
      → IsDistinct layers
      → (direct_block_output env p layers).answer ≡ handled
      → AllAt layers (want_pos p.offsets layers) p.offsets
        × IsAdvanced layers p.offsets (direct_block_output env p layers).positions.offsets
        × ((direct_block_output env p layers).positions.block ≡ suc (want_pos p.offsets layers))
        × AllAt layers
            (direct_block_output env p layers).positions.block
            (direct_block_output env p layers).positions.offsets
  unfolding direct_block_output
  direct_block_output-IsAligned p layers k d f =
      let q = direct_block_output env p layers in
      let (at, caches, block) =
        synced-IsAligned p layers (sync_direct_block_state env p layers) (want_pos p.offsets layers)
          (λ b e.
            let (test, same) = sync-ready p layers b k e in
            (all_at-AllAt p.offsets layers (want_pos p.offsets layers) test, same))
          d f in
      (
        at,
        caches,
        block,
        subst (λ n. AllAt layers n q.positions.offsets) (sym block)
            (AllAt-IsAdvanced layers (want_pos p.offsets layers) p.offsets q.positions.offsets at
              caches),
      )

  late_caches :
      (p : Positions) (layers : List ℕ) (r : (ℕ → Option ℕ) × Option E) (e : E)
      → r.1 ≡ none
      → env.advance ≡ some e
      → caches_advanced env p r ≡ decline env (record p { offsets = r.0 }) e
  late_caches p layers (offsets, none) e f g = ap (stepped env (record p { offsets = offsets })) g
  late_caches p layers (offsets, some x) e f g = cc

  -- When no layer is listed twice, the block is synchronized, every check, the output view, the
  -- zero rows and the updates of the caches succeed, and only the advance of the decode position
  -- fails, `directBlockOutput` declines, and every external cache of its layers has one row more,
  -- while the block's position has not moved.
  pub late_failure_advances :
      (p : Positions) (layers : List ℕ) {b : ℕ} {e : E}
      → IsDistinct layers
      → sync_direct_block_state env p layers ≡ ready b
      → first_error env env.checks ≡ none
      → env.output ≡ none
      → env.zero_rows ≡ none
      → ((l : ℕ) → env.updates l ≡ none)
      → env.advance ≡ some e
      → ((direct_block_output env p layers).answer ≡ declined e)
        × IsAdvanced layers p.offsets (direct_block_output env p layers).positions.offsets
        × ((direct_block_output env p layers).positions.block ≡ b)
  unfolding direct_block_output IsAdvanced
  late_failure_advances p layers {b} {e} d s c o z u a =
      let done = advance-succeeds env layers p.offsets u in
      let whole : direct_block_output env p layers
          ≡ decline env
              (record { block = b; offsets = (advance_direct_block_caches env layers p.offsets).0 })
              e =
        ap (synced env p layers) s
        ∙ ap (checked env (record p { block = b }) layers) c
        ∙ ap (λ x. viewed env (record p { block = b }) layers x env.zero_rows) o
        ∙ ap (viewed env (record p { block = b }) layers none) z
        ∙ late_caches (record p { block = b }) layers
            (advance_direct_block_caches env layers p.offsets) e done a in
      (
        ap (λ (r : Stepped E). r.answer) whole,
        λ j.
            ap (λ (r : Stepped E). r.positions.offsets j) whole
            ∙ advance-one_more env layers p.offsets j d done,
        ap (λ (r : Stepped E). r.positions.block) whole,
      )
