-- ===== src/Block/Tests.antt =====
-- A block of the layers 0 and 1, whose caches hold four rows.
use autoresearch_mlx_go_ane.Prelude.{ℕ, ◌≡◌, refl, List, [], ◌∷◌, none, some, if◌then◌else◌, ltb}
use autoresearch_mlx_go_ane.Block.{
  BlockEnv, Positions, declined, sync_direct_block_state, advance_direct_block_caches,
  direct_block_output,
}
use autoresearch_mlx_go_ane.Block.Offsets.{AllAt, IsAdvanced}
use autoresearch_mlx_go_ane.Block.Aligned.{
  KeepsPosition, direct_block_output-IsAligned, late_failure_advances,
}

abbrev two : List ℕ
two = 0 ∷ 1 ∷ []

abbrev four_rows : Positions
four_rows = record { block = 2; offsets = λ l. if ltb l 2 then some 4 else none }

abbrev toy_block : BlockEnv ℕ
toy_block = record {
  max_seq_len = 8;
  reset = λ b. (0, none);
  state = none;
  restore = λ b want. (want, none);
  mismatch = 1;
  not_ready = 2;
  checks = none ∷ none ∷ [];
  output = none;
  zero_rows = none;
  updates = λ l. none;
  advance = none;
}

toy_block-KeepsPosition : KeepsPosition toy_block
toy_block-KeepsPosition = record { resets = λ b p e. cc; restores = λ b w p e. cc }

direct_block_output-IsAligned_example :
    AllAt two 4 four_rows.offsets
    × IsAdvanced two four_rows.offsets
        (direct_block_output toy_block four_rows two).positions.offsets
    × ((direct_block_output toy_block four_rows two).positions.block ≡ 5)
    × AllAt two
        (direct_block_output toy_block four_rows two).positions.block
        (direct_block_output toy_block four_rows two).positions.offsets
unfolding direct_block_output sync_direct_block_state advance_direct_block_caches
direct_block_output-IsAligned_example =
    direct_block_output-IsAligned toy_block four_rows two toy_block-KeepsPosition (refl, (refl, tt))
      refl

-- The same block, whose position cannot be moved on.
abbrev stuck_block : BlockEnv ℕ
stuck_block = record toy_block { advance = some 7 }

late_failure_advances_example :
    ((direct_block_output stuck_block four_rows two).answer ≡ declined 7)
    × IsAdvanced two four_rows.offsets
        (direct_block_output stuck_block four_rows two).positions.offsets
    × ((direct_block_output stuck_block four_rows two).positions.block ≡ 4)
unfolding sync_direct_block_state
late_failure_advances_example =
    late_failure_advances stuck_block four_rows two (refl, (refl, tt)) refl refl refl refl
      (λ l. refl) refl
