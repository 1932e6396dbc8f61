-- ===== src/Block.antt =====
-- decode/dispatch.go, directBlockOutput with syncDirectBlockState and advanceDirectBlockCaches: one
-- token through the layers of a direct block. The external cache of a layer is its offset, `none`
-- where there is no cache. `E` is the type of errors. A block implements the interfaces that
-- syncDirectBlockState asks for, and its span is marked with the error of each declined call.
pub mod Offsets
pub mod Aligned
pub mod Tests
use autoresearch_mlx_go_ane.Prelude.{
  ℕ, suc, ◌+◌, Bool, true, false, List, [], ◌∷◌, Option, none, some, ltb, ◌==◌, if◌then◌else◌,
}

-- What the platform answers. `reset` and `restore` give the block's decode position after the call,
-- `state` is directBlockStateFromCaches, `checks` are the calls from the assertion of `blockStepper`
-- to the evaluation in their order, each of which declines the block with its error, and `updates`
-- are the UpdateAndFetch calls by layer.
pub record BlockEnv (E : Type 0) : Type 0 where
  pub max_seq_len : ℕ
  pub reset : ℕ → ℕ × Option E
  pub state : Option E
  pub restore : ℕ → ℕ → ℕ × Option E
  pub mismatch : E
  pub not_ready : E
  pub checks : List (Option E)
  pub output : Option E
  pub zero_rows : Option E
  pub updates : ℕ → Option E
  pub advance : Option E

-- Where the slot of the call is: given back, or lent with the view.
pub data SlotPlace : Type 0 where
  given_back lent : SlotPlace

-- The block's decode position and the offsets of the layers' caches.
pub record Positions : Type 0 where
  pub block : ℕ
  pub offsets : ℕ → Option ℕ

pub data Answer (E : Type 0) : Type 0 where
  handled : Answer E
  declined : E → Answer E

pub record Stepped (E : Type 0) : Type 0 where
  pub answer : Answer E
  pub slot : SlotPlace
  pub positions : Positions

pub data Synced (E : Type 0) : Type 0 where
  ready : ℕ → Synced E
  unready : Synced E
  sync_failed : ℕ → E → Synced E

module _ where
  -- The first loop of syncDirectBlockState.
  abbrev pub want_pos : (ℕ → Option ℕ) → List ℕ → ℕ
  want_pos offsets [] = 0
  want_pos offsets (l ∷ ls) =
      let rest = want_pos offsets ls in elim (offsets l) [ some n ↦ n | none ↦ rest ]

  abbrev pub agrees : Option ℕ → ℕ → Bool
  agrees none want = true
  agrees (some n) want = n == want

  -- The second loop.
  abbrev pub all_at : (ℕ → Option ℕ) → List ℕ → ℕ → Bool
  all_at offsets [] want = true
  all_at offsets (l ∷ ls) want =
      let rest = all_at offsets ls want in if agrees (offsets l) want then rest else false

  abbrev pub set_offset : (ℕ → Option ℕ) → ℕ → ℕ → ℕ → Option ℕ
  set_offset offsets l n j = if l == j then some n else offsets j

module _ {E : Type 0} (env : BlockEnv E) where
  abbrev pub moved : ℕ × Option E → Synced E
  moved (p, none) = ready p
  moved (p, some e) = sync_failed p e

  abbrev pub restored : ℕ → ℕ → Option E → Synced E
  restored p want (some e) = sync_failed p e
  restored p want none = moved (env.restore p want)

  unfoldable pub sync_direct_block_state : Positions → List ℕ → Synced E
  sync_direct_block_state p layers =
      let want = want_pos p.offsets layers in
      if all_at p.offsets layers want
      then if p.block == want
        then ready p.block
        else if want == 0
        then moved (env.reset p.block)
        else if ltb env.max_seq_len want
        then unready
        else restored p.block want env.state
      else sync_failed p.block env.mismatch

  -- UpdateAndFetch on one layer's cache: with a row more, unless there is no cache or it fails.
  abbrev pub advance_then :
      (ℕ → Option ℕ)
      → ℕ
      → Option ℕ
      → Option E
      → ((ℕ → Option ℕ) → (ℕ → Option ℕ) × Option E)
      → (ℕ → Option ℕ) × Option E
  advance_then offsets l none u rest = rest offsets
  advance_then offsets l (some n) (some e) rest = (offsets, some e)
  advance_then offsets l (some n) none rest = rest (set_offset offsets l (suc n))

  unfoldable pub advance_direct_block_caches : List ℕ → (ℕ → Option ℕ) → (ℕ → Option ℕ) × Option E
  advance_direct_block_caches [] offsets = (offsets, none)
  advance_direct_block_caches (l ∷ ls) offsets =
      advance_then offsets l (offsets l) (env.updates l) (advance_direct_block_caches ls)

  abbrev pub first_error : List (Option E) → Option E
  first_error [] = none
  first_error (some e ∷ cs) = some e
  first_error (none ∷ cs) = first_error cs

  -- A return without `handled`: the slot was given back, and the span is marked with the error.
  abbrev pub decline : Positions → E → Stepped E
  decline p e = record { answer = declined e; slot = given_back; positions = p }

  abbrev pub stepped : Positions → Option E → Stepped E
  stepped p (some e) = decline p e
  stepped p none = record {
    answer = handled;
    slot = lent;
    positions = record p { block = suc p.block };
  }

  abbrev pub caches_advanced : Positions → (ℕ → Option ℕ) × Option E → Stepped E
  caches_advanced p (offsets, some e) = decline (record p { offsets = offsets }) e
  caches_advanced p (offsets, none) = stepped (record p { offsets = offsets }) env.advance

  abbrev pub viewed : Positions → List ℕ → Option E → Option E → Stepped E
  viewed p layers (some e) z = decline p e
  viewed p layers none (some e) = decline p e
  viewed p layers none none = caches_advanced p (advance_direct_block_caches layers p.offsets)

  abbrev pub checked : Positions → List ℕ → Option E → Stepped E
  checked p layers (some e) = decline p e
  checked p layers none = viewed p layers env.output env.zero_rows

  abbrev pub synced : Positions → List ℕ → Synced E → Stepped E
  synced p layers (sync_failed b e) = decline (record p { block = b }) e
  synced p layers unready = decline p env.not_ready
  synced p layers (ready b) = checked (record p { block = b }) layers (first_error env.checks)

  -- From the leased slot on.
  unfoldable pub direct_block_output : Positions → List ℕ → Stepped E
  direct_block_output p layers = synced p layers (sync_direct_block_state p layers)
