-- ===== src/Speculative.antt =====
-- draft_model_darwin.go: drafting tokens on the accelerator, and accepting them against the target
-- model. `F` is the type of floats, `gt` its order `>`, and `E` the type of errors.
pub mod Merge
pub mod Greedy
pub mod Tests
use autoresearch_mlx_go_ane.Prelude.{
  ℕ, zero, suc, ◌+◌, ◌-◌, ◌*◌, Bool, true, false, not, ◌&&◌, ◌||◌, List, [], ◌∷◌, ◌++◌, Option,
  none, some, ltb, leb, ◌==◌, if◌then◌else◌, length, take, drop,
}
use autoresearch_mlx_go_ane.Prelude.Int.{ℤ, pos, negsuc}
use autoresearch_mlx_go_ane.Layer.{Result, good, bad}

module _ {F : Type 0} (gt : F → F → Bool) where
  -- The loop of argmaxFloat32 from index `i` on.
  abbrev pub argmax_from : ℕ → ℕ → F → List F → ℕ
  argmax_from i best_idx best [] = best_idx
  argmax_from i best_idx best (x ∷ xs) =
      let better = argmax_from (suc i) i x xs in
      let same = argmax_from (suc i) best_idx best xs in if gt x best then better else same

  unfoldable pub argmax_float32 : List F → ℕ
  argmax_float32 [] = 0
  argmax_float32 (x ∷ xs) = argmax_from 1 0 x xs

pub data MergeError : Type 0 where
  empty_draft : MergeError
  few_logits : ℕ → MergeError
  empty_logits : ℕ → MergeError

module _ {F : Type 0} (gt : F → F → Bool) where
  -- One more accepted token in front of what the rest of the loop accepts.
  abbrev pub accept : ℕ → Result MergeError (List ℕ) → Result MergeError (List ℕ)
  accept t (good ts) = good (t ∷ ts)
  accept t (bad e) = bad e

  -- The loop of mergeDraftWithTargetGreedy at position `i`, on the draft tokens and the rows of
  -- logits that are left, and the extra token at the end.
  unfoldable pub merge_from : ℕ → List ℕ → List (List F) → Result MergeError (List ℕ)
  merge_from i ds [] = bad (few_logits i)
  merge_from i [] ([] ∷ rows) = bad (empty_logits i)
  merge_from i [] ((x ∷ xs) ∷ rows) = good (argmax_float32 gt (x ∷ xs) ∷ [])
  merge_from i (d ∷ ds) ([] ∷ rows) = bad (empty_logits i)
  merge_from i (d ∷ ds) ((x ∷ xs) ∷ rows) =
      let rest = merge_from (suc i) ds rows in
      if argmax_float32 gt (x ∷ xs) == d
      then accept d rest
      else good (argmax_float32 gt (x ∷ xs) ∷ [])

  unfoldable pub merge_draft_with_target_greedy :
      List ℕ → List (List F) → Result MergeError (List ℕ)
  merge_draft_with_target_greedy [] rows = bad empty_draft
  merge_draft_with_target_greedy (d ∷ ds) rows =
      if ltb (length rows) (suc (length (d ∷ ds)))
      then bad (few_logits (length rows))
      else merge_from 0 (d ∷ ds) rows

-- The fields of `ANEDraftModel` that the token loop and the rewind use.
pub record Draft (F : Type 0) : Type 0 where
  pub closed : Bool
  pub hidden_dim : ℕ
  pub vocab_size : ℕ
  pub embeddings : List F
  pub decode_pos : ℕ
  pub has_stateful_mil : Bool

pub data DraftError (E : Type 0) : Type 0 where
  wrong_embedding_length bad_k model_closed row_out_of_bounds no_embeddings bad_token
        bad_hidden_dim :
      DraftError E
  wrong_draft_length : ℕ → DraftError E
  platform : E → DraftError E
  merging : MergeError → DraftError E
  needs_rebuild : DraftError E

-- What the platform does: `evalTokenLocked`, `advanceDecodePositionLocked`, the rewind of the key
-- and value state if there is one, and the target's `VerifyBatch`.
pub record DraftEnv (F E : Type 0) : Type 0 where
  pub eval_token : Draft F → List F → Draft F × Result E (List F)
  pub advance : Draft F → Draft F × Option E
  pub rewind_kv : ℕ → Option E
  pub verify_batch : List ℕ → Result E (List (List F))

module _ {F E : Type 0} (gt : F → F → Bool) (env : DraftEnv F E) where
  abbrev pub row_of : Draft F → ℕ → List F
  row_of m token = take m.hidden_dim (drop (token * m.hidden_dim) m.embeddings)

  -- A token drafted in front of the rest of the loop; an error drops what was drafted.
  abbrev pub draft_then :
      ℕ → Draft F × Result (DraftError E) (List ℕ) → Draft F × Result (DraftError E) (List ℕ)
  draft_then t (m, good ts) = (m, good (t ∷ ts))
  draft_then t (m, bad e) = (m, bad e)

  -- After `advanceDecodePositionLocked`; `rest` is the loop from the next step on.
  abbrev pub advanced :
      (Draft F → Draft F × Result (DraftError E) (List ℕ))
      → ℕ
      → Draft F × Option E
      → Draft F × Result (DraftError E) (List ℕ)
  advanced rest t (m, some e) = (m, bad (platform e))
  advanced rest t (m, none) = draft_then t (rest m)

  -- After `evalTokenLocked`; `rest` takes the embedding of the token.
  abbrev pub evaluated :
      (List F → Draft F → Draft F × Result (DraftError E) (List ℕ))
      → Draft F × Result E (List F)
      → Draft F × Result (DraftError E) (List ℕ)
  evaluated rest (m, bad e) = (m, bad (platform e))
  evaluated rest (m, good logits) =
      let t = argmax_float32 gt logits in
      if ltb (length m.embeddings) (t * m.hidden_dim + m.hidden_dim)
      then (m, bad row_out_of_bounds)
      else advanced (rest (row_of m t)) t (env.advance m)

  unfoldable pub generate_from : ℕ → List F → Draft F → Draft F × Result (DraftError E) (List ℕ)
  generate_from zero curr m = (m, good [])
  generate_from (suc k) curr m = evaluated (generate_from k) (env.eval_token m curr)

  unfoldable pub generate_draft : Draft F → List F → ℕ → Draft F × Result (DraftError E) (List ℕ)
  generate_draft m input k =
      if not (length input == m.hidden_dim)
      then (m, bad wrong_embedding_length)
      else if k == 0
      then (m, bad bad_k)
      else if m.closed
      then (m, bad model_closed)
      else generate_from k input m

  -- A token id is an int; a negative one is no token.
  abbrev pub embedding_of : Draft F → ℕ → Result (DraftError E) (List F)
  embedding_of m token =
      if length m.embeddings == 0
      then bad no_embeddings
      else if leb m.vocab_size token
      then bad bad_token
      else if m.hidden_dim == 0
      then bad bad_hidden_dim
      else if ltb (length m.embeddings) (token * m.hidden_dim + m.hidden_dim)
      then bad row_out_of_bounds
      else good (row_of m token)

  unfoldable pub embedding_for_token : Draft F → ℤ → Result (DraftError E) (List F)
  embedding_for_token m (pos token) = embedding_of m token
  embedding_for_token m (negsuc n) =
      if length m.embeddings == 0 then bad no_embeddings else bad bad_token

  -- RewindDecodePosition for a model that is not nil.
  abbrev pub moved_back : Draft F → ℕ → Option E → Draft F × Option (DraftError E)
  moved_back m n (some e) = (m, some (platform e))
  moved_back m n none = (record m { decode_pos = m.decode_pos - n }, none)

  unfoldable pub rewind_decode_position : Draft F → ℕ → Draft F × Option (DraftError E)
  rewind_decode_position m n =
      if n == 0
      then (m, none)
      else if m.closed
      then (m, some model_closed)
      else if m.has_stateful_mil
      then (m, some needs_rebuild)
      else moved_back m n (env.rewind_kv n)

  -- SpeculativeDecoder.Step, from the answers of its calls on.
  abbrev pub merged : Result MergeError (List ℕ) → Result (DraftError E) (List ℕ)
  merged (good ts) = good ts
  merged (bad e) = bad (merging e)

  abbrev pub verified : List ℕ → Result E (List (List F)) → Result (DraftError E) (List ℕ)
  verified ds (bad e) = bad (platform e)
  verified ds (good rows) = merged (merge_draft_with_target_greedy gt ds rows)

  abbrev pub drafted :
      ℕ → ℕ → Draft F × Result (DraftError E) (List ℕ) → Draft F × Result (DraftError E) (List ℕ)
  drafted input k (m, bad e) = (m, bad e)
  drafted input k (m, good ds) =
      if length ds == k
      then (m, verified ds (env.verify_batch (input ∷ ds)))
      else (m, bad (wrong_draft_length (length ds)))

  abbrev pub embedded :
      Draft F → ℕ → ℕ → Result (DraftError E) (List F) → Draft F × Result (DraftError E) (List ℕ)
  embedded m input k (bad e) = (m, bad e)
  embedded m input k (good row) = drafted input k (generate_draft m row k)

  unfoldable pub step : Draft F → ℕ → ℕ → Draft F × Result (DraftError E) (List ℕ)
  step m k input =
      if k == 0 then (m, bad bad_k) else embedded m input k (embedding_for_token m (pos input))
