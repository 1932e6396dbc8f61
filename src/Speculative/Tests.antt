-- ===== src/Speculative/Tests.antt =====
-- A target over four tokens that counts up, and a draft that agrees with it once of twice.
use autoresearch_mlx_go_ane.Prelude.{
  ℕ, zero, suc, ◌%◌, ◌≡◌, ◌≢◌, refl, Bool, false, List, [], ◌∷◌, none, ltb, arith, length,
}
use autoresearch_mlx_go_ane.Layer.{good}
use autoresearch_mlx_go_ane.Speculative.{
  Draft, DraftEnv, merge_draft_with_target_greedy, merge_from, argmax_float32, generate_draft,
  generate_from, embedding_for_token, step,
}
use autoresearch_mlx_go_ane.Speculative.Merge.{rows_after, greedy, agreeing, merge-greedy}
use autoresearch_mlx_go_ane.Speculative.Greedy.{IsSpeculated, step-IsSpeculated}

abbrev above : ℕ → ℕ → Bool
above x y = ltb y x

-- The best token after `n` tokens is the one at place `n % 3`.
abbrev row_for : ℕ → List ℕ
row_for zero = 9 ∷ 1 ∷ 1 ∷ []
row_for (suc zero) = 1 ∷ 9 ∷ 1 ∷ []
row_for (suc (suc n)) = 1 ∷ 1 ∷ 9 ∷ []

abbrev target : List ℕ → List ℕ
target seen = row_for (length seen % 3)

target_full : (seen : List ℕ) → target seen ≢ []
target_full seen = row (length seen % 3)
  where
    row : (n : ℕ) → row_for n ≢ []
    row zero e = cc
    row (suc zero) e = cc
    row (suc (suc n)) e = cc

merge_accepts :
    merge_draft_with_target_greedy above
      (1 ∷ 1 ∷ [])
      (rows_after above target (0 ∷ []) (1 ∷ 1 ∷ []))
    ≡ good (1 ∷ 2 ∷ [])
unfolding greedy agreeing argmax_float32
merge_accepts = merge-greedy above target target_full (1 ∷ 1 ∷ []) (0 ∷ []) (λ e. cc)

abbrev toy_draft : Draft ℕ
toy_draft = record {
  closed = false;
  hidden_dim = 1;
  vocab_size = 3;
  embeddings = 10 ∷ 11 ∷ 12 ∷ [];
  decode_pos = 0;
  has_stateful_mil = false;
}

-- The target's answer for the tokens after the first.
abbrev verify : List ℕ → List (List ℕ)
verify [] = []
verify (t ∷ ts) = rows_after above target (t ∷ []) ts

abbrev toy_env : DraftEnv ℕ ℕ
toy_env = record {
  eval_token = λ m curr. (m, good (1 ∷ 9 ∷ 1 ∷ []));
  advance = λ m. (record m { decode_pos = suc m.decode_pos }, none);
  rewind_kv = λ n. none;
  verify_batch = λ ts. good (verify ts);
}

step-IsSpeculated_example :
    IsSpeculated above target (1 ∷ 1 ∷ []) 2 0 [] (step above toy_env toy_draft 2 0).1
unfolding embedding_for_token generate_draft generate_from argmax_float32
step-IsSpeculated_example =
    step-IsSpeculated above target toy_env [] target_full toy_draft 2 0 (λ e. omega arith)
      (λ ts. refl) refl refl

-- It accepts the first drafted token and the target's own second.
step_accepts : (step above toy_env toy_draft 2 0).1 ≡ good (1 ∷ 2 ∷ [])
unfolding step embedding_for_token generate_draft generate_from argmax_float32 rows_after
    merge_draft_with_target_greedy merge_from
step_accepts = refl
