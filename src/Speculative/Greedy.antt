-- ===== src/Speculative/Greedy.antt =====
-- draft_model_darwin.go: a speculative step against greedy decoding of the target model alone.
use autoresearch_mlx_go_ane.Prelude.{
  ℕ, zero, suc, ◌+◌, ◌*◌, ◌≤◌, ◌≡◌, refl, ap, sym, ◌∙◌, ◌≢◌, Bool, true, false, not, List, [], ◌∷◌,
  ◌++◌, Option, none, some, ltb, ◌==◌, if◌then◌else◌, length, arith, ==_iff,
}
use autoresearch_mlx_go_ane.Prelude.Int.{pos}
use autoresearch_mlx_go_ane.Layer.{Result, good, bad}
use autoresearch_mlx_go_ane.Speculative.{
  argmax_float32, wrong_draft_length, wrong_embedding_length, bad_k, model_closed,
  row_out_of_bounds, row_of, Draft, DraftError, DraftEnv, merged, verified, drafted, embedded,
  generate_from, generate_draft, embedding_for_token, step, draft_then, advanced, evaluated,
}
use autoresearch_mlx_go_ane.Speculative.Merge.{
  greedy, agreeing, rows_after, merge-greedy, agreeing-le,
}

module _ {F : Type 0} (gt : F → F → Bool) (target : List ℕ → List F) where
  -- A step that drafted `drafts` and verified them gives the target's own next tokens, one at least and one more
  -- than was drafted at most.
  pub record IsSpeculated {E : Type 0} (drafts : List ℕ) (k input : ℕ) (context : List ℕ)
      (o : Result (DraftError E) (List ℕ)) : Type 0 where
    pub is_long : length drafts ≡ k
    pub count : ℕ
    pub is_count : count ≡ agreeing gt target drafts (context ++ input ∷ [])
    pub is_bounded : count ≤ k
    pub is_greedy : o ≡ good (greedy gt target (suc count) (context ++ input ∷ []))

  module _ {E : Type 0} (env : DraftEnv F E) (context : List ℕ)
      (full : (seen : List ℕ) → target seen ≢ []) where
    drafted_good :
        (k input : ℕ) (m : Draft F) (ds : List ℕ)
        → k ≢ 0
        → env.verify_batch (input ∷ ds) ≡ good (rows_after gt target (context ++ input ∷ []) ds)
        → length ds ≡ k
        → (drafted gt env input k (m, good ds)).1
          ≡ good (
              greedy gt target
                (suc (agreeing gt target ds (context ++ input ∷ [])))
                (context ++ input ∷ []))
    drafted_good k input m ds positive verifies len =
        counted (length ds == k) ((==_iff (length ds) k).1 len)
        ∙ ap (verified gt env ds) verifies
        ∙ ap (merged gt env) (
            merge-greedy gt target full ds (context ++ input ∷ [])
              (λ e. positive (sym len ∙ ap length e)))
      where
        counted :
            (b : Bool)
            → b ≡ true
            → (let r : Draft F × Result (DraftError E) (List ℕ) =
                  if b
                  then (m, verified gt env ds (env.verify_batch (input ∷ ds)))
                  else (m, bad (wrong_draft_length (length ds))) in
                r.1)
              ≡ verified gt env ds (env.verify_batch (input ∷ ds))
        counted true e = refl
        counted false e = cc

    -- Drafting that succeeds gives as many tokens as asked.
    HasLength : ℕ → Draft F × Result (DraftError E) (List ℕ) → Type 0
    HasLength k r = (ds : List ℕ) → r.1 ≡ good ds → length ds ≡ k

    draft_then-HasLength :
        (k t : ℕ) (r : Draft F × Result (DraftError E) (List ℕ))
        → HasLength k r
        → HasLength (suc k) (draft_then gt env t r)
    unfolding HasLength
    draft_then-HasLength k t (m, good ts) h ds e =
        let same : t ∷ ts ≡ ds = cc in rw (sym same) (ap suc (h ts refl))
    draft_then-HasLength k t (m, bad x) h ds e = cc

    advanced-HasLength :
        (k t : ℕ) (rest : Draft F → Draft F × Result (DraftError E) (List ℕ))
        (r : Draft F × Option E)
        → ((m : Draft F) → HasLength k (rest m))
        → HasLength (suc k) (advanced gt env rest t r)
    unfolding HasLength
    advanced-HasLength k t rest (m, some x) h ds e = cc
    advanced-HasLength k t rest (m, none) h ds e = draft_then-HasLength k t (rest m) (h m) ds e

    evaluated-HasLength :
        (k : ℕ) (rest : List F → Draft F → Draft F × Result (DraftError E) (List ℕ))
        (r : Draft F × Result E (List F))
        → ((row : List F) (m : Draft F) → HasLength k (rest row m))
        → HasLength (suc k) (evaluated gt env rest r)
    unfolding HasLength
    evaluated-HasLength k rest (m, bad x) h ds e = cc
    evaluated-HasLength k rest (m, good logits) h ds e =
        bounded (ltb (length m.embeddings) (argmax_float32 gt logits * m.hidden_dim + m.hidden_dim))
          e
      where
        more : Draft F × Result (DraftError E) (List ℕ)
        more =
            advanced gt env (rest (row_of gt env m (argmax_float32 gt logits)))
              (argmax_float32 gt logits) (env.advance m)

        bounded :
            (b : Bool)
            → (if b then (m, bad row_out_of_bounds) else more).1 ≡ good ds
            → length ds ≡ suc k
        bounded true f = cc
        bounded false f =
            advanced-HasLength k (argmax_float32 gt logits)
              (rest (row_of gt env m (argmax_float32 gt logits))) (env.advance m)
              (h (row_of gt env m (argmax_float32 gt logits))) ds f

    generate_from-HasLength :
        (k : ℕ) (curr : List F) (m : Draft F) → HasLength k (generate_from gt env k curr m)
    unfolding generate_from HasLength
    generate_from-HasLength zero curr m ds e = let same : [] ≡ ds = cc in rw (sym same) refl
    generate_from-HasLength (suc k) curr m ds e =
        evaluated-HasLength k (generate_from gt env k) (env.eval_token m curr)
          (generate_from-HasLength k) ds e

    generate_draft-HasLength :
        (m : Draft F) (row : List F) (k : ℕ) → HasLength k (generate_draft gt env m row k)
    unfolding generate_draft HasLength
    generate_draft-HasLength m row k ds e =
        guarded (not (length row == m.hidden_dim)) (k == 0) m.closed e
      where
        guarded :
            (a b c : Bool)
            → (if a
                then (m, bad wrong_embedding_length)
                else if b
                then (m, bad bad_k)
                else if c
                then (m, bad model_closed)
                else generate_from gt env k row m).1
              ≡ good ds
            → length ds ≡ k
        guarded true b c f = cc
        guarded false true c f = cc
        guarded false false true f = cc
        guarded false false false f = generate_from-HasLength k row m ds f

    step_positive :
        (m : Draft F) (k input : ℕ)
        → k ≢ 0
        → step gt env m k input
          ≡ embedded gt env m input k (embedding_for_token gt env m (pos input))
    unfolding step
    step_positive m k input h = pick (k == 0) ((==_iff k 0).0)
      where
        pick :
            (b : Bool)
            → (b ≡ true → k ≡ 0)
            → (if b
                then (m, bad bad_k)
                else embedded gt env m input k (embedding_for_token gt env m (pos input)))
              ≡ embedded gt env m input k (embedding_for_token gt env m (pos input))
        pick true q = absurd (h (q refl))
        pick false q = refl

    -- For a positive `k`, when the input token has an embedding, `GenerateDraft` drafts the tokens
    -- `ds`, and the target verifies with its own logits, none of them empty: `ds` has `k` tokens,
    -- and `SpeculativeDecoder.Step` succeeds and gives what greedy decoding of the target alone
    -- would, namely as many tokens as those at the front of `ds` that are the target's own choices,
    -- and one more.
    pub step-IsSpeculated :
        (m : Draft F) (k input : ℕ) {row : List F} {ds : List ℕ}
        → k ≢ 0
        → ((ts : List ℕ)
            → env.verify_batch (input ∷ ts)
              ≡ good (rows_after gt target (context ++ input ∷ []) ts))
        → embedding_for_token gt env m (pos input) ≡ good row
        → (generate_draft gt env m row k).1 ≡ good ds
        → IsSpeculated ds k input context (step gt env m k input).1
    unfolding step HasLength
    step-IsSpeculated m k input {row} {ds} positive verifies emb gen =
        let len : length ds ≡ k = generate_draft-HasLength m row k ds gen in
        record {
          is_long = len;
          count = agreeing gt target ds (context ++ input ∷ []);
          is_count = refl;
          is_bounded = let h = agreeing-le gt target ds (context ++ input ∷ []) in omega arith;
          is_greedy =
              ap (λ (r : Draft F × Result (DraftError E) (List ℕ)). r.1)
                (step_positive m k input positive)
              ∙ ap (λ o. (embedded gt env m input k o).1) emb
              ∙ ap (λ o. (drafted gt env input k ((generate_draft gt env m row k).0, o)).1) gen
              ∙ drafted_good k input (generate_draft gt env m row k).0 ds positive (verifies ds)
                  len;
        }
