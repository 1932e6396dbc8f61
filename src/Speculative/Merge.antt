-- ===== src/Speculative/Merge.antt =====
-- draft_model_darwin.go: merging drafted tokens with the target's, against greedy decoding.
use autoresearch_mlx_go_ane.Prelude.{
  ℕ, zero, suc, ◌≤◌, ◌≡◌, refl, ap, sym, ◌∙◌, ◌≢◌, Bool, true, false, List, [], ◌∷◌, ◌++◌, ltb,
  ◌==◌, if◌then◌else◌, length, arith, ==_iff,
}
use autoresearch_mlx_go_ane.Layer.{Result, good, bad}
use autoresearch_mlx_go_ane.Speculative.{
  argmax_float32, MergeError, accept, merge_from, few_logits, merge_draft_with_target_greedy,
}

module _ {F : Type 0} (gt : F → F → Bool) (target : List ℕ → List F) where
  -- The next tokens of the target model alone, after the tokens `seen`.
  unfoldable pub greedy : ℕ → List ℕ → List ℕ
  greedy zero seen = []
  greedy (suc n) seen =
      argmax_float32 gt (target seen) ∷ greedy n (seen ++ argmax_float32 gt (target seen) ∷ [])

  -- How many drafted tokens, from the first on, are the target's own.
  unfoldable pub agreeing : List ℕ → List ℕ → ℕ
  agreeing [] seen = 0
  agreeing (d ∷ ds) seen =
      let more = agreeing ds (seen ++ d ∷ []) in
      if argmax_float32 gt (target seen) == d then suc more else 0

  -- The target's logits after `seen`, and after each further token of `ts`.
  unfoldable pub rows_after : List ℕ → List ℕ → List (List F)
  rows_after seen [] = target seen ∷ []
  rows_after seen (t ∷ ts) = target seen ∷ rows_after (seen ++ t ∷ []) ts

  module _ (full : (seen : List ℕ) → target seen ≢ []) where
    merge_nil :
        (i : ℕ) (row : List F)
        → row ≢ []
        → merge_from gt i [] (row ∷ []) ≡ good (argmax_float32 gt row ∷ [])
    unfolding merge_from
    merge_nil i [] h = absurd (h refl)
    merge_nil i (x ∷ xs) h = refl

    merge_cons :
        (i d : ℕ) (ds : List ℕ) (row : List F) (rows : List (List F))
        → row ≢ []
        → merge_from gt i (d ∷ ds) (row ∷ rows) ≡ (
            if argmax_float32 gt row == d
            then accept gt d (merge_from gt (suc i) ds rows)
            else good (argmax_float32 gt row ∷ []))
    unfolding merge_from
    merge_cons i d ds [] rows h = absurd (h refl)
    merge_cons i d ds (x ∷ xs) rows h = refl

    -- One round: the token that is accepted is the target's own.
    one_round :
        (t d : ℕ) (ds seen : List ℕ)
        → t ≡ argmax_float32 gt (target seen)
        → (rest : Result MergeError (List ℕ))
        → rest ≡ good (greedy (suc (agreeing ds (seen ++ d ∷ []))) (seen ++ d ∷ []))
        → (if t == d then accept gt d rest else good (t ∷ []))
          ≡ good (greedy (suc (if t == d then suc (agreeing ds (seen ++ d ∷ [])) else 0)) seen)
    unfolding greedy
    one_round t d ds seen e rest f = pick (t == d) ((==_iff t d).0)
      where
        pick :
            (b : Bool)
            → (b ≡ true → t ≡ d)
            → (if b then accept gt d rest else good (t ∷ []))
              ≡ good (greedy (suc (if b then suc (agreeing ds (seen ++ d ∷ [])) else 0)) seen)
        pick false same = ap (λ a. good (a ∷ [])) e
        pick true same =
            ap (accept gt d) f
            ∙ ap (λ a. good (a ∷ greedy (suc (agreeing ds (seen ++ d ∷ []))) (seen ++ a ∷ [])))
                (sym (same refl) ∙ e)

    merge_from-greedy :
        (i : ℕ) (ds seen : List ℕ)
        → merge_from gt i ds (rows_after seen ds) ≡ good (greedy (suc (agreeing ds seen)) seen)
    unfolding rows_after agreeing greedy
    merge_from-greedy i [] seen = merge_nil i (target seen) (full seen)
    merge_from-greedy i (d ∷ ds) seen =
        merge_cons i d ds (target seen) (rows_after (seen ++ d ∷ []) ds) (full seen)
        ∙ one_round (argmax_float32 gt (target seen)) d ds seen refl
            (merge_from gt (suc i) ds (rows_after (seen ++ d ∷ []) ds))
            (merge_from-greedy (suc i) ds (seen ++ d ∷ []))

    length-rows_after : (seen ts : List ℕ) → length (rows_after seen ts) ≡ suc (length ts)
    unfolding rows_after
    length-rows_after seen [] = refl
    length-rows_after seen (t ∷ ts) = ap suc (length-rows_after (seen ++ t ∷ []) ts)

    pub merge-greedy :
        (ds seen : List ℕ)
        → ds ≢ []
        → merge_draft_with_target_greedy gt ds (rows_after seen ds)
          ≡ good (greedy (suc (agreeing ds seen)) seen)
    unfolding merge_draft_with_target_greedy
    merge-greedy [] seen h = absurd (h refl)
    merge-greedy (d ∷ ds) seen h =
        enough (ltb (length (rows_after seen (d ∷ ds))) (suc (length (d ∷ ds)))) long
        ∙ merge_from-greedy 0 (d ∷ ds) seen
      where
        long : ltb (length (rows_after seen (d ∷ ds))) (suc (length (d ∷ ds))) ≡ false
        long = let n = length-rows_after seen (d ∷ ds) in ground arith

        enough :
            (b : Bool)
            → b ≡ false
            → (if b
                then bad (few_logits (length (rows_after seen (d ∷ ds))))
                else merge_from gt 0 (d ∷ ds) (rows_after seen (d ∷ ds)))
              ≡ merge_from gt 0 (d ∷ ds) (rows_after seen (d ∷ ds))
        enough true e = cc
        enough false e = refl

  pub agreeing-le : (ds seen : List ℕ) → agreeing ds seen ≤ length ds
  unfolding agreeing
  agreeing-le [] seen = omega arith
  agreeing-le (d ∷ ds) seen =
      let h = agreeing-le ds (seen ++ d ∷ []) in pick (argmax_float32 gt (target seen) == d) h
    where
      pick :
          (b : Bool)
          → agreeing ds (seen ++ d ∷ []) ≤ length ds
          → (if b then suc (agreeing ds (seen ++ d ∷ [])) else 0) ≤ suc (length ds)
      pick true h = omega arith
      pick false h = omega arith
