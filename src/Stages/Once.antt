-- ===== src/Stages/Once.antt =====
-- decode/stages.go: a call that is over gives the same answer when it is made again.
use native.Mathlib.Decide.{ℕ_discrete}
use autoresearch_mlx_go_ane.Prelude.{
  ℕ, ◌≡◌, refl, subst, ap, sym, ◌∙◌, ◌⊎◌, inl, inr, Bool, true, false, some,
}
use autoresearch_mlx_go_ane.Stages.{Built, Cache, Pc}
use autoresearch_mlx_go_ane.Stages.Cells.{
  answer, Entered, found, joined, opened, enter-Entered, put_self, leave-answer, register,
}
use autoresearch_mlx_go_ane.Stages.Sound.{IsSound, register-IsSound, leave-IsSound}
use autoresearch_mlx_go_ane.Stages.Safety.{answered_enter}
use autoresearch_mlx_go_ane.Stages.Callers.{
  StageKey_discrete, Outcome, answered, blocked, complete, acquire, Caches, dense_stage,
  shared_stage, expert_stage, get_direct_block, get_supported, Call, for_dense, for_shared,
  for_direct, for_expert, Builders, Reply, stage, block, serve, IsOver, IsFinal,
}

module _ {K S E : Type 0} (dec : Discrete K) where
  record IsDone (c : Cache K S E) (k : K) (r : Cache K S E × Outcome S E) : Type 0 where
    sound : IsSound r.0
    settled : (b : Built S E) → r.1 ≡ answered b → answer r.0 k ≡ some b

  complete-IsDone :
      (c : Cache K S E) (build : K → Built S E) (k : K) {r : Cache K S E × Pc K S E}
      → Entered dec c k r
      → IsSound c
      → IsDone c k (complete dec build r)
  unfolding answer
  complete-IsDone c build k (found d a) h = record { sound = h; settled = λ b e. cc }
  complete-IsDone c build k (joined ch a) h = record { sound = h; settled = λ b e. cc }
  complete-IsDone c build k (opened free empty) h =
      let own = put_self dec c.pending k (some c.next_channel) in
      record {
        sound =
            leave-IsSound dec k c.next_channel (build k) own (register-IsSound dec k free empty h);
        settled = λ b e.
            leave-answer dec (register dec c k) k c.next_channel (build k) k empty
            ∙ put_self dec (answer c) k (some (build k))
            ∙ cc;
      }

  acquire_again :
      (c : Cache K S E) (build again : K → Built S E) (k : K)
      → IsSound c
      → (b : Built S E) → (acquire dec c build k).1 ≡ answered b
      → acquire dec (acquire dec c build k).0 again k ≡ ((acquire dec c build k).0, answered b)
  unfolding acquire
  acquire_again c build again k h b e =
      let d : IsDone c k (acquire dec c build k) =
        complete-IsDone c build k (enter-Entered dec c k) h in
      let found_it =
        answered_enter dec k (enter-Entered dec (acquire dec c build k).0 k) (d.settled b e)
          d.sound.unset in
      ap (complete dec again) found_it

module _ where
  Outcome-cases :
      {S E : Type 0} (o : Outcome S E)
      → ((b : Built S E) × (o ≡ answered b)) ⊎ ((ch : ℕ) × (o ≡ blocked ch))
  Outcome-cases (answered b) = inl (b, refl)
  Outcome-cases (blocked ch) = inr (ch, refl)

module _ {K S E : Type 0} (dec : Discrete K) where
  -- The same for the whole result, once the call did not block.
  acquire_same :
      (c : Cache K S E) (build again : K → Built S E) (k : K)
      → IsSound c
      → IsFinal (acquire dec c build k).1
      → acquire dec (acquire dec c build k).0 again k ≡ acquire dec c build k
  acquire_same c build again k h over = elim (Outcome-cases (acquire dec c build k).1) [
    | inl (b, e) ↦
        acquire_again dec c build again k h b e ∙ ap (λ o. ((acquire dec c build k).0, o)) (sym e)
    | inr (ch, e) ↦ absurd (subst IsFinal e over)
  ]

module _ {S B E : Type 0} where
  pub record IsSoundAll (p : Caches S B E) : Type 0 where
    pub dense : IsSound p.dense
    pub shared : IsSound p.shared
    pub experts : IsSound p.experts
    pub direct : IsSound p.direct

  -- A call of `getDirectBlock`, once the spans have been looked up.
  abbrev direct_reply : Bool → Caches S B E → (ℕ → Built B E) → ℕ → Caches S B E × Reply S B E
  direct_reply q p build l = let (c, r) = get_supported q p build l in (c, block r)

  direct_again :
      (p : Caches S B E) (build again : ℕ → Built B E) (l : ℕ) (q : Bool)
      → IsSound p.direct
      → IsOver (direct_reply q p build l).1
      → direct_reply q (direct_reply q p build l).0 again l ≡ direct_reply q p build l
  unfolding IsOver
  direct_again p build again l false h over = refl
  direct_again p build again l true h over =
      ap (λ r. (record p { direct = r.0 }, block (inr r.1)))
        (acquire_same ℕ_discrete p.direct build again l h over)

  spans_kept :
      (p : Caches S B E) (build : ℕ → Built B E) (l : ℕ) (q : Bool)
      → (get_supported q p build l).0.direct_spans ≡ p.direct_spans
  spans_kept p build l false = refl
  spans_kept p build l true = refl

  -- On caches whose channels are sound, a call of `denseStage`, `sharedStage`, `expertStage` or
  -- `getDirectBlock` that is over, answered or refused, gives the same reply and the same caches
  -- when it is made again, whatever the builders would answer now.
  pub serve_again :
      (p : Caches S B E) (b again : Builders S B E) (k : Call)
      → IsSoundAll p
      → IsOver (serve p b k).1
      → serve (serve p b k).0 again k ≡ serve p b k
  unfolding serve dense_stage shared_stage expert_stage get_direct_block IsOver
  serve_again p b again (for_dense l) h over =
      ap (λ r. (record p { dense = r.0 }, stage r.1))
        (acquire_same ℕ_discrete p.dense b.dense again.dense l h.dense over)
  serve_again p b again (for_shared l) h over =
      ap (λ r. (record p { shared = r.0 }, stage r.1))
        (acquire_same ℕ_discrete p.shared b.shared again.shared l h.shared over)
  serve_again p b again (for_expert l e) h over =
      ap (λ r. (record p { experts = r.0 }, stage r.1))
        (acquire_same StageKey_discrete p.experts (λ k. b.expert k.layer k.expert)
          (λ k. again.expert k.layer k.expert) (record { layer = l; expert = e }) h.experts over)
  serve_again p b again (for_direct l) h over =
      ap (λ f. direct_reply (f l) (get_direct_block p b.direct l).0 again.direct l)
        (spans_kept p b.direct l (p.direct_spans l))
      ∙ direct_again p b.direct again.direct l (p.direct_spans l) h.direct over
