-- ===== src/Drafter/Replay.antt =====
-- anedraftimpl/ane_draft_darwin.go: going through a history again, by the drafter and by the runner.
use autoresearch_mlx_go_ane.Prelude.{
  ℕ, zero, suc, ◌≤◌, ◌≡◌, refl, ◌∙◌, ap, subst, sym, List, [], ◌∷◌, ◌++◌, Option, none, some, ◌⊎◌,
  inl, inr, length, drop, arith,
}
use mathlib.Core.Option.{some-injective}
use mathlib.Core.Option.{some-injective}
use mathlib.Core.List.{reverse, reverse-cons, reverse-reverse, append-nil, append_assoc}
use autoresearch_mlx_go_ane.Layer.{Result, good, bad}
use autoresearch_mlx_go_ane.Drafter.Runner.{
  Runner, reset_with, reset_runner, step_runner, replay, replay_then,
}
use autoresearch_mlx_go_ane.Drafter.State.{Setup, Drafter, DraftFault}
use autoresearch_mlx_go_ane.Drafter.Feed.{feed_token, fed_then, feed_all}
use autoresearch_mlx_go_ane.Drafter.Contract.{Contract, Follows, IsSound, Fed}
use autoresearch_mlx_go_ane.Drafter.Steps.{Stepped, step_runner-Stepped}
use autoresearch_mlx_go_ane.Drafter.Taken.{feed_token-Fed, Fed-IsSound}

pub good-injective : {A B : Type 0} (a b : B) → ◌≡◌ {A = Result A B} (good a) (good b) → a ≡ b
good-injective a b e = cc

pub drop-all : (n : ℕ) (h : List ℕ) → length h ≤ n → drop n h ≡ []
drop-all zero [] e = refl
drop-all zero (t ∷ h) e = absurd (omega arith)
drop-all (suc n) [] e = refl
drop-all (suc n) (t ∷ h) e = drop-all n h (omega arith)

-- The oldest token first, on top of a history.
pub reverse_onto : (t : ℕ) (ts h : List ℕ) → reverse ts ++ (t ∷ h) ≡ reverse (t ∷ ts) ++ h
reverse_onto t ts h = simp (reverse-cons, append_assoc)

pub reverse_back : (h : List ℕ) → reverse (reverse h) ++ [] ≡ h
reverse_back h = simp (reverse-reverse, append-nil)

module _ {M S X C E F : Type 0} {env : Setup M S X C E F} (law : Contract env) where
  -- The tokens `ts` taken in one after the other.
  pub record FedAll (d : Drafter M S C F) (ts : List ℕ) (d' : Drafter M S C F) : Type 0 where
    pub same_mode : d'.reference_only ≡ d.reference_only
    pub longer : d'.history ≡ reverse ts ++ d.history
    pub sound : IsSound law d'
    pub same_snapshots : d'.model_snapshots ≡ d.model_snapshots

  pub feed_all-FedAll :
      (ts : List ℕ) (d : Drafter M S C F)
      → IsSound law d
      → (feed_all env ts d).1 ≡ none
      → FedAll d ts (feed_all env ts d).0
  unfolding feed_all
  feed_all-FedAll [] d k q = record {
    same_mode = refl;
    longer = refl;
    sound = k;
    same_snapshots = refl;
  }
  feed_all-FedAll (t ∷ ts) d k q =
      after (feed_token env d t) (feed_token-Fed law d t k.in_step) (feed_all-FedAll ts) q
    where
      after :
          (p : Drafter M S C F × Option (DraftFault E))
          → (p.1 ≡ none → Fed law d t p.0)
          → ((d' : Drafter M S C F)
              → IsSound law d'
              → (feed_all env ts d').1 ≡ none
              → FedAll d' ts (feed_all env ts d').0)
          → (fed_then env p (feed_all env ts)).1 ≡ none
          → FedAll d (t ∷ ts) (fed_then env p (feed_all env ts)).0
      after (d', some e) f ih q' = cc
      after (d', none) f ih q' =
          let one = f refl in
          let rest = ih d' (Fed-IsSound law one) q' in
          record {
            same_mode = rest.same_mode ∙ one.same_mode;
            longer =
                rest.longer ∙ ap (λ h. reverse ts ++ h) one.longer ∙ reverse_onto t ts d.history;
            sound = rest.sound;
            same_snapshots = rest.same_snapshots ∙ one.same_snapshots;
          }

  reset_with-Follows :
      (r : Runner C) (o : Option C)
      → o ≡ some law.first_cache
      → Follows law (reset_with env.backend r o) []
  reset_with-Follows r none e = cc
  reset_with-Follows r (some c) e = record {
    same = refl;
    holds = subst (λ c'. law.HoldsCache c' []) (some-injective _ _ (sym e)) law.starts;
  }

  pub reset_runner-Follows : (r : Runner C) → Follows law (reset_runner env.backend r) []
  reset_runner-Follows r = reset_with-Follows r env.backend.new_cache law.is_first

  -- No logits, or those of the reference after `h`.
  abbrev pub Ends : List F → List ℕ → Type 0
  Ends v h = (v ≡ []) ⊎ (v ≡ law.reference_logits h)

  pub replay-Follows :
      (ts : List ℕ) (r : Runner C) (h : List ℕ) (last v : List F)
      → Follows law r h
      → Ends last h
      → (replay env.backend ts r last).1 ≡ good v
      → Follows law (replay env.backend ts r last).0 (reverse ts ++ h) × Ends v (reverse ts ++ h)
  unfolding replay
  replay-Follows [] r h last v k e q = (k, subst (λ w. Ends w h) (good-injective last v q) e)
  replay-Follows (t ∷ ts) r h last v k e q =
      after (step_runner env.backend r t) (λ w. step_runner-Stepped law r h t w k)
        (replay-Follows ts) q
    where
      after :
          (p : Runner C × Result E (List F))
          → ((w : List F) → p.1 ≡ good w → Stepped law h t w p.0)
          → ((r' : Runner C) (g : List ℕ) (l w : List F)
              → Follows law r' g
              → Ends l g
              → (replay env.backend ts r' l).1 ≡ good w
              → Follows law (replay env.backend ts r' l).0 (reverse ts ++ g)
                × Ends w (reverse ts ++ g))
          → (replay_then env.backend p (replay env.backend ts)).1 ≡ good v
          → Follows law
              (replay_then env.backend p (replay env.backend ts)).0
              (reverse (t ∷ ts) ++ h)
            × Ends v (reverse (t ∷ ts) ++ h)
      after (r', bad x) f ih q' = cc
      after (r', good l) f ih q' =
          let one = f l refl in
          subst (λ g. Follows law (replay env.backend ts r' l).0 g × Ends v g) (reverse_onto t ts h)
            (ih r' (t ∷ h) l v one.follows (inr one.is_logits) q')

  -- The whole history, from a fresh cache.
  pub replay_all-Follows :
      (h : List ℕ) (r : Runner C) (v : List F)
      → (replay env.backend (reverse h) (reset_runner env.backend r) []).1 ≡ good v
      → Follows law (replay env.backend (reverse h) (reset_runner env.backend r) []).0 h × Ends v h
  replay_all-Follows h r v q =
      subst
        (λ g.
          Follows law (replay env.backend (reverse h) (reset_runner env.backend r) []).0 g
          × Ends v g)
        (reverse_back h)
        (replay-Follows (reverse h) (reset_runner env.backend r) [] [] v (reset_runner-Follows r)
          (inl refl) q)
