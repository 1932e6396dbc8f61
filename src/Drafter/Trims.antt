-- ===== src/Drafter/Trims.antt =====
-- anedraftimpl/ane_draft_darwin.go, Rewind of the reference runner.
use autoresearch_mlx_go_ane.Prelude.{
  ℕ, zero, suc, ◌-◌, ◌≤◌, ◌≡◌, refl, ◌∙◌, ap, subst, sym, Bool, true, false, List, [], ◌∷◌, Option,
  none, some, if◌then◌else◌, length, drop, leb, arith, leb→le,
}
use mathlib.Core.List.{reverse}
use autoresearch_mlx_go_ane.Layer.{Result, good, bad}
use autoresearch_mlx_go_ane.Drafter.Runner.{
  Runner, reset_runner, replay, error_of, trim_or_replay, rewind_on, rewind_runner,
}
use autoresearch_mlx_go_ane.Drafter.State.{Setup}
use autoresearch_mlx_go_ane.Drafter.Contract.{Contract, Follows}
use autoresearch_mlx_go_ane.Drafter.Replay.{
  Ends, drop-all, replay_all-Follows, reset_runner-Follows,
}

module _ {M S X C E F : Type 0} {env : Setup M S X C E F} (law : Contract env) where
  error_of-Follows :
      (h : List ℕ) (p : Runner C × Result E (List F))
      → ((v : List F) → p.1 ≡ good v → Follows law p.0 h × Ends law v h)
      → (error_of env.backend p).1 ≡ none
      → Follows law (error_of env.backend p).0 h
  error_of-Follows h (r, bad e) f q = cc
  error_of-Follows h (r, good v) f q = (f v refl).0

  trim_or_replay-Follows :
      (r : Runner C) (h : List ℕ) (n : ℕ) (o : Option (ℕ → C))
      → env.backend.trim r.cache ≡ o
      → n ≤ length h
      → Follows law r h
      → (trim_or_replay env.backend r n o).1 ≡ none
      → Follows law (trim_or_replay env.backend r n o).0 (drop n h)
  trim_or_replay-Follows r h n (some f) e b k q = record {
    same = ap (drop n) k.same;
    holds =
        subst (λ g. law.HoldsCache (f (length g - n)) (drop n h)) (sym k.same)
          (law.trims r.cache h f n k.holds e b);
  }
  trim_or_replay-Follows r h n none e b k q =
      error_of-Follows (drop n h)
        (replay env.backend (reverse (drop n r.history)) (reset_runner env.backend r) [])
        (λ v f.
          subst
            (λ g.
              Follows law
                (replay env.backend (reverse (drop n r.history)) (reset_runner env.backend r) []).0
                (drop n g)
              × Ends law v (drop n g))
            k.same (replay_all-Follows law (drop n r.history) r v f))
        q

  rewind_on-Follows :
      (r : Runner C) (g h : List ℕ) (n : ℕ)
      → g ≡ h
      → Follows law r h
      → (rewind_on env.backend g r (suc n)).1 ≡ none
      → Follows law (rewind_on env.backend g r (suc n)).0 (drop (suc n) h)
  rewind_on-Follows r [] h n e k q =
      subst (λ g. Follows law r (drop (suc n) g)) e
        (record { same = k.same ∙ sym e; holds = subst (law.HoldsCache r.cache) (sym e) k.holds })
  rewind_on-Follows r (t ∷ ts) h n e k q = choose (leb (length (t ∷ ts)) (suc n)) refl q
    where
      choose :
          (b : Bool)
          → leb (length (t ∷ ts)) (suc n) ≡ b
          → (if b
              then (reset_runner env.backend r, none)
              else trim_or_replay env.backend r (suc n) (env.backend.trim r.cache)).1
            ≡ none
          → Follows law
              (if b
                then (reset_runner env.backend r, none)
                else trim_or_replay env.backend r (suc n) (env.backend.trim r.cache)).0
              (drop (suc n) h)
      choose true f q' =
          subst (Follows law (reset_runner env.backend r))
            (sym (drop-all (suc n) (t ∷ ts) (leb→le _ _ f)) ∙ ap (drop (suc n)) e)
            (reset_runner-Follows law r)
      choose false f q' =
          let below : suc n ≤ length (t ∷ ts) = ground arith in
          trim_or_replay-Follows r h (suc n) (env.backend.trim r.cache) refl
            (subst (λ (g : List ℕ). suc n ≤ length g) e below) k q'

  pub rewind_runner-Follows :
      (r : Runner C) (h : List ℕ) (n : ℕ)
      → Follows law r h
      → (rewind_runner env.backend r n).1 ≡ none
      → Follows law (rewind_runner env.backend r n).0 (drop n h)
  unfolding rewind_runner
  rewind_runner-Follows r h zero k q = k
  rewind_runner-Follows r h (suc n) k q = rewind_on-Follows r r.history h n k.same k q
