-- ===== src/Drafter/Greedy.antt =====
-- anedraftimpl/ane_draft_darwin.go, Draft, from the width that is asked for to the answer.
use autoresearch_mlx_go_ane.Prelude.{
  ℕ, ◌≡◌, refl, subst, sym, Bool, true, false, not, List, ◌∷◌, ◌⊎◌, if◌then◌else◌,
}
use autoresearch_mlx_go_ane.Layer.{good, bad}
use autoresearch_mlx_go_ane.Drafter.State.{Setup, Drafter, not_initialized}
use autoresearch_mlx_go_ane.Drafter.Calls.{
  is_ready, maybe_enable_reference_only, ends_with, is_capped, draft_capped, draft,
}
use autoresearch_mlx_go_ane.Drafter.Contract.{Contract, IsSound}
use autoresearch_mlx_go_ane.Drafter.Guard.{maybe_enable-Guarded}
use autoresearch_mlx_go_ane.Drafter.Snapshots.{Steady}
use autoresearch_mlx_go_ane.Drafter.Answers.{Answer, ensure-Answer, same-IsSound}

module _ {M S X C E F : Type 0} {env : Setup M S X C E F} (law : Contract env) where
  -- The same answer, seen from a drafter with the same history.
  earlier :
      (d₀ d d' : Drafter M S C F) (t n : ℕ) (ts : List ℕ)
      → d.history ≡ d₀.history
      → Answer law d t n ts d'
      → Answer law d₀ t n ts d'
  earlier d₀ d d' t n ts e a = record {
    base = a.base;
    ends = subst (λ h. (a.base ≡ t ∷ h) ⊎ ((a.base ≡ h) × (ends_with env h t ≡ true))) e a.ends;
    longer = a.longer;
    wide = a.wide;
    greedy = a.greedy;
    sound = a.sound;
    steady = a.steady;
    covers = a.covers;
  }

  capped-Answer :
      (d : Drafter M S C F) (t n : ℕ) (ts : List ℕ)
      → IsSound law d
      → Steady law d.model_snapshots
      → (draft_capped env d (good t) n).1 ≡ good ts
      → Answer law d t n ts (draft_capped env d (good t) n).0
  capped-Answer d t n ts v st q =
      let g = maybe_enable-Guarded law d v in
      let d₁ = maybe_enable_reference_only env d in
      earlier d d₁ (draft_capped env d (good t) n).0 t n ts g.same_history
        (ensure-Answer law d₁ t n ts g.sound (subst (Steady law) (sym g.same_snapshots) st) q)

  -- The width that Draft keeps to.
  abbrev pub width : Drafter M S C F → ℕ → ℕ
  width d n = if is_capped env d n then 1 else n

  -- Where the operations keep their contract, and snapshots are taken at every token or never: a
  -- Draft that succeeds on a sound drafter gives as many tokens as its width, one when it is
  -- capped. The drafter is sound again, its history has grown by the last token, unless it ended
  -- with it, and by exactly these tokens, and the newest snapshots are those that a Rewind of up to
  -- as many tokens needs. Unless the reference's logits are preferred, the tokens are the greedy
  -- continuation, by the model or by the reference.
  pub draft-IsGreedy :
      (d : Drafter M S C F) (t n : ℕ) (ts : List ℕ)
      → IsSound law d
      → Steady law d.model_snapshots
      → (draft env d (good t) n).1 ≡ good ts
      → Answer law d t (width d n) ts (draft env d (good t) n).0
  unfolding draft
  draft-IsGreedy d t n ts v st q = ready (is_ready env d) q
    where
      d₁ : Drafter M S C F
      d₁ = record d { logged_draft_cap = true }

      wide :
          (b : Bool)
          → (if b then draft_capped env d₁ (good t) 1 else draft_capped env d (good t) n).1
            ≡ good ts
          → Answer law d t
              (if b then 1 else n)
              ts
              (if b then draft_capped env d₁ (good t) 1 else draft_capped env d (good t) n).0
      wide true q' =
          earlier d d₁ _ t 1 ts refl
            (capped-Answer d₁ t 1 ts (same-IsSound law d d₁ refl refl refl refl refl v) st q')
      wide false q' = capped-Answer d t n ts v st q'

      ready :
          (b : Bool)
          → (if not b
              then (d, bad not_initialized)
              else if is_capped env d n
              then draft_capped env d₁ (good t) 1
              else draft_capped env d (good t) n).1
            ≡ good ts
          → Answer law d t
              (width d n)
              ts
              (if not b
                then (d, bad not_initialized)
                else if is_capped env d n
                then draft_capped env d₁ (good t) 1
                else draft_capped env d (good t) n).0
      ready false q' = cc
      ready true q' = wide (is_capped env d n) q'
