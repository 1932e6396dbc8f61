-- ===== src/Drafter/Session.antt =====
-- anedraftimpl/ane_draft_darwin.go: a prompt, and then rounds of Draft and Rewind, as speculative
-- decoding calls them.
use autoresearch_mlx_go_ane.Prelude.{
  ℕ, zero, suc, ◌≤◌, ◌≡◌, refl, ◌∙◌, ap, subst, sym, Bool, true, false, not, List, [], ◌∷◌, ◌++◌,
  Option, none, some, ◌⊎◌, inl, inr, if◌then◌else◌, length, length-append, drop, arith,
}
use mathlib.Core.Option.{some-injective}
use mathlib.Core.List.{reverse, reverse-cons, reverse-append, append_assoc, append-nil}
use autoresearch_mlx_go_ane.Layer.{good}
use autoresearch_mlx_go_ane.Drafter.State.{Setup, Drafter, not_initialized}
use autoresearch_mlx_go_ane.Drafter.Runner.{Runner, reset_runner}
use autoresearch_mlx_go_ane.Drafter.Feed.{reset_reference}
use autoresearch_mlx_go_ane.Drafter.Calls.{is_ready, ends_with, draft, rewind_drafter}
use autoresearch_mlx_go_ane.Drafter.Fresh.{
  fresh_drafter, model_reset, prefill_with, prefill_reset, prefill,
}
use autoresearch_mlx_go_ane.Drafter.Contract.{Contract, Mode, IsSound}
use autoresearch_mlx_go_ane.Drafter.Replay.{feed_all-FedAll, reset_runner-Follows}
use autoresearch_mlx_go_ane.Drafter.Snapshots.{Steady, Greedy}
use autoresearch_mlx_go_ane.Drafter.Greedy.{draft-IsGreedy}
use autoresearch_mlx_go_ane.Drafter.Shorter.{rewind-Shortened}

length-reverse : (xs : List ℕ) → length (reverse xs) ≡ length xs
length-reverse [] = refl
length-reverse (x ∷ xs) =
    ap length (reverse-cons x xs)
    ∙ length-append (reverse xs) (x ∷ [])
    ∙ omega (arith, length-reverse xs)

drop_front : (xs ys : List ℕ) (n : ℕ) → length xs ≡ n → drop n (xs ++ ys) ≡ ys
drop_front [] ys zero e = refl
drop_front [] ys (suc n) e = absurd (omega arith)
drop_front (x ∷ xs) ys zero e = absurd (omega arith)
drop_front (x ∷ xs) ys (suc n) e = drop_front xs ys n (omega arith)

-- The history without the rejected tokens.
accepted_left :
    (kept rejected base : List ℕ)
    → drop (length rejected) (reverse (kept ++ rejected) ++ base) ≡ reverse kept ++ base
accepted_left kept rejected base =
    ap (λ h. drop (length rejected) h)
      (ap (λ h. h ++ base) (reverse-append kept rejected)
        ∙ append_assoc (reverse rejected) (reverse kept) base)
    ∙ drop_front (reverse rejected) (reverse kept ++ base) (length rejected)
        (length-reverse rejected)

module _ {M S X C E F : Type 0} {env : Setup M S X C E F} (law : Contract env) where
  -- One round: a Draft after the token `t`, of which the tokens `kept` are accepted, and the Rewind
  -- of the others. `base` is the history with `t` at its end.
  pub record Round (d : Drafter M S C F) (t : ℕ) (kept rejected : List ℕ) (d' : Drafter M S C F)
      : Type 0 where
    pub base : List ℕ
    pub ends : (base ≡ t ∷ d.history) ⊎ ((base ≡ d.history) × (ends_with env d.history t ≡ true))
    pub left : d'.history ≡ reverse kept ++ base
    pub greedy : env.use_ref_logits ≡ false → Greedy law d'.reference_only base (kept ++ rejected)
    pub sound : IsSound law d'
    pub steady : Steady law d'.model_snapshots

  -- Where the operations keep their contract, and snapshots are taken at every token or never: a
  -- Draft that succeeds on a sound drafter, and a Rewind of the rejected end of its tokens that has
  -- nothing to log, leave a sound drafter whose history is the old one with the last token and the
  -- accepted tokens at its end. Unless the reference's logits are preferred, all drafted tokens,
  -- the rejected ones too, are greedy.
  pub rewind-draft :
      (d : Drafter M S C F) (t n : ℕ) (kept rejected : List ℕ)
      → IsSound law d
      → Steady law d.model_snapshots
      → (draft env d (good t) n).1 ≡ good (kept ++ rejected)
      → (rewind_drafter env (draft env d (good t) n).0 (length rejected)).1 ≡ none
      → Round d t kept rejected (rewind_drafter env (draft env d (good t) n).0 (length rejected)).0
  rewind-draft d t n kept rejected v st q r =
      let a = draft-IsGreedy law d t n (kept ++ rejected) v st q in
      let fits : length rejected ≤ length (kept ++ rejected) =
        omega (arith, length-append kept rejected) in
      let s =
        rewind-Shortened law (draft env d (good t) n).0 (length rejected) _ fits a.sound a.covers
          r in
      record {
        base = a.base;
        ends = a.ends;
        left =
            s.shorter ∙ ap (drop (length rejected)) a.longer ∙ accepted_left kept rejected a.base;
        greedy =
            λ e. subst (λ b. Greedy law b a.base (kept ++ rejected)) (sym s.same_mode) (a.greedy e);
        sound = s.sound;
        steady = still a.steady s.none_left;
      }
    where
      still : {ss ss' : List S} → Steady law ss → (ss ≡ [] → ss' ≡ []) → Steady law ss'
      still (inl always) f = inl always
      still (inr (never, e)) f = inr (never, f e)

  -- Where the drafter shall start, with the model or with the reference, it has that one.
  abbrev pub HasSource : Drafter M S C F → Bool → Type 0
  HasSource d false = (m : M) × (d.model ≡ some m)
  HasSource d true = (r : Runner C) × (d.reference ≡ some r)

  cleared-IsSound :
      (d : Drafter M S C F) (b : Bool)
      → HasSource d b
      → ((m : M) → d.model ≡ some m → law.Holds m [])
      → Mode law (fresh_drafter env d) b
  cleared-IsSound d false (m, e) f = (m, e, f m e)
  cleared-IsSound d true (r, e) f =
      (reset_runner env.backend r, ap (reset_reference env) e, reset_runner-Follows law r)

  -- The state after a prompt.
  pub record Started (prompt : List ℕ) (d' : Drafter M S C F) : Type 0 where
    pub same_mode : d'.reference_only ≡ env.prefer_reference_only
    pub history_is : d'.history ≡ reverse prompt
    pub sound : IsSound law d'
    pub no_snapshots : d'.model_snapshots ≡ []

  prefill_with-Started :
      (d : Drafter M S C F) (prompt : List ℕ)
      → HasSource d env.prefer_reference_only
      → ((m : M) → d.model ≡ some m → law.Holds m [])
      → (prefill_with env d (good prompt)).1 ≡ none
      → Started prompt (prefill_with env d (good prompt)).0
  prefill_with-Started d prompt has f q =
      let all =
        feed_all-FedAll law prompt (fresh_drafter env d)
          (record {
            in_step = cleared-IsSound d env.prefer_reference_only has f;
            aware = λ e. inl refl;
          })
          q in
      record {
        same_mode = all.same_mode;
        history_is = all.longer ∙ append-nil (reverse prompt);
        sound = all.sound;
        no_snapshots = all.same_snapshots;
      }

  model_reset_lem :
      (d : Drafter M S C F) (o : Option M)
      → d.model ≡ o
      → HasSource d env.prefer_reference_only
      → (model_reset env d o).1 ≡ none
      → HasSource (model_reset env d o).0 env.prefer_reference_only
        × ((m : M) → (model_reset env d o).0.model ≡ some m → law.Holds m [])
  model_reset_lem d none e has q = (has, λ m f. absurd (no_model m (sym e ∙ f)))
    where
      no_model : (m : M) → ◌≡◌ {A = Option M} none (some m) → ⊥
      no_model m f = cc
  model_reset_lem d (some m) e has q = (
    keeps env.prefer_reference_only has,
    λ m' f.
        subst (λ z. law.Holds z []) (some-injective _ _ f)
          (law.resets m (env.engine.reset_state m).0 (λ i. ((env.engine.reset_state m).0, q i))),
  )
    where
      keeps : (b : Bool) → HasSource d b → HasSource (model_reset env d (some m)).0 b
      keeps false has' = ((env.engine.reset_state m).0, refl)
      keeps true has' = has'

  -- Where the operations keep their contract: a Prefill that succeeds, from whatever state, leaves
  -- a sound drafter whose history is the prompt, without snapshots and in the preferred mode, if
  -- what that mode draws from, the model or the reference, is there.
  pub prefill-Started :
      (d : Drafter M S C F) (prompt : List ℕ)
      → HasSource d env.prefer_reference_only
      → (prefill env d (good prompt)).1 ≡ none
      → Started prompt (prefill env d (good prompt)).0
  unfolding prefill
  prefill-Started d prompt has q = ready (is_ready env d) q
    where
      go :
          (p : Drafter M S C F × Option E)
          → (p.1 ≡ none
              → HasSource p.0 env.prefer_reference_only
                × ((m : M) → p.0.model ≡ some m → law.Holds m []))
          → (prefill_reset env (good prompt) p).1 ≡ none
          → Started prompt (prefill_reset env (good prompt) p).0
      go (d', some e) f q' = cc
      go (d', none) f q' =
          let (has', holds) = f refl in prefill_with-Started d' prompt has' holds q'

      ready :
          (b : Bool)
          → (if not b
              then (d, some not_initialized)
              else prefill_reset env (good prompt) (model_reset env d d.model)).1
            ≡ none
          → Started prompt
              (if not b
                then (d, some not_initialized)
                else prefill_reset env (good prompt) (model_reset env d d.model)).0
      ready false q' = cc
      ready true q' = go (model_reset env d d.model) (model_reset_lem d d.model refl has) q'
