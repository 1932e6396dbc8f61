-- ===== src/Drafter/Rebuild.antt =====
-- anedraftimpl/ane_draft_darwin.go: syncReferenceState and rebuildState.
use autoresearch_mlx_go_ane.Prelude.{
  ◌≡◌, refl, ◌∙◌, ap, subst, sym, Bool, true, false, List, [], Option, none, some, ◌⊎◌, inl,
}
use mathlib.Core.List.{reverse}
use autoresearch_mlx_go_ane.Layer.{Result, good, bad}
use autoresearch_mlx_go_ane.Drafter.Runner.{Runner, reset_runner, replay}
use autoresearch_mlx_go_ane.Drafter.State.{Setup, Drafter}
use autoresearch_mlx_go_ane.Drafter.Feed.{
  replayed, rebuild_with, rebuild_state, reset_reference, reference_synced, sync_with,
  sync_reference_state,
}
use autoresearch_mlx_go_ane.Drafter.Contract.{Contract, Follows, Mode, IsSound, logits_after}
use autoresearch_mlx_go_ane.Drafter.Replay.{
  Ends, replay_all-Follows, reset_runner-Follows, reverse_back, feed_all-FedAll,
}

module _ {M S X C E F : Type 0} {env : Setup M S X C E F} (law : Contract env) where
  -- What a call that changes neither mode nor history leaves.
  pub record Moved (d d' : Drafter M S C F) : Type 0 where
    pub same_mode : d'.reference_only ≡ d.reference_only
    pub same_history : d'.history ≡ d.history
    pub sound : IsSound law d'
    pub none_left : d.model_snapshots ≡ [] → d'.model_snapshots ≡ []

  pub synced-IsSound :
      (d : Drafter M S C F) (p : Runner C × Result E (List F))
      → ((v : List F) → p.1 ≡ good v → Follows law p.0 d.history × Ends law v d.history)
      → (reference_synced env d p).1 ≡ none
      → IsSound law
          (record (reference_synced env d p).0 { reference_only = true; guard_triggered = true })
  synced-IsSound d (r, bad e) f q = cc
  synced-IsSound d (r, good v) f q = record {
    in_step = (r, refl, (f v refl).0);
    aware = λ e. (f v refl).1;
  }

  -- With the reference in step, the drafter may draw from it alone.
  pub sync-IsSound :
      (d : Drafter M S C F)
      → (sync_reference_state env d).1 ≡ none
      → IsSound law
          (record (sync_reference_state env d).0 { reference_only = true; guard_triggered = true })
  unfolding sync_reference_state
  sync-IsSound d q = choose d.reference q
    where
      choose :
          (o : Option (Runner C))
          → (sync_with env d o).1 ≡ none
          → IsSound law
              (record (sync_with env d o).0 { reference_only = true; guard_triggered = true })
      choose none q' = cc
      choose (some r) q' =
          synced-IsSound d (replay env.backend (reverse d.history) (reset_runner env.backend r) [])
            (λ v. replay_all-Follows law d.history r v) q'

  emptied : Drafter M S C F → M → Drafter M S C F
  emptied d m = record d {
    model = some m;
    reference = reset_reference env d.reference;
    last_logits = [];
    model_snapshots = [];
    history = [];
  }

  emptied-IsSound :
      (d : Drafter M S C F) (m : M)
      → law.Holds m []
      → (d.reference_only ≡ true → (r : Runner C) × (d.reference ≡ some r))
      → IsSound law (emptied d m)
  unfolding emptied
  emptied-IsSound d m k has = record { in_step = mode d.reference_only has; aware = λ e. inl refl }
    where
      mode :
          (b : Bool)
          → (b ≡ true → (r : Runner C) × (d.reference ≡ some r))
          → Mode law (emptied d m) b
      mode false has' = (m, refl, k)
      mode true has' =
          let (r, e) = has' refl in
          (reset_runner env.backend r, ap (reset_reference env) e, reset_runner-Follows law r)

  replayed-Moved :
      (d : Drafter M S C F) (p : M × Option E)
      → (p.1 ≡ none → law.Holds p.0 [])
      → (d.reference_only ≡ true → (r : Runner C) × (d.reference ≡ some r))
      → (replayed env d p).1 ≡ none
      → Moved d (replayed env d p).0
  unfolding emptied
  replayed-Moved d (m, some e) k has q = cc
  replayed-Moved d (m, none) k has q =
      let all =
        feed_all-FedAll law (reverse d.history) (emptied d m) (emptied-IsSound d m (k refl) has)
          q in
      record {
        same_mode = all.same_mode;
        same_history = all.longer ∙ reverse_back d.history;
        sound = all.sound;
        none_left = λ e. all.same_snapshots;
      }

  pub rebuild-Moved :
      (d : Drafter M S C F)
      → (d.reference_only ≡ true → (r : Runner C) × (d.reference ≡ some r))
      → (rebuild_state env d).1 ≡ none
      → Moved d (rebuild_state env d).0
  unfolding rebuild_state
  rebuild-Moved d has q = choose d.model q
    where
      choose : (o : Option M) → (rebuild_with env d o).1 ≡ none → Moved d (rebuild_with env d o).0
      choose none q' = cc
      choose (some m) q' =
          replayed-Moved d (env.engine.reset_state m)
            (λ e. law.resets m (env.engine.reset_state m).0 (pair e)) has q'
        where
          pair :
              (env.engine.reset_state m).1 ≡ none
              → env.engine.reset_state m ≡ ((env.engine.reset_state m).0, none)
          pair e i = ((env.engine.reset_state m).0, e i)

  synced-Moved :
      (d : Drafter M S C F) (p : Runner C × Result E (List F))
      → d.reference_only ≡ true
      → ((v : List F) → p.1 ≡ good v → Follows law p.0 d.history × Ends law v d.history)
      → (reference_synced env d p).1 ≡ none
      → Moved d (reference_synced env d p).0
  synced-Moved d (r, bad e) mode f q = cc
  synced-Moved d (r, good v) mode f q = record {
    same_mode = refl;
    same_history = refl;
    sound = record {
      in_step =
          subst (Mode law (reference_synced env d (r, good v)).0) (sym mode)
            (r, refl, (f v refl).0);
      aware =
          λ e. subst (λ b. (v ≡ []) ⊎ (v ≡ logits_after law b d.history)) (sym mode) (f v refl).1;
    };
    none_left = λ e. e;
  }

  pub sync-Moved :
      (d : Drafter M S C F)
      → d.reference_only ≡ true
      → (sync_reference_state env d).1 ≡ none
      → Moved d (sync_reference_state env d).0
  unfolding sync_reference_state
  sync-Moved d mode q = choose d.reference q
    where
      choose :
          (o : Option (Runner C)) → (sync_with env d o).1 ≡ none → Moved d (sync_with env d o).0
      choose none q' = cc
      choose (some r) q' =
          synced-Moved d (replay env.backend (reverse d.history) (reset_runner env.backend r) [])
            mode (λ v. replay_all-Follows law d.history r v) q'
