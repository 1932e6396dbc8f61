-- ===== src/Drafter/Guard.antt =====
-- anedraftimpl/ane_draft_darwin.go: maybeEnableReferenceOnly.
use autoresearch_mlx_go_ane.Prelude.{
  ◌≡◌, refl, subst, sym, Bool, true, false, List, [], Option, none, some, ◌&&◌, if◌then◌else◌,
  arith,
}
use mathlib.Core.List.{reverse}
use autoresearch_mlx_go_ane.Layer.{Result, good, bad}
use autoresearch_mlx_go_ane.Drafter.Runner.{Runner, reset_runner, replay}
use autoresearch_mlx_go_ane.Drafter.State.{Setup, Drafter}
use autoresearch_mlx_go_ane.Drafter.Feed.{reference_synced, sync_with, sync_reference_state}
use autoresearch_mlx_go_ane.Drafter.Contract.{Contract, Follows, Mode, IsSound}
use autoresearch_mlx_go_ane.Drafter.Calls.{
  switched, is_off_course, has_guard, maybe_enable_reference_only,
}
use autoresearch_mlx_go_ane.Drafter.Replay.{Ends, replay_all-Follows}
use autoresearch_mlx_go_ane.Drafter.Rebuild.{synced-IsSound}

module _ {M S X C E F : Type 0} {env : Setup M S X C E F} (law : Contract env) where
  -- The guard changes the mode at most, and only to a reference that is in step.
  pub record Guarded (d d' : Drafter M S C F) : Type 0 where
    pub same_history : d'.history ≡ d.history
    pub sound : IsSound law d'
    pub same_snapshots : d'.model_snapshots ≡ d.model_snapshots
    pub same_model : d'.model ≡ d.model

  with_reference :
      (d : Drafter M S C F) (r : Runner C)
      → d.reference_only ≡ false
      → IsSound law d
      → IsSound law (record d { reference = some r })
  with_reference d r mode k = record {
    in_step =
        subst (Mode law (record d { reference = some r })) (sym mode)
          (subst (Mode law d) mode k.in_step);
    aware = k.aware;
  }

  switched-Guarded :
      (d : Drafter M S C F) (o : Option (Runner C))
      → d.reference_only ≡ false
      → IsSound law d
      → Guarded d (switched env (sync_with env d o))
  switched-Guarded d none mode k = record {
    same_history = refl;
    sound = k;
    same_snapshots = refl;
    same_model = refl;
  }
  switched-Guarded d (some r) mode k =
      choose (replay env.backend (reverse d.history) (reset_runner env.backend r) [])
        (λ v. replay_all-Follows law d.history r v)
    where
      choose :
          (p : Runner C × Result E (List F))
          → ((v : List F) → p.1 ≡ good v → Follows law p.0 d.history × Ends law v d.history)
          → Guarded d (switched env (reference_synced env d p))
      choose (r', bad e) f = record {
        same_history = refl;
        sound = with_reference d r' mode k;
        same_snapshots = refl;
        same_model = refl;
      }
      choose (r', good v) f = record {
        same_history = refl;
        sound = synced-IsSound law d (r', good v) f refl;
        same_snapshots = refl;
        same_model = refl;
      }

  pub maybe_enable-Guarded :
      (d : Drafter M S C F) → IsSound law d → Guarded d (maybe_enable_reference_only env d)
  unfolding maybe_enable_reference_only sync_reference_state
  maybe_enable-Guarded d k = choose (has_guard env d && is_off_course env d) refl
    where
      choose :
          (b : Bool)
          → (has_guard env d && is_off_course env d) ≡ b
          → Guarded d (if b then switched env (sync_with env d d.reference) else d)
      choose false e = record {
        same_history = refl;
        sound = k;
        same_snapshots = refl;
        same_model = refl;
      }
      choose true e = switched-Guarded d d.reference (ground arith) k
