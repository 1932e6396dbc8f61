-- ===== src/Drafter/Shorter.antt =====
-- anedraftimpl/ane_draft_darwin.go: Rewind.
use autoresearch_mlx_go_ane.Prelude.{
  ℕ, zero, suc, ◌+◌, ◌≤◌, ◌≡◌, refl, ◌∙◌, subst, sym, Bool, true, false, List, [], none,
  if◌then◌else◌, length, drop, leb, leb→le, arith,
}
use autoresearch_mlx_go_ane.Drafter.State.{Setup, Drafter}
use autoresearch_mlx_go_ane.Drafter.Calls.{rewind_drafter}
use autoresearch_mlx_go_ane.Drafter.Contract.{Contract, Mode, IsSound}
use autoresearch_mlx_go_ane.Drafter.Replay.{drop-all}
use autoresearch_mlx_go_ane.Drafter.Snapshots.{Covers}
use autoresearch_mlx_go_ane.Drafter.Restores.{rewind_by-Moved}

module _ {M S X C E F : Type 0} {env : Setup M S X C E F} (law : Contract env) where
  -- A drafter that has lost the newest `n` tokens of its history, and is sound.
  pub record Shortened (d : Drafter M S C F) (n : ℕ) (d' : Drafter M S C F) : Type 0 where
    pub same_mode : d'.reference_only ≡ d.reference_only
    pub shorter : d'.history ≡ drop n d.history
    pub sound : IsSound law d'
    pub none_left : d.model_snapshots ≡ [] → d'.model_snapshots ≡ []

  capped_drop :
      (n : ℕ) (h : List ℕ) (b : Bool)
      → leb (length h) n ≡ b
      → drop n h ≡ drop (if b then length h else n) h
  capped_drop n h true e = drop-all n h (leb→le _ _ e) ∙ sym (drop-all (length h) h (omega arith))
  capped_drop n h false e = refl

  capped_le : (n k c : ℕ) (b : Bool) → n ≤ c → leb k n ≡ b → (if b then k else n) ≤ c
  capped_le n k c true h e = omega (arith, leb→le k n e)
  capped_le n k c false h e = h

  -- Where the operations keep their contract: a Rewind of `n` tokens that has nothing to log, on a
  -- sound drafter whose newest `k` snapshots are right, with `n` at most `k`, leaves a sound
  -- drafter in the same mode without the newest `n` tokens of the history, or with none when there
  -- are fewer, whether by a snapshot, by the model's own rewind, by trimming or replaying the
  -- reference, or by rebuilding everything after one of these failed; and with no snapshots if
  -- there were none.
  pub rewind-Shortened :
      (d : Drafter M S C F) (n k : ℕ)
      → n ≤ k
      → IsSound law d
      → (d.reference_only ≡ false → Covers law k d.model_snapshots d.history)
      → (rewind_drafter env d n).1 ≡ none
      → Shortened d n (rewind_drafter env d n).0
  unfolding rewind_drafter
  rewind-Shortened d zero k b v cover q = record {
    same_mode = refl;
    shorter = refl;
    sound = v;
    none_left = λ e. e;
  }
  rewind-Shortened d (suc n) k b v cover q =
      let c = if leb (length d.history) (suc n) then length d.history else suc n in
      let d₁ : Drafter M S C F = record d {
        rewound_count = d.rewound_count + suc n;
        history = drop (suc n) d.history;
        last_logits = [];
      } in
      let moved =
        rewind_by-Moved law d₁ c k d.history (capped_le (suc n) (length d.history) k _ b refl)
          (record {
            shorter = capped_drop (suc n) d.history _ refl;
            no_logits = refl;
            reference_side = λ e. subst (Mode law d) e v.in_step;
          })
          (λ e. subst (Mode law d) e v.in_step) cover q in
      record {
        same_mode = moved.same_mode;
        shorter = moved.same_history;
        sound = moved.sound;
        none_left = moved.none_left;
      }
