-- ===== src/Stages/Refinement.antt =====
-- decode/stages.go: a cache of builds against its abstract view, a map whose entries are set once.
use autoresearch_mlx_go_ane.Prelude.{ℕ, ◌≡◌, refl, sym, subst, fun_ext, Option, none, some}
use autoresearch_mlx_go_ane.Stages.{Built, Cache, Pc, put}
use autoresearch_mlx_go_ane.Stages.Pc.{returned}
use autoresearch_mlx_go_ane.Stages.Cells.{
  answer, Entered, found, joined, opened, enter-Entered, leave-answer,
}
use autoresearch_mlx_go_ane.Stages.Fits.{Fits}
use autoresearch_mlx_go_ane.Stages.System.{System, Step, Reach, call, look, wake, finish, later}
use autoresearch_mlx_go_ane.Stages.Invariant.{IsConsistent, Reach-IsConsistent, building-pending}

module _ {K S E : Type 0} (dec : Discrete K) where
  -- The abstract view: nothing changes, or a key that has no answer gets one.
  pub data Settles (a : K → Option (Built S E)) : (K → Option (Built S E)) → Type 0 where
    stutter : Settles a a
    settle : (k : K) (b : Built S E) → a k ≡ none → Settles a (put dec a k (some b))

  -- What a goroutine has returned is the entry of its key.
  pub record Implements (s : System K S E) (a : K → Option (Built S E)) : Type 0 where
    pub view : answer s.cache ≡ a
    pub returns : (i : ℕ) (k : K) (b : Built S E) → s.pc i ≡ returned k b → a k ≡ some b

  pub Entered-answer :
      {c : Cache K S E} (k : K) {r : Cache K S E × Pc K S E}
      → Entered dec c k r
      → answer r.0 ≡ answer c
  unfolding answer
  Entered-answer k (found b a) = refl
  Entered-answer k (joined ch a) = refl
  Entered-answer k (opened free empty) = refl

  Step-Settles :
      {s t : System K S E}
      → IsConsistent s
      → Step dec s t
      → Settles (answer s.cache) (answer t.cache)
  unfolding answer
  Step-Settles h (call i k e) = stutter
  Step-Settles {s} h (look i k e) =
      subst (Settles (answer s.cache)) (sym (Entered-answer k (enter-Entered dec s.cache k)))
        stutter
  Step-Settles h (wake i k ch e f) = stutter
  Step-Settles {s} h (finish i k ch b e) =
      let empty : answer s.cache k ≡ none =
        h.sound.unset k ch (building-pending s.cache k ch e (h.fits i)) in
      subst (Settles (answer s.cache))
        (sym (fun_ext (λ j. leave-answer dec s.cache k ch b j empty))) (settle k b empty)

  consistent_returns :
      {s : System K S E} (i : ℕ) (k : K) (b : Built S E)
      → IsConsistent s
      → s.pc i ≡ returned k b
      → answer s.cache k ≡ some b
  unfolding Fits
  consistent_returns {s} i k b h e = subst (Fits s.cache) e (h.fits i)

  pub Reach-Implements : {s : System K S E} → Reach dec s → Implements s (answer s.cache)
  Reach-Implements r = record {
    view = refl;
    returns = λ i k b e. consistent_returns i k b (Reach-IsConsistent dec r) e;
  }

  -- Whatever order goroutines take in the loop of one cache, and whatever their builds answer, each
  -- step from a reachable state leaves an abstract map of answers as it is or gives one key without
  -- an answer its answer; after it the cache still shows that map, and every goroutine that has
  -- returned holds the map's entry of its key.
  pub Step-refines :
      {s t : System K S E} {a : K → Option (Built S E)}
      → Reach dec s
      → Step dec s t
      → Implements s a
      → (a' : K → Option (Built S E)) × Settles a a' × Implements t a'
  Step-refines {s} {t} r st m =
      let h : IsConsistent s = Reach-IsConsistent dec r in
      (
        answer t.cache,
        subst (λ x. Settles x (answer t.cache)) m.view (Step-Settles h st),
        Reach-Implements (later r st),
      )
