-- ===== src/Stages/Callers.antt =====
-- decode/stages.go: the four callers of the caches, each as one call that no other goroutine is
-- in the middle of: `denseStage`, `sharedStage`, `expertStage` and `getDirectBlock`.
-- `build` is the platform's builder of the key; a call that finds a build in progress waits.
use native.Mathlib.Decide.{ℕ_discrete}
use autoresearch_mlx_go_ane.Prelude.{ℕ, ◌≡◌, ap, ◌⊎◌, inl, inr, Bool, true, false}
use autoresearch_mlx_go_ane.Stages.{Built, Cache, Pc, enter, leave}
use autoresearch_mlx_go_ane.Stages.Pc.{idle, looking, waiting, building, returned}

pub record StageKey : Type 0 where
  pub layer : ℕ
  pub expert : ℕ

pub StageKey_eq : (a b : StageKey) → a.layer ≡ b.layer → a.expert ≡ b.expert → a ≡ b
StageKey_eq a b e f = cc

unfoldable pub StageKey_discrete : Discrete StageKey
StageKey_discrete a b = elim (ℕ_discrete a.layer b.layer) [
  | no h ↦ no (λ e. h (ap (λ k. k.layer) e))
  | yes e ↦ elim (ℕ_discrete a.expert b.expert) [
    | no h ↦ no (λ q. h (ap (λ k. k.expert) q))
    | yes f ↦ yes (StageKey_eq a b e f)
  ]
]

-- What a call gives back: an answer, or it is left waiting for the build of another goroutine.
pub data Outcome (S E : Type 0) : Type 0 where
  answered : Built S E → Outcome S E
  blocked : ℕ → Outcome S E

module _ {K S E : Type 0} (dec : Discrete K) where
  -- From the way out of the first critical section to the return.
  abbrev pub complete : (K → Built S E) → Cache K S E × Pc K S E → Cache K S E × Outcome S E
  complete build (c, returned k b) = (c, answered b)
  complete build (c, waiting k ch) = (c, blocked ch)
  complete build (c, building k ch) = (leave dec c k ch (build k), answered (build k))
  complete build (c, looking k) = (c, blocked 0)
  complete build (c, idle) = (c, blocked 0)

  unfoldable pub acquire : Cache K S E → (K → Built S E) → K → Cache K S E × Outcome S E
  acquire c build k = complete build (enter dec c k)

-- The maps of `Plane` that the four callers use, and the layers at the start of a direct span.
pub record Caches (S B E : Type 0) : Type 0 where
  pub dense : Cache ℕ S E
  pub shared : Cache ℕ S E
  pub experts : Cache StageKey S E
  pub direct : Cache ℕ B E
  pub direct_spans : ℕ → Bool

pub data DirectError (E : Type 0) : Type 0 where
  not_supported : ℕ → DirectError E

module _ {S B E : Type 0} where
  unfoldable pub dense_stage : Caches S B E → (ℕ → Built S E) → ℕ → Caches S B E × Outcome S E
  dense_stage p build layer =
      let (c, r) = acquire ℕ_discrete p.dense build layer in (record p { dense = c }, r)

  unfoldable pub shared_stage : Caches S B E → (ℕ → Built S E) → ℕ → Caches S B E × Outcome S E
  shared_stage p build layer =
      let (c, r) = acquire ℕ_discrete p.shared build layer in (record p { shared = c }, r)

  unfoldable pub expert_stage :
      Caches S B E → (ℕ → ℕ → Built S E) → ℕ → ℕ → Caches S B E × Outcome S E
  expert_stage p build layer expert =
      let (c, r) =
        acquire StageKey_discrete p.experts (λ k. build k.layer k.expert)
          (record { layer = layer; expert = expert }) in
      (record p { experts = c }, r)

  -- A layer that starts no span is refused before the cache is read.
  abbrev pub get_supported :
      Bool → Caches S B E → (ℕ → Built B E) → ℕ → Caches S B E × (DirectError E ⊎ Outcome B E)
  get_supported false p build layer = (p, inl (not_supported layer))
  get_supported true p build layer =
      let (c, r) = acquire ℕ_discrete p.direct build layer in (record p { direct = c }, inr r)

  unfoldable pub get_direct_block :
      Caches S B E → (ℕ → Built B E) → ℕ → Caches S B E × (DirectError E ⊎ Outcome B E)
  get_direct_block p build layer = get_supported (p.direct_spans layer) p build layer

module _ {S E : Type 0} where
  abbrev pub IsFinal : Outcome S E → Type 0
  IsFinal (answered b) = Unit
  IsFinal (blocked ch) = ⊥

-- One of the four calls, with the builders it may use, and what it gives back.
pub data Call : Type 0 where
  for_dense for_shared for_direct : ℕ → Call
  for_expert : ℕ → ℕ → Call

pub record Builders (S B E : Type 0) : Type 0 where
  pub dense : ℕ → Built S E
  pub shared : ℕ → Built S E
  pub expert : ℕ → ℕ → Built S E
  pub direct : ℕ → Built B E

pub data Reply (S B E : Type 0) : Type 0 where
  stage : Outcome S E → Reply S B E
  block : DirectError E ⊎ Outcome B E → Reply S B E

module _ {S B E : Type 0} where
  unfoldable pub serve : Caches S B E → Builders S B E → Call → Caches S B E × Reply S B E
  serve p b (for_dense l) = let (q, r) = dense_stage p b.dense l in (q, stage r)
  serve p b (for_shared l) = let (q, r) = shared_stage p b.shared l in (q, stage r)
  serve p b (for_expert l e) = let (q, r) = expert_stage p b.expert l e in (q, stage r)
  serve p b (for_direct l) = let (q, r) = get_direct_block p b.direct l in (q, block r)

  -- The call is over: it was answered or refused, and does not wait for another goroutine.
  unfoldable pub IsOver : Reply S B E → Type 0
  IsOver (stage o) = IsFinal o
  IsOver (block (inl e)) = Unit
  IsOver (block (inr o)) = IsFinal o
