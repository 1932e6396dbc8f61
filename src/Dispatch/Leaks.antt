-- ===== src/Dispatch/Leaks.antt =====
-- Where a failing call keeps slots: their leases and mutexes have no holder any more.
use autoresearch_mlx_go_ane.Prelude.{
  ◌≤◌, ◌<◌, ◌≡◌, refl, ap, ◌∙◌, subst, Bool, true, false, List, [], ◌∷◌, ◌++◌, map, Option, none,
  arith, lt→ltb, length,
}
use autoresearch_mlx_go_ane.Prelude.Modify.{All, All-get}
use autoresearch_mlx_go_ane.Pool.{Pool, Acquired, leased, refused, acquire_slot}
use autoresearch_mlx_go_ane.Pool.Grants.{IsSound, acquire_slot-IsSound}
use autoresearch_mlx_go_ane.Pool.Stall.{
  AllUsed, AllLocked, Steals, acquire_slot_full, stall-AllLocked, acquire_slot-Steals,
}
use autoresearch_mlx_go_ane.Run.{Stage, Run, InputEnv, blocked, begin_leased, begin_prepared_input}
use autoresearch_mlx_go_ane.Run.Output.{View, output_hidden_view}
use autoresearch_mlx_go_ane.Dispatch.{
  Part, Held, DispatchEnv, Step, go, stop, ◌>>=◌, with_stage, part_of, abort_part, begin_all,
  finalize, join_eval, eval_all, join_view, finish, collect_views, dispatch_on,
  dispatch_prepared_stages,
}
use autoresearch_mlx_go_ane.Dispatch.Clean.{IsReady, Runs, Keeps, begin_all-Keeps}

-- The failed evaluation aborts its own run and the later ones, and none before it.
eval_all_fails :
    (hs : List Held) (p : Part) (r : Run) (ts : List Held)
    → All (λ (h : Held). (part_of h).evals ≡ true) hs
    → p.evals ≡ false
    → eval_all (hs ++ (p, r) ∷ ts) ≡ stop (map part_of hs ++ map abort_part ((p, r) ∷ ts))
unfolding eval_all join_eval
eval_all_fails [] p r ts a f = simp f
eval_all_fails ((q, s) ∷ hs) p r ts a f = simp (a.0, eval_all_fails hs p r ts a.1 f)

All-prefix : (P : Held → Type 0) (xs ys : List Held) → All P (xs ++ ys) → All P xs
All-prefix P [] ys a = tt
All-prefix P (x ∷ xs) ys a = (a.0, All-prefix P xs ys a.1)

dispatch_several :
    (env : DispatchEnv) (p₀ p₁ : Part) (ps : List Part)
    → env.evaluates ≡ true
    → dispatch_prepared_stages env (p₀ ∷ p₁ ∷ ps)
      ≡ (begin_all true false (p₀ ∷ p₁ ∷ ps) >>= finish env)
unfolding dispatch_prepared_stages
dispatch_several env p₀ p₁ ps ev =
    ap (λ b. dispatch_on env b (p₀ ∷ p₁ ∷ ps)) (lt→ltb 0 (length (p₁ ∷ ps)) (omega arith))
    ∙ on_true (p₀ ∷ p₁ ∷ ps)
  where
    on_true : (qs : List Part) → dispatch_on env true qs ≡ (begin_all true false qs >>= finish env)
    on_true qs = rw (ev, dispatch_on)

finalize_go :
    (env : DispatchEnv) (hs : List Held)
    → env.syncer ≡ true
    → env.finalizes ≡ true
    → finalize env hs ≡ go hs
unfolding finalize
finalize_go env hs sy fi = ground arith

-- A call for several stages whose starts give `hs` goes on with the evaluations.
dispatch_begun :
    (env : DispatchEnv) (p₀ p₁ : Part) (ps : List Part) (hs : List Held)
    → env.evaluates ≡ true
    → env.syncer ≡ true
    → env.finalizes ≡ true
    → begin_all true false (p₀ ∷ p₁ ∷ ps) ≡ go hs
    → dispatch_prepared_stages env (p₀ ∷ p₁ ∷ ps) ≡ (eval_all hs >>= collect_views)
dispatch_begun env p₀ p₁ ps hs ev sy fi begun =
    dispatch_several env p₀ p₁ ps ev
    ∙ ap (λ (m : Step (List Held)). m >>= finish env) begun
    ∙ ap (λ (m : Step (List Held)). m >>= eval_all >>= collect_views) (finalize_go env hs sy fi)

begun_Runs :
    (p₀ p₁ : Part) (ps : List Part) (hs : List Held)
    → All IsReady (p₀ ∷ p₁ ∷ ps)
    → begin_all true false (p₀ ∷ p₁ ∷ ps) ≡ go hs
    → All Runs hs
begun_Runs p₀ p₁ ps hs ready begun =
    subst (Keeps Runs) begun (begin_all-Keeps true false (p₀ ∷ p₁ ∷ ps) ready)

-- In a call for two or more idle stages, when the shared input evaluates, every start succeeds, the
-- stream is finalized and the evaluations of the first runs succeed, the first failed evaluation
-- makes the call return an error with each earlier stage as its start left it: its slot leased and
-- the slot's mutex locked.
pub dispatch_eval_leaks :
    (env : DispatchEnv) (p₀ p₁ : Part) (ps : List Part) (hs : List Held) (p : Part) (r : Run)
    (ts : List Held)
    → env.evaluates ≡ true
    → env.syncer ≡ true
    → env.finalizes ≡ true
    → All IsReady (p₀ ∷ p₁ ∷ ps)
    → begin_all true false (p₀ ∷ p₁ ∷ ps) ≡ go (hs ++ (p, r) ∷ ts)
    → All (λ (h : Held). (part_of h).evals ≡ true) hs
    → p.evals ≡ false
    → (dispatch_prepared_stages env (p₀ ∷ p₁ ∷ ps)
        ≡ stop (map part_of hs ++ map abort_part ((p, r) ∷ ts)))
      × All Runs hs
dispatch_eval_leaks env p₀ p₁ ps hs p r ts ev sy fi ready begun a f = (
  dispatch_begun env p₀ p₁ ps (hs ++ (p, r) ∷ ts) ev sy fi begun
      ∙ ap (λ (m : Step (List Held)). m >>= collect_views) (eval_all_fails hs p r ts a f),
  All-prefix Runs hs ((p, r) ∷ ts) (begun_Runs p₀ p₁ ps (hs ++ (p, r) ∷ ts) ready begun),
)

eval_all_go :
    (hs : List Held) → All (λ (h : Held). (part_of h).evals ≡ true) hs → eval_all hs ≡ go hs
unfolding eval_all join_eval
eval_all_go [] a = refl
eval_all_go ((p, r) ∷ hs) a = simp (a.0, eval_all_go hs a.1)

collect_views_fails :
    (p : Part) (r : Run) (ts : List Held) (s : Stage)
    → output_hidden_view p.view p.stage r ≡ (s, none)
    → collect_views ((p, r) ∷ ts) ≡ stop (with_stage p s ∷ map part_of ts)
unfolding collect_views join_view
collect_views_fails p r ts s e =
    ap (λ (o : Stage × Option View). join_view p ts o (collect_views ts)) e

-- In a call for two or more idle stages, when the shared input evaluates, every start succeeds, the
-- stream is finalized and every evaluation succeeds, a failure of the first output view makes the
-- call return an error with each later stage still holding its leased slot and the slot's locked
-- mutex.
pub dispatch_view_leaks :
    (env : DispatchEnv) (p₀ p₁ : Part) (ps : List Part) (p : Part) (r : Run) (ts : List Held)
    (s : Stage)
    → env.evaluates ≡ true
    → env.syncer ≡ true
    → env.finalizes ≡ true
    → All IsReady (p₀ ∷ p₁ ∷ ps)
    → begin_all true false (p₀ ∷ p₁ ∷ ps) ≡ go ((p, r) ∷ ts)
    → All (λ (h : Held). (part_of h).evals ≡ true) ((p, r) ∷ ts)
    → output_hidden_view p.view p.stage r ≡ (s, none)
    → (dispatch_prepared_stages env (p₀ ∷ p₁ ∷ ps) ≡ stop (with_stage p s ∷ map part_of ts))
      × All Runs ts
dispatch_view_leaks env p₀ p₁ ps p r ts s ev sy fi ready begun a f = (
  dispatch_begun env p₀ p₁ ps ((p, r) ∷ ts) ev sy fi begun
      ∙ ap (λ (m : Step (List Held)). m >>= collect_views) (eval_all_go ((p, r) ∷ ts) a)
      ∙ collect_views_fails p r ts s f,
  (begun_Runs p₀ p₁ ps ((p, r) ∷ ts) ready begun).1,
)

begin_leased_blocked :
    (env : InputEnv) (m single : Bool) (s : Stage) (r : Pool × Acquired)
    → IsSound r
    → AllLocked r.0
    → Steals (env.others s.pool) r.1
    → (begin_leased env m single s r).1 ≡ blocked
unfolding begin_leased
begin_leased_blocked env m single s (q, refused e) g a st = cc st.got
begin_leased_blocked env m single s (q, leased l) g a st =
    let locked : g.held.locked ≡ true = All-get _ q.slots l.slot a g.found in rw (g.found, locked)

-- On a stage at its depth with at least one slot, all of them leased and locked, when waiting for
-- the device succeeds and no other goroutine changes the pool meanwhile, the next start waits for
-- the mutex of a slot.
pub begin_leaked_blocks :
    (env : InputEnv) (m single : Bool) (s : Stage)
    → env.pool_env.synchronizes ≡ true
    → env.others s.pool ≡ s.pool
    → 0 < length s.pool.slots
    → s.pool.pool_depth ≤ length s.pool.slots
    → AllUsed s.pool
    → AllLocked s.pool
    → (begin_prepared_input env m single s).1 ≡ blocked
unfolding begin_prepared_input
begin_leaked_blocks env m single s sync same some_slot full used locked =
    begin_leased_blocked env m single s (acquire_slot env.pool_env env.others s.pool)
      (acquire_slot-IsSound env.pool_env env.others s.pool)
      (rw (acquire_slot_full env.pool_env env.others s.pool full used)
        (stall-AllLocked env.pool_env (env.others s.pool) (rw same locked)))
      (acquire_slot-Steals env.pool_env env.others s.pool sync full used (rw same some_slot)
        (rw same used))
