-- ===== src/Stages/Tests.antt =====
-- decode/stages.go: two callers ask for layer 5, one builds and the other waits.
use native.Mathlib.Decide.{ℕ_discrete}
use autoresearch_mlx_go_ane.Prelude.{ℕ, ◌+◌, ◌==◌, ◌≡◌, refl, Option}
use autoresearch_mlx_go_ane.Stages.{Built, built, failed, enter, leave}
use autoresearch_mlx_go_ane.Stages.Pc.{looking, returned}
use autoresearch_mlx_go_ane.Stages.Cells.{answer}
use autoresearch_mlx_go_ane.Stages.System.{
  System, init, at, Reach, call, look, finish, start, later,
}
use autoresearch_mlx_go_ane.Stages.Refinement.{Settles, Implements, Reach-Implements, Step-refines}
use autoresearch_mlx_go_ane.Stages.Callers.{StageKey, StageKey_discrete, Caches, Builders}
use autoresearch_mlx_go_ane.Stages.Invariant.{Reach-IsConsistent}
use autoresearch_mlx_go_ane.Stages.Once.{IsSoundAll}
use autoresearch_mlx_go_ane.Stages.Safety.{here, woken_returns}

abbrev Layers : Type 0
Layers = System ℕ ℕ ℕ

abbrev looked : Layers → ℕ → Layers
looked s i = record {
  cache = (enter ℕ_discrete s.cache 5).0;
  pc = at s.pc i (enter ℕ_discrete s.cache 5).1;
}

abbrev called : Layers
called = record init { pc = at init.pc 0 (looking 5) }

abbrev opened : Layers
opened = looked called 0

abbrev called_twice : Layers
called_twice = record opened { pc = at opened.pc 1 (looking 5) }

abbrev joined : Layers
joined = looked called_twice 1

abbrev finished : Layers
finished = record {
  cache = leave ℕ_discrete joined.cache 5 0 (built 9);
  pc = at joined.pc 0 (returned 5 (built 9));
}

joined-Reach : Reach ℕ_discrete joined
joined-Reach =
    later (later (later (later start (call 0 5 refl)) (look 0 5 refl)) (call 1 5 refl))
      (look 1 5 refl)

finished-Reach : Reach ℕ_discrete finished
finished-Reach = later joined-Reach (finish 0 5 0 (built 9) refl)

woken_returns_example :
    (b : Built ℕ ℕ) × (enter ℕ_discrete finished.cache 5 ≡ (finished.cache, returned 5 b))
unfolding leave ℕ_discrete
woken_returns_example = woken_returns ℕ_discrete {i = 1} {ch = 0} finished-Reach refl refl here

Step-refines_example :
    (a : ℕ → Option (Built ℕ ℕ)) × Settles ℕ_discrete (answer joined.cache) a
    × Implements ℕ_discrete finished a
Step-refines_example =
    Step-refines ℕ_discrete joined-Reach (finish 0 5 0 (built 9) refl)
      (Reach-Implements ℕ_discrete joined-Reach)

abbrev Layers_init : Layers
Layers_init = init

abbrev Experts_init : System StageKey ℕ ℕ
Experts_init = init

abbrev empty_caches : Caches ℕ ℕ ℕ
empty_caches = record {
  dense = Layers_init.cache;
  shared = Layers_init.cache;
  experts = Experts_init.cache;
  direct = Layers_init.cache;
  direct_spans = λ l. l == 0;
}

empty_caches-IsSoundAll : IsSoundAll empty_caches
empty_caches-IsSoundAll = record {
  dense = (Reach-IsConsistent ℕ_discrete start).sound;
  shared = (Reach-IsConsistent ℕ_discrete start).sound;
  experts = (Reach-IsConsistent StageKey_discrete start).sound;
  direct = (Reach-IsConsistent ℕ_discrete start).sound;
}

abbrev doubling : Builders ℕ ℕ ℕ
doubling = record {
  dense = λ l. built (l + l);
  shared = λ l. failed l;
  expert = λ l e. built (l + e);
  direct = λ l. built l;
}

abbrev failing : Builders ℕ ℕ ℕ
failing = record {
  dense = λ l. failed l;
  shared = λ l. failed l;
  expert = λ l e. failed e;
  direct = λ l. failed l;
}
