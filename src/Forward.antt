-- ===== src/Forward.antt =====
-- decode/dispatch.go, forwardFromEmbeddingsWithHook: the layers of one token, and the head.
-- A layer is its `LayerEnv`; `caches` gives each layer's cache, and `direct` is directBlockOutput:
-- it may change caches whether it handles the layers or not.
pub mod Views
pub mod Chain
pub mod Tests
use autoresearch_mlx_go_ane.Prelude.{
  ℕ, zero, suc, ◌+◌, ◌-◌, Bool, true, false, not, ◌&&◌, ◌||◌, List, [], ◌∷◌, ◌++◌, Option, none,
  some, ◌==◌, if◌then◌else◌,
}
use autoresearch_mlx_go_ane.Layer.{
  Result, good, bad, LayerEnv, Outcome, gives, fails, Layered, layer_forward, is_some,
}

-- A direct block that handled its layers: the output, its views, and the last of the layers.
pub record Block (A V : Type 0) : Type 0 where
  pub out : A
  pub views : List V
  pub last_layer : ℕ

pub record ForwardEnv (A E V C : Type 0) : Type 0 where
  pub shape_is_step : Bool
  pub gpu_fallback : Bool
  pub has_hook : Bool
  pub cast_embeddings : A → Result E A
  pub direct : ℕ → A → (ℕ → C) → (ℕ → C) × Option (Block A V)
  pub final_norm : A → Result E A
  pub lm_head : Option A
  pub embed_weight : Result E A
  pub transpose : A → Result E A
  pub matmul : A → A → Result E A
  pub eval_logits : A → Option E
  pub synchronize : Option E

-- The loop's variables. `lent` is `releases`, and `released` the views that a failing layer gave back.
pub record Walk (A E V C : Type 0) : Type 0 where
  pub h : A
  pub prepared_norm : Option A
  pub lent : List V
  pub released : List V
  pub disabled : Option E
  pub caches : ℕ → C

pub record Walked (A E V C : Type 0) : Type 0 where
  pub walk : Walk A E V C
  pub error : Option E

pub data Forwarded (A E : Type 0) : Type 0 where
  base_model : Forwarded A E
  logits : A → Forwarded A E
  failed : E → Forwarded A E

pub record Pass (A E V C : Type 0) : Type 0 where
  pub outcome : Forwarded A E
  pub walk : Walk A E V C
  pub released : List V

module _ {C : Type 0} where
  abbrev pub store : (ℕ → C) → ℕ → C → ℕ → C
  store caches i c j = if i == j then c else caches j

module _ {A E V C : Type 0} where
  abbrev pub after_layer : Walk A E V C → ℕ → Layered A E V C → Outcome A E V → Walked A E V C
  after_layer w i l (gives out next views) = record {
    walk = record {
      h = out;
      prepared_norm = next;
      lent = w.lent ++ views;
      released = w.released ++ l.released;
      disabled = l.disabled;
      caches = store w.caches i l.cache;
    };
    error = none;
  }
  after_layer w i l (fails e) = record {
    walk = record w {
      released = w.released ++ l.released;
      disabled = l.disabled;
      caches = store w.caches i l.cache;
    };
    error = some e;
  }

  abbrev pub one_layer : Bool → LayerEnv A E V C → ℕ → Walk A E V C → Walked A E V C
  one_layer gpu env i w =
      let l = layer_forward env gpu w.disabled (w.caches i) w.h w.prepared_norm in
      after_layer w i l l.outcome

  abbrev pub after_block : Walk A E V C → Block A V → Walk A E V C
  after_block w b = record w { h = b.out; prepared_norm = none; lent = w.lent ++ b.views }

module _ {A E V C : Type 0} (env : ForwardEnv A E V C) where
  -- What `directBlockOutput` answers at layer `i`; with a hook it is not asked.
  abbrev pub ask_direct : ℕ → Walk A E V C → (ℕ → C) × Option (Block A V)
  ask_direct i w = if env.has_hook then (w.caches, none) else env.direct i w.h w.caches

  -- `rest` is the loop from the next layer on, with the number of layers to pass over.
  abbrev pub next_layers :
      (ℕ → Walk A E V C → Walked A E V C) → Walked A E V C → Option E → Walked A E V C
  next_layers rest w none = rest 0 w.walk
  next_layers rest w (some e) = w

  abbrev pub layer_then : (ℕ → Walk A E V C → Walked A E V C) → Walked A E V C → Walked A E V C
  layer_then rest w = next_layers rest w w.error

  abbrev pub block_or_layer :
      LayerEnv A E V C
      → ℕ
      → Walk A E V C
      → (ℕ → Walk A E V C → Walked A E V C)
      → (ℕ → C) × Option (Block A V)
      → Walked A E V C
  block_or_layer l i w rest (caches, some b) =
      rest (b.last_layer - i) (after_block (record w { caches = caches }) b)
  block_or_layer l i w rest (caches, none) =
      layer_then rest (one_layer env.gpu_fallback l i (record w { caches = caches }))

  -- From layer `i` on; the first `skip` of the layers are part of a direct block that has run.
  unfoldable pub layers_from : List (LayerEnv A E V C) → ℕ → ℕ → Walk A E V C → Walked A E V C
  layers_from [] i skip w = record { walk = w; error = none }
  layers_from (l ∷ ls) i (suc skip) w = layers_from ls (suc i) skip w
  layers_from (l ∷ ls) i zero w = block_or_layer l i w (layers_from ls (suc i)) (ask_direct i w)

  -- Final norm and LM head, with the embedding weight where there is no head of its own.
  abbrev pub head_weight : Option A → Result E A
  head_weight (some w) = good w
  head_weight none = env.embed_weight

  abbrev pub evaluated : A → Option E → Option E → Forwarded A E
  evaluated r none none = logits r
  evaluated r none (some e) = failed e
  evaluated r (some e) s = failed e

  abbrev pub projected : Result E A → Forwarded A E
  projected (bad e) = failed e
  projected (good r) =
      if env.gpu_fallback then logits r else evaluated r (env.eval_logits r) env.synchronize

  abbrev pub transposed : A → Result E A → Forwarded A E
  transposed out (bad e) = failed e
  transposed out (good t) = projected (env.matmul out t)

  abbrev pub weighted : A → Result E A → Forwarded A E
  weighted out (bad e) = failed e
  weighted out (good w) = transposed out (env.transpose w)

  abbrev pub headed : Result E A → Forwarded A E
  headed (bad e) = failed e
  headed (good out) = weighted out (head_weight env.lm_head)

  abbrev pub after_walk : Walked A E V C → Option E → Forwarded A E
  after_walk w (some e) = failed e
  after_walk w none = headed (env.final_norm w.walk.h)

  abbrev pub start_walk : A → Option E → (ℕ → C) → Walk A E V C
  start_walk h d caches = record {
    h = h;
    prepared_norm = none;
    lent = [];
    released = [];
    disabled = d;
    caches = caches;
  }

  -- defer releaseOutputViews(releases): the argument is evaluated where the statement stands,
  -- before the loop, when `releases` is still nil.
  abbrev pub deferred : List V
  deferred = []

  abbrev pub walked_pass : Walked A E V C → Pass A E V C
  walked_pass w = record {
    outcome = after_walk w w.error;
    walk = w.walk;
    released = w.walk.released ++ deferred;
  }

  abbrev pub cast_pass :
      List (LayerEnv A E V C) → Option E → (ℕ → C) → A → Result E A → Pass A E V C
  cast_pass ls d caches x (bad e) = record {
    outcome = failed e;
    walk = start_walk x d caches;
    released = deferred;
  }
  cast_pass ls d caches x (good h) = walked_pass (layers_from ls 0 0 (start_walk h d caches))

  -- useDecodePlane: a plane in service, or in `gpu_fallback` mode, on one token of one sequence.
  unfoldable pub use_decode_plane : Option E → Bool
  use_decode_plane d = if is_some d && not env.gpu_fallback then false else env.shape_is_step

  unfoldable pub forward_from_embeddings :
      List (LayerEnv A E V C) → Option E → (ℕ → C) → A → Pass A E V C
  forward_from_embeddings ls d caches x =
      if use_decode_plane d
      then cast_pass ls d caches x (env.cast_embeddings x)
      else record { outcome = base_model; walk = start_walk x d caches; released = [] }
