-- ===== src/Layer.antt =====
-- decode/dispatch.go, layerForward: one transformer layer on the decode plane.
-- `A` is the type of arrays, `E` of errors, `V` of output views, `C` what the key and value cache
-- of the layer holds. What MLX, the model and the stages answer is a field of `LayerEnv`.
pub mod Paths
pub mod Reference
pub mod NextNorm
pub mod Disable
pub mod Views
pub mod Total
pub mod Tests
use autoresearch_mlx_go_ane.Prelude.{
  Bool, true, false, ◌||◌, List, [], Option, none, some, if◌then◌else◌,
}

pub data Result (E A : Type 0) : Type 0 where
  good : A → Result E A
  bad : E → Result E A

-- A fused routine: it fails, or leaves the work to the next routine, or has done it. The source
-- returns `handled` beside an error.
pub data Fused (E A : Type 0) : Type 0 where
  broke : E → Fused E A
  skipped : Fused E A
  handled : A → Fused E A

-- What the weights, the model, MLX and the stages answer for this layer. `prepare` has no answer
-- when no prepare function was compiled, when it fails, and when it gives too few outputs;
-- `dense_stage` is the error of building the stage, if there is one.
pub record LayerEnv (A E V C : Type 0) : Type 0 where
  pub input_norm : A → Result E A
  pub attention : C → A → Result E A × C
  pub add : A → A → Result E A
  pub post_norm : A → Result E A
  pub fallback_mlp : A → Result E A
  pub is_moe : Bool
  pub dense_stage : Option E
  pub prepare : A → A → Option (A × A)
  pub dense_output_prepared : A → Result E (A × List V)
  pub dense_output_from_inputs : A → A → Fused E (A × A × List V)
  pub dense_output_from_residual : A → Fused E (A × List V)
  pub dense_output : A → Result E (A × List V)
  pub moe_output : A → Result E (A × List V)
  pub residual_norm : A → A → Fused E A
  pub residual_add : A → A → Fused E A
  pub same_dtype : A → A → Bool
  pub cast : A → A → Result E A

-- Where the feed-forward part ends: at the label `postFFN`, in the error fallback with what was
-- computed so far and `err`, or with a return.
pub data Ffn (A E V : Type 0) : Type 0 where
  done : A → A → List V → Ffn A E V
  broken : Option A → Option A → E → Ffn A E V
  returns : E → Ffn A E V

pub data Outcome (A E V : Type 0) : Type 0 where
  gives : A → Option A → List V → Outcome A E V
  fails : E → Outcome A E V

-- A layer's return, the error that the plane is disabled by, the views that were released on the
-- way, and the cache after the layer.
pub record Layered (A E V C : Type 0) : Type 0 where
  pub outcome : Outcome A E V
  pub disabled : Option E
  pub released : List V
  pub cache : C

module _ {B : Type 0} where
  abbrev pub is_some : Option B → Bool
  is_some none = false
  is_some (some b) = true

-- p.disable(err): nothing for a nil error, and the first error stays.
module _ {E : Type 0} where
  abbrev pub disable : Option E → Option E → Option E
  disable d none = d
  disable (some d) (some e) = some d
  disable none (some e) = some e

module _ {A E V C : Type 0} (env : LayerEnv A E V C) where
  -- Standard path: explicit norm, then dispatch.
  abbrev pub dispatch_normed : A → A → Result E (A × List V) → Ffn A E V
  dispatch_normed h n (good (out, views)) = done h out views
  dispatch_normed h n (bad e) = broken (some h) (some n) e

  abbrev pub standard_normed : A → Result E A → Ffn A E V
  standard_normed h (good n) = dispatch_normed h n (env.dense_output n)
  standard_normed h (bad e) = returns e

  abbrev pub from_residual : A → Fused E (A × List V) → Ffn A E V
  from_residual h (broke e) = broken (some h) none e
  from_residual h (handled (out, views)) = done h out views
  from_residual h skipped = standard_normed h (env.post_norm h)

  abbrev pub norm_only : Result E A → Ffn A E V
  norm_only (good h) = from_residual h (env.dense_output_from_residual h)
  norm_only (bad e) = returns e

  -- The error of a fused routine leaves `h` nil, as the routine returned it.
  abbrev pub from_inputs : A → A → Fused E (A × A × List V) → Ffn A E V
  from_inputs x attn (broke e) = broken none none e
  from_inputs x attn (handled (h, out, views)) = done h out views
  from_inputs x attn skipped = norm_only (env.add x attn)

  abbrev pub prepared : A → A → A → Result E (A × List V) → Ffn A E V
  prepared x attn h (good (out, views)) = done h out views
  prepared x attn h (bad e) = from_inputs x attn (env.dense_output_from_inputs x attn)

  abbrev pub try_prepared : A → A → Option (A × A) → Ffn A E V
  try_prepared x attn (some (h, packed)) = prepared x attn h (env.dense_output_prepared packed)
  try_prepared x attn none = from_inputs x attn (env.dense_output_from_inputs x attn)

  abbrev pub dense_ffn : A → A → Option E → Ffn A E V
  dense_ffn x attn (some e) = broken none none e
  dense_ffn x attn none = try_prepared x attn (env.prepare x attn)

  abbrev pub moe_normed : A → Result E A → Ffn A E V
  moe_normed h (good n) = dispatch_normed h n (env.moe_output n)
  moe_normed h (bad e) = returns e

  abbrev pub moe_ffn : Result E A → Ffn A E V
  moe_ffn (good h) = moe_normed h (env.post_norm h)
  moe_ffn (bad e) = returns e

  unfoldable pub ffn : A → A → Ffn A E V
  ffn x attn = if env.is_moe then moe_ffn (env.add x attn) else dense_ffn x attn env.dense_stage

  -- The end of both paths on the GPU: the MLP and the residual add.
  abbrev pub add_mlp : A → Result E A → Outcome A E V
  add_mlp h (bad e) = fails e
  add_mlp h (good m) = elim (env.add h m) [ good out ↦ gives out none [] | bad e ↦ fails e ]

  -- Error fallback. A value that has to be computed first overwrites `err`, with nil if it succeeds.
  abbrev pub fallback_normed : Option E → C → A → Option E → Result E A → Layered A E V C
  fallback_normed d c h err (bad e) = record {
    outcome = fails e;
    disabled = d;
    released = [];
    cache = c;
  }
  fallback_normed d c h err (good n) = record {
    outcome = add_mlp h (env.fallback_mlp n);
    disabled = disable d err;
    released = [];
    cache = c;
  }

  abbrev pub fallback_norm : Option E → C → A → Option A → Option E → Layered A E V C
  fallback_norm d c h (some n) err = fallback_normed d c h err (good n)
  fallback_norm d c h none err = fallback_normed d c h none (env.post_norm h)

  abbrev pub fallback_added : Option E → C → Option A → Result E A → Layered A E V C
  fallback_added d c n (bad e) = record {
    outcome = fails e;
    disabled = d;
    released = [];
    cache = c;
  }
  fallback_added d c n (good h) = fallback_norm d c h n none

  abbrev pub fallback : Option E → C → A → A → Option A → Option A → E → Layered A E V C
  fallback d c x attn (some h) n e = fallback_norm d c h n (some e)
  fallback d c x attn none n e = fallback_added d c n (env.add x attn)

  -- After `postFFN`. On each error the views are released before the return.
  abbrev pub ended_with : Option E → C → List V → E → Layered A E V C
  ended_with d c views e = record { outcome = fails e; disabled = d; released = views; cache = c }

  abbrev pub combined : Option E → C → List V → Option A → Result E A → Layered A E V C
  combined d c views next (bad e) = ended_with d c views e
  combined d c views next (good out) = record {
    outcome = gives out next views;
    disabled = d;
    released = [];
    cache = c;
  }

  abbrev pub plain_add : A → A → Result E A
  plain_add h out =
      if env.same_dtype h out
      then env.add h out
      else elim (env.cast h out) [ good g ↦ env.add g out | bad e ↦ bad e ]

  abbrev pub residual_added : Option E → C → A → A → List V → Option A → Fused E A → Layered A E V C
  residual_added d c h out views next (broke e) = ended_with d c views e
  residual_added d c h out views next (handled r) = combined d c views next (good r)
  residual_added d c h out views next skipped = combined d c views next (plain_add h out)

  abbrev pub residual_normed : Option E → C → A → A → List V → Fused E A → Layered A E V C
  residual_normed d c h out views (broke e) = ended_with d c views e
  residual_normed d c h out views (handled r) =
      residual_added d c h out views (some r) (env.residual_add h out)
  residual_normed d c h out views skipped =
      residual_added d c h out views none (env.residual_add h out)

  unfoldable pub finish_ffn : Option E → C → A → A → Ffn A E V → Layered A E V C
  finish_ffn d c x attn (done h out views) =
      residual_normed d c h out views (env.residual_norm h out)
  finish_ffn d c x attn (broken h n e) = fallback d c x attn h n e
  finish_ffn d c x attn (returns e) = record {
    outcome = fails e;
    disabled = d;
    released = [];
    cache = c;
  }

  -- The path of a disabled plane, and of `gpu_fallback` mode.
  abbrev pub gpu_normed : Option E → C → A → Result E A → Layered A E V C
  gpu_normed d c h (bad e) = record { outcome = fails e; disabled = d; released = []; cache = c }
  gpu_normed d c h (good n) = record {
    outcome = add_mlp h (env.fallback_mlp n);
    disabled = d;
    released = [];
    cache = c;
  }

  abbrev pub gpu_only : Option E → C → Result E A → Layered A E V C
  gpu_only d c (bad e) = record { outcome = fails e; disabled = d; released = []; cache = c }
  gpu_only d c (good h) = gpu_normed d c h (env.post_norm h)

  abbrev pub attended : Bool → Option E → A → Result E A × C → Layered A E V C
  attended gpu d x (bad e, c) = record { outcome = fails e; disabled = d; released = []; cache = c }
  attended gpu d x (good attn, c) =
      if is_some d || gpu then gpu_only d c (env.add x attn) else finish_ffn d c x attn (ffn x attn)

  abbrev pub normed : Bool → Option E → C → A → Result E A → Layered A E V C
  normed gpu d c x (bad e) = record { outcome = fails e; disabled = d; released = []; cache = c }
  normed gpu d c x (good n) = attended gpu d x (env.attention c n)

  abbrev pub norm_of : A → Option A → Result E A
  norm_of x (some n) = good n
  norm_of x none = env.input_norm x

  unfoldable pub layer_forward : Bool → Option E → C → A → Option A → Layered A E V C
  layer_forward gpu d c x prepared_norm = normed gpu d c x (norm_of x prepared_norm)
