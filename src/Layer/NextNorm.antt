-- ===== src/Layer/NextNorm.antt =====
-- decode/dispatch.go, layerForward: the norm that a layer prepares for the next one.
use autoresearch_mlx_go_ane.Prelude.{
  ◌≡◌, refl, subst, Bool, true, false, List, [], Option, none, some, ◌||◌, if◌then◌else◌,
}
use autoresearch_mlx_go_ane.Layer.{
  Result, good, bad, Fused, broke, skipped, handled, LayerEnv, Ffn, done, broken, returns, Outcome,
  gives, fails, is_some, ffn, add_mlp, fallback_normed, fallback_added, combined, plain_add,
  residual_added, residual_normed, finish_ffn, gpu_normed, gpu_only, attended, normed, norm_of,
  layer_forward,
}
use autoresearch_mlx_go_ane.Layer.Paths.{IsFaithful}
use autoresearch_mlx_go_ane.Layer.Reference.{residual_added-gives}

module _ {A E V C : Type 0} (env : LayerEnv A E V C) where
  -- `q` is what the layer's fused norm made of a residual and an output whose sum is `r`.
  pub record Carried (r q : A) : Type 0 where
    pub residual : A
    pub out : A
    pub is_norm : env.residual_norm residual out ≡ handled q
    pub is_sum : plain_add env residual out ≡ good r

  abbrev pub Carries : A → Option A → Type 0
  Carries r none = Unit
  Carries r (some q) = Carried r q

  add_mlp-Carries :
      (h r : A) (next : Option A) (views : List V) (o : Result E A)
      → add_mlp env h o ≡ gives r next views
      → Carries r next
  add_mlp-Carries h r next views (bad e) f = cc
  add_mlp-Carries h r next views (good m) f = sum (env.add h m) f
    where
      sum :
          (o : Result E A)
          → ◌≡◌ {A = Outcome A E V}
              (elim o [ good out ↦ gives out none [] | bad e ↦ fails e ])
              (gives r next views)
          → Carries r next
      sum (good out) g = let same : none ≡ next = cc in subst (Carries r) same tt
      sum (bad e) g = cc

  fallback_normed-Carries :
      (h r : A) (d err : Option E) (c : C) (next : Option A) (views : List V) (o : Result E A)
      → (fallback_normed env d c h err o).outcome ≡ gives r next views
      → Carries r next
  fallback_normed-Carries h r d err c next views (bad e) f = cc
  fallback_normed-Carries h r d err c next views (good n) f =
      add_mlp-Carries h r next views (env.fallback_mlp n) f

  fallback_added-Carries :
      (r : A) (d : Option E) (m : Option A) (c : C) (next : Option A) (views : List V)
      (o : Result E A)
      → (fallback_added env d c m o).outcome ≡ gives r next views
      → Carries r next
  fallback_added-Carries r d m c next views (bad e) f = cc
  fallback_added-Carries r d (some n) c next views (good h) f =
      fallback_normed-Carries h r d none c next views (good n) f
  fallback_added-Carries r d none c next views (good h) f =
      fallback_normed-Carries h r d none c next views (env.post_norm h) f

  gpu_normed-Carries :
      (h r : A) (d : Option E) (c : C) (next : Option A) (views : List V) (o : Result E A)
      → (gpu_normed env d c h o).outcome ≡ gives r next views
      → Carries r next
  gpu_normed-Carries h r d c next views (bad e) f = cc
  gpu_normed-Carries h r d c next views (good n) f =
      add_mlp-Carries h r next views (env.fallback_mlp n) f

  gpu_only-Carries :
      (r : A) (d : Option E) (c : C) (next : Option A) (views : List V) (o : Result E A)
      → (gpu_only env d c o).outcome ≡ gives r next views
      → Carries r next
  gpu_only-Carries r d c next views (bad e) f = cc
  gpu_only-Carries r d c next views (good h) f =
      gpu_normed-Carries h r d c next views (env.post_norm h) f

  -- The norm handed to `combined` is the one that comes out.
  combined-next :
      (d : Option E) (c : C) (vs views : List V) (next next' : Option A) (r : A) (o : Result E A)
      → (combined env d c vs next o).outcome ≡ gives r next' views
      → next ≡ next'
  combined-next d c vs views next next' r (good out) f = cc
  combined-next d c vs views next next' r (bad e) f = cc

  residual_added-next :
      (d : Option E) (c : C) (h out r : A) (vs views : List V) (next next' : Option A)
      (o : Fused E A)
      → (residual_added env d c h out vs next o).outcome ≡ gives r next' views
      → next ≡ next'
  residual_added-next d c h out r vs views next next' (broke e) f = cc
  residual_added-next d c h out r vs views next next' (handled q) f =
      combined-next d c vs views next next' r (good q) f
  residual_added-next d c h out r vs views next next' skipped f =
      combined-next d c vs views next next' r (plain_add env h out) f

module _ {A E V C : Type 0} (Near : A → A → Type 0) (env : LayerEnv A E V C)
    (ok : IsFaithful Near env) where
  residual_normed-Carries :
      (d : Option E) (c : C) (h out r : A) (vs views : List V) (next : Option A) (o : Fused E A)
      → env.residual_norm h out ≡ o
      → (residual_normed env d c h out vs o).outcome ≡ gives r next views
      → Carries env r next
  residual_normed-Carries d c h out r vs views next (broke e) n f = cc
  residual_normed-Carries d c h out r vs views next (handled q) n f =
      subst (Carries env r)
        (residual_added-next env d c h out r vs views (some q) next (env.residual_add h out) f)
        (record {
          residual = h;
          out = out;
          is_norm = n;
          is_sum =
              residual_added-gives Near env ok d c h out r vs views (some q) next
                (env.residual_add h out) refl f;
        })
  residual_normed-Carries d c h out r vs views next skipped n f =
      subst (Carries env r)
        (residual_added-next env d c h out r vs views none next (env.residual_add h out) f) tt

  finish_ffn-Carries :
      (x attn r : A) (d : Option E) (c : C) (next : Option A) (views : List V) (o : Ffn A E V)
      → (finish_ffn env d c x attn o).outcome ≡ gives r next views
      → Carries env r next
  unfolding finish_ffn
  finish_ffn-Carries x attn r d c next views (returns e) f = cc
  finish_ffn-Carries x attn r d c next views (done h out vs) f =
      residual_normed-Carries d c h out r vs views next (env.residual_norm h out) refl f
  finish_ffn-Carries x attn r d c next views (broken none none e) f =
      fallback_added-Carries env r d none c next views (env.add x attn) f
  finish_ffn-Carries x attn r d c next views (broken none (some n) e) f =
      fallback_added-Carries env r d (some n) c next views (env.add x attn) f
  finish_ffn-Carries x attn r d c next views (broken (some h) none e) f =
      fallback_normed-Carries env h r d none c next views (env.post_norm h) f
  finish_ffn-Carries x attn r d c next views (broken (some h) (some n) e) f =
      fallback_normed-Carries env h r d (some e) c next views (good n) f

  chosen-Carries :
      (x attn r : A) (d : Option E) (c : C) (next : Option A) (views : List V) (gpu : Bool)
      → (if gpu
          then gpu_only env d c (env.add x attn)
          else finish_ffn env d c x attn (ffn env x attn)).outcome
        ≡ gives r next views
      → Carries env r next
  chosen-Carries x attn r d c next views true f =
      gpu_only-Carries env r d c next views (env.add x attn) f
  chosen-Carries x attn r d c next views false f =
      finish_ffn-Carries x attn r d c next views (ffn env x attn) f

  attended-Carries :
      (x r : A) (d : Option E) (next : Option A) (views : List V) (gpu : Bool) (o : Result E A × C)
      → (attended env gpu d x o).outcome ≡ gives r next views
      → Carries env r next
  attended-Carries x r d next views gpu (bad e, c) f = cc
  attended-Carries x r d next views gpu (good attn, c) f =
      chosen-Carries x attn r d c next views (is_some d || gpu) f

  normed-Carries :
      (c : C) (x r : A) (d : Option E) (next : Option A) (views : List V) (gpu : Bool)
      (o : Result E A)
      → (normed env gpu d c x o).outcome ≡ gives r next views
      → Carries env r next
  normed-Carries c x r d next views gpu (bad e) f = cc
  normed-Carries c x r d next views gpu (good n) f =
      attended-Carries x r d next views gpu (env.attention c n) f

  -- When a layer prepares a norm, it is what its fused norm made of two parts of its output.
  pub layer_forward-Carries :
      (gpu : Bool) (d : Option E) (c : C) (x r : A) (prepared_norm next : Option A) (views : List V)
      → (layer_forward env gpu d c x prepared_norm).outcome ≡ gives r next views
      → Carries env r next
  unfolding layer_forward
  layer_forward-Carries gpu d c x r p next views f =
      normed-Carries c x r d next views gpu (norm_of env x p) f
