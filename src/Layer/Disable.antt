-- ===== src/Layer/Disable.antt =====
-- decode/dispatch.go, layerForward: which failures of the accelerator disable the plane.
use autoresearch_mlx_go_ane.Prelude.{◌≡◌, refl, ◌∙◌, true, false, [], Option, none, some}
use autoresearch_mlx_go_ane.Layer.{
  good, bad, LayerEnv, gives, Layered, ffn, add_mlp, fallback_normed, disable, finish_ffn, norm_of,
  layer_forward,
}
use autoresearch_mlx_go_ane.Layer.Views.{attended_parts}

module _ {A E V C : Type 0} (env : LayerEnv A E V C) where
  -- The operations on the GPU succeed from the attention's output on: residual, norm, MLP and sum.
  pub record GpuGives (x attn r : A) : Type 0 where
    pub residual : A
    pub is_residual : env.add x attn ≡ good residual
    pub post : A
    pub is_post : env.post_norm residual ≡ good post
    pub mlp : A
    pub is_mlp : env.fallback_mlp post ≡ good mlp
    pub is_sum : env.add residual mlp ≡ good r

  -- What the plane is disabled by after a layer that fell back to the GPU and gave `r`.
  abbrev pub fell_back : A → Option E → C → Layered A E V C
  fell_back r d c = record { outcome = gives r none []; disabled = d; released = []; cache = c }

  normed_again :
      (h r m n : A) (d err : Option E) (c : C)
      → env.fallback_mlp n ≡ good m
      → env.add h m ≡ good r
      → fallback_normed env d c h err (good n)
        ≡ record { outcome = gives r none []; disabled = disable d err; released = []; cache = c }
  normed_again h r m n d err c f g = rw (f, add_mlp, g) refl

  -- On a plane in service, when a dense layer's stage cannot be built and its norm, its attention
  -- and the operations on the GPU succeed, `layerForward` gives the GPU's output and leaves the
  -- plane in service, with no error recorded.
  pub stage_failure_keeps_plane :
      (x : A) (p : Option A) {n attn r : A} {c c' : C} {e : E}
      → norm_of env x p ≡ good n
      → env.attention c n ≡ (good attn, c')
      → GpuGives x attn r
      → env.is_moe ≡ false
      → env.dense_stage ≡ some e
      → layer_forward env false none c x p ≡ fell_back r none c'
  unfolding ffn finish_ffn
  stage_failure_keeps_plane x p {n} {attn} {r} {c} {c'} {e} q a g dense fails =
      attended_parts env x n attn p c c' q a
      ∙ rw (dense, fails, g.is_residual, g.is_post)
          (normed_again g.residual r g.mlp g.post none none c' g.is_mlp g.is_sum)

  pub moe_failure_disables :
      (x : A) (p : Option A) {n attn r : A} {c c' : C} {e : E}
      → norm_of env x p ≡ good n
      → env.attention c n ≡ (good attn, c')
      → (g : GpuGives x attn r) → env.is_moe ≡ true
      → env.moe_output g.post ≡ bad e
      → layer_forward env false none c x p ≡ fell_back r (some e) c'
  unfolding ffn finish_ffn
  moe_failure_disables x p {n} {attn} {r} {c} {c'} {e} q a g moe fails =
      attended_parts env x n attn p c c' q a
      ∙ rw (moe, g.is_residual, g.is_post, fails)
          (normed_again g.residual r g.mlp g.post none (some e) c' g.is_mlp g.is_sum)
