-- ===== src/Routing/Policy.antt =====
-- What `DecideLinear` promises.
use autoresearch_mlx_go_ane.Prelude.{
  ℕ, ◌*◌, ◌%◌, ◌≤◌, ◌<◌, ◌≡◌, ◌≢◌, ◌↔◌, true, false, Option, arith, if◌then◌else◌,
}
use autoresearch_mlx_go_ane.Prelude.Int.{pos, ◌≤ℤ◌}
use autoresearch_mlx_go_ane.Routing.{
  LinearRouteConfig, LinearRouteInput, decide_with, decide_linear, LinearRouter, new_linear_router,
  linear_macs, u64_mod, is_pos, decide_work, invalid, below_spatial, off_channels, over_budget,
  small_spatial, compile_budget, is_zero_config,
}

-- The smallest work that the policy sends to the accelerator.
pub floor : LinearRouteConfig → LinearRouteInput → ℕ
floor cfg inp =
    if inp.cache_known
    then (if inp.cache_hit then cfg.warm_min_macs else cfg.cold_min_macs)
    else cfg.cold_min_macs

-- The conditions of a config on a call of `b` rows, `i` inputs and `o` outputs, as the code reads
-- the config: a row floor, a channel multiple or a cache size that is not positive is no check.
pub record IsEligible (cfg : LinearRouteConfig) (inp : LinearRouteInput) (b i o : ℕ) : Type 0 where
  pub rows : 0 < b
  pub inputs : 0 < i
  pub outputs : 0 < o
  pub spatial : is_pos cfg.min_spatial ≡ true → cfg.min_spatial ≤ℤ pos b
  pub aligned : (m : ℕ) → cfg.channel_multiple ≡ pos m → 0 < m → (i % m ≡ 0) × (o % m ≡ 0)
  pub budget :
      is_pos cfg.max_compile_cache_size ≡ true
      → inp.cache_known ≡ true
      → inp.cache_hit ≡ false
      → ¬ (cfg.max_compile_cache_size ≤ℤ inp.cache_size)
  pub fits : b * i * o < u64_mod
  pub worth : floor cfg inp ≤ b * i * o

-- No test stops the call, and its work is known and large enough.
pub record Passes (cfg : LinearRouteConfig) (inp : LinearRouteInput) (w : Option ℕ) : Type 0 where
  pub valid : invalid inp ≡ false
  pub tall : below_spatial cfg inp ≡ false
  pub even : off_channels cfg inp ≡ false
  pub cheap : over_budget cfg inp ≡ false
  pub enough : (decide_work cfg inp w).use_ane ≡ true

module _ (cfg : LinearRouteConfig) (inp : LinearRouteInput) where
  abbrev work : Option ℕ
  work = linear_macs inp.batch inp.in_dim inp.out_dim

module _ (cfg : LinearRouteConfig) (inp : LinearRouteInput) (b i o : ℕ) (eb : inp.batch ≡ pos b)
    (ei : inp.in_dim ≡ pos i) (eo : inp.out_dim ≡ pos o) where
  abbrev Enough : Option ℕ → Type 0
  Enough w =
      ((decide_work cfg inp w).use_ane ≡ true)
      ↔ ((b * i * o < u64_mod) × (floor cfg inp ≤ b * i * o))

-- A call whose model is a cache hit is never refused for the compile budget.
pub decide_linear_hit :
    (r : LinearRouter) (inp : LinearRouteInput)
    → inp.cache_hit ≡ true
    → (decide_linear r inp).reason ≢ compile_budget
unfolding decide_linear decide_with over_budget decide_work
decide_linear_hit r inp h = ground arith

-- A router whose config leaves the row floor at 0 and is not all zero refuses no call for its row
-- count, however small.
pub new_linear_router_zero_spatial :
    (cfg : LinearRouteConfig) (inp : LinearRouteInput)
    → cfg.min_spatial ≡ pos 0
    → is_zero_config cfg ≡ false
    → (decide_linear (new_linear_router cfg) inp).reason ≢ small_spatial
unfolding decide_linear decide_with new_linear_router below_spatial decide_work
new_linear_router_zero_spatial cfg inp z nz = ground arith
