-- ===== src/Routing.antt =====
-- routing.go: the policy that sends one linear call to the accelerator or back to MLX.
-- Go's `int` is ℤ; the work in multiply-accumulates is a `uint64`.
pub mod Work
pub mod Policy
mod Tests
use autoresearch_mlx_go_ane.Prelude.{
  ℕ, ◌*◌, ◌/◌, ◌%◌, Bool, true, false, not, ◌&&◌, ◌||◌, Option, none, some, ltb, ◌==◌,
  if◌then◌else◌,
}
use autoresearch_mlx_go_ane.Prelude.Int.{ℤ, pos, negsuc, pos_part, ltb_ℤ}

pub data Reason : Type 0 where
  eligible cached invalid_dims small_spatial unaligned_channels compile_budget : Reason
  cold_too_small warm_too_small work_overflow : Reason

pub data LinearRouteProfile : Type 0 where
  balanced conservative aggressive disabled : LinearRouteProfile

pub record RouteDecision : Type 0 where
  pub use_ane : Bool
  pub reason : Reason

pub record LinearRouteConfig : Type 0 where
  pub min_spatial : ℤ
  pub channel_multiple : ℤ
  pub max_compile_cache_size : ℤ
  pub cold_min_macs : ℕ  -- uint64
  pub warm_min_macs : ℕ  -- uint64

pub record LinearRouteInput : Type 0 where
  pub batch : ℤ
  pub in_dim : ℤ
  pub out_dim : ℤ
  pub cache_known : Bool
  pub cache_hit : Bool
  pub cache_size : ℤ

-- A composite literal leaves the two MAC limits at 0.
abbrev limits : ℤ → ℤ → ℤ → LinearRouteConfig
limits spatial multiple size = record {
  min_spatial = spatial;
  channel_multiple = multiple;
  max_compile_cache_size = size;
  cold_min_macs = 0;
  warm_min_macs = 0;
}

-- A string that names no profile takes the `default` case, as `balanced` does.
unfoldable pub linear_route_config_for_profile : LinearRouteProfile → LinearRouteConfig
linear_route_config_for_profile conservative = limits (pos 32) (pos 16) (pos 80)
linear_route_config_for_profile aggressive = limits (pos 16) (negsuc 0) (pos 110)
linear_route_config_for_profile disabled = limits (negsuc 0) (negsuc 0) (negsuc 0)
linear_route_config_for_profile balanced = limits (pos 16) (pos 8) (pos 100)

unfoldable pub training_linear_route_config_for_profile : LinearRouteProfile → LinearRouteConfig
training_linear_route_config_for_profile conservative = limits (pos 16) (pos 16) (pos 96)
training_linear_route_config_for_profile aggressive = limits (negsuc 0) (negsuc 0) (pos 160)
training_linear_route_config_for_profile disabled = limits (negsuc 0) (negsuc 0) (negsuc 0)
training_linear_route_config_for_profile balanced = limits (pos 8) (pos 8) (pos 128)

unfoldable pub default_linear_route_config : LinearRouteConfig
unfolding linear_route_config_for_profile
default_linear_route_config = linear_route_config_for_profile balanced

abbrev pub eqb_ℤ : ℤ → ℤ → Bool
eqb_ℤ (pos a) (pos b) = a == b
eqb_ℤ (negsuc a) (negsuc b) = a == b
eqb_ℤ _ _ = false

-- cfg == (LinearRouteConfig{})
pub is_zero_config : LinearRouteConfig → Bool
is_zero_config cfg =
    eqb_ℤ cfg.min_spatial (pos 0)
    && eqb_ℤ cfg.channel_multiple (pos 0)
    && eqb_ℤ cfg.max_compile_cache_size (pos 0)
    && cfg.cold_min_macs == 0
    && cfg.warm_min_macs == 0

unfoldable pub normalize_linear_route_config : LinearRouteConfig → LinearRouteConfig
unfolding is_zero_config default_linear_route_config
normalize_linear_route_config cfg = if is_zero_config cfg then default_linear_route_config else cfg

-- `*LinearRouter`: its only field is the normalised config; `none` is the nil pointer.
abbrev pub LinearRouter : Type 0
LinearRouter = Option LinearRouteConfig

unfoldable pub new_linear_router : LinearRouteConfig → LinearRouter
unfolding normalize_linear_route_config
new_linear_router cfg = some (normalize_linear_route_config cfg)

pub zero_config : LinearRouteConfig
zero_config = limits (pos 0) (pos 0) (pos 0)

unfoldable pub config : LinearRouter → LinearRouteConfig
unfolding zero_config normalize_linear_route_config
config none = normalize_linear_route_config zero_config
config (some cfg) = cfg

abbrev pub u64_mod : ℕ
u64_mod = 18446744073709551616

abbrev pub max_uint64 : ℕ
max_uint64 = 18446744073709551615

-- One guarded product: the test `a > 0 && b > math.MaxUint64 / a`, then `a * b`, which wraps.
unfoldable pub mul_uint64 : ℕ → ℕ → Option ℕ
mul_uint64 a b = if ltb 0 a && ltb (max_uint64 / a) b then none else some ((a * b) % u64_mod)

unfoldable pub macs_uint64 : ℕ → ℕ → ℕ → Option ℕ
macs_uint64 b inn out = elim (mul_uint64 b inn) [ none ↦ none | some bi ↦ mul_uint64 bi out ]

abbrev pub is_neg : ℤ → Bool
is_neg (pos n) = false
is_neg (negsuc n) = true

-- The flag `ok` is `some`.
unfoldable pub linear_macs : ℤ → ℤ → ℤ → Option ℕ
unfolding macs_uint64
linear_macs batch in_dim out_dim =
    if is_neg batch || is_neg in_dim || is_neg out_dim
    then none
    else macs_uint64 (pos_part batch) (pos_part in_dim) (pos_part out_dim)

abbrev pub is_pos : ℤ → Bool
is_pos (pos n) = ltb 0 n
is_pos (negsuc n) = false

-- a % m != 0 for positive a and m
abbrev unaligned : ℤ → ℤ → Bool
unaligned a m = not (pos_part a % pos_part m == 0)

abbrev deny : Reason → RouteDecision
deny r = record { use_ane = false; reason = r }

abbrev allow : Reason → RouteDecision
allow r = record { use_ane = true; reason = r }

-- The tests of `DecideLinear`, in the order in which it makes them.
pub invalid : LinearRouteInput → Bool
invalid inp = not (is_pos inp.batch) || not (is_pos inp.in_dim) || not (is_pos inp.out_dim)

pub below_spatial : LinearRouteConfig → LinearRouteInput → Bool
below_spatial cfg inp = is_pos cfg.min_spatial && ltb_ℤ inp.batch cfg.min_spatial

pub off_channels : LinearRouteConfig → LinearRouteInput → Bool
off_channels cfg inp =
    is_pos cfg.channel_multiple
    && (unaligned inp.in_dim cfg.channel_multiple || unaligned inp.out_dim cfg.channel_multiple)

pub over_budget : LinearRouteConfig → LinearRouteInput → Bool
over_budget cfg inp =
    is_pos cfg.max_compile_cache_size
    && inp.cache_known
    && not inp.cache_hit
    && not (ltb_ℤ inp.cache_size cfg.max_compile_cache_size)

pub decide_work : LinearRouteConfig → LinearRouteInput → Option ℕ → RouteDecision
decide_work cfg inp none = deny work_overflow
decide_work cfg inp (some macs) =
    if inp.cache_known && inp.cache_hit
    then (if ltb 0 cfg.warm_min_macs && ltb macs cfg.warm_min_macs
        then deny warm_too_small
        else allow cached)
    else (if ltb 0 cfg.cold_min_macs && ltb macs cfg.cold_min_macs
        then deny cold_too_small
        else allow eligible)

unfoldable pub decide_with : LinearRouteConfig → LinearRouteInput → RouteDecision
decide_with cfg inp =
    if invalid inp
    then deny invalid_dims
    else if below_spatial cfg inp
    then deny small_spatial
    else if off_channels cfg inp
    then deny unaligned_channels
    else if over_budget cfg inp
    then deny compile_budget
    else decide_work cfg inp (linear_macs inp.batch inp.in_dim inp.out_dim)

unfoldable pub decide_linear : LinearRouter → LinearRouteInput → RouteDecision
unfolding config decide_with
decide_linear r inp = decide_with (config r) inp
