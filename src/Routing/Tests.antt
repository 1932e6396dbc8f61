-- ===== src/Routing/Tests.antt =====
-- Routing calls of a default and of a partly set router.
use autoresearch_mlx_go_ane.Prelude.{◌≡◌, refl, true, false}
use autoresearch_mlx_go_ane.Prelude.Int.{pos}
use autoresearch_mlx_go_ane.Routing.{LinearRouteConfig, LinearRouteInput, is_zero_config}

abbrev call : LinearRouteInput
call = record {
  batch = pos 32;
  in_dim = pos 64;
  out_dim = pos 128;
  cache_known = true;
  cache_hit = true;
  cache_size = pos 100;
}

abbrev partly_set : LinearRouteConfig
partly_set = record {
  min_spatial = pos 0;
  channel_multiple = pos 8;
  max_compile_cache_size = pos 100;
  cold_min_macs = 0;
  warm_min_macs = 0;
}

partly_set_nonzero : is_zero_config partly_set ≡ false
unfolding is_zero_config
partly_set_nonzero = refl
