-- ===== src/Config.antt =====
-- src/config.rs: the modes and policies that the primary and the proxies branch on.
use remora.Prelude.{Bool, true, false}

pub data LoadBalancingPolicy : Type 0 where
  round_robin zeus dedicated combined two_tier locality_load : LoadBalancingPolicy

pub data SeparationMode : Type 0 where
  no_separation proxy_separation primary_pre_separation primary_post_separation : SeparationMode

unfoldable pub is_proxy_separation : SeparationMode → Bool
is_proxy_separation no_separation = false
is_proxy_separation proxy_separation = true
is_proxy_separation primary_pre_separation = true
is_proxy_separation primary_post_separation = true

unfoldable pub is_primary_separation : SeparationMode → Bool
is_primary_separation no_separation = false
is_primary_separation proxy_separation = false
is_primary_separation primary_pre_separation = true
is_primary_separation primary_post_separation = true
