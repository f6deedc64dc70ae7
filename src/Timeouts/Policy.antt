-- ===== src/Timeouts/Policy.antt =====
-- meshcore_rpc_services/timeouts/policy.py
use meshcore_rpc_services.Prelude.{◌≡◌, ◌⊎◌, Option, none, some, [], String, arith}
use meshcore_rpc_services.Prelude.Int.{ℤ, pos, ◌≤ℤ◌, ◌<ℤ◌, max_ℤ, min_ℤ}
use meshcore_rpc_services.Prelude.Dict.{Dict, lookup}

pub record TimeoutPolicy : Type 0 where
  pub default_s : ℤ
  pub min_s : ℤ
  pub max_s : ℤ
  pub per_type_default_s : Dict ℤ

-- `TimeoutPolicy()`
abbrev pub default_policy : TimeoutPolicy
default_policy = record {
  default_s = pos 30;
  min_s = pos 1;
  max_s = pos 300;
  per_type_default_s = [];
}

-- The per-type default, or else the global one.
abbrev default_for : ℤ → Option ℤ → ℤ
default_for global none = global
default_for global (some per_type) = per_type

abbrev pub base_ttl : TimeoutPolicy → String → Option ℤ → ℤ
base_ttl p request_type (some requested) = requested
base_ttl p request_type none = default_for p.default_s (lookup request_type p.per_type_default_s)

unfoldable pub resolve : TimeoutPolicy → String → Option ℤ → ℤ
resolve p request_type requested_ttl =
    max_ℤ p.min_s (min_ℤ (base_ttl p request_type requested_ttl) p.max_s)

-- `clamp_ttl`, the older helper.
pub clamp_ttl : Option ℤ → ℤ → ℤ → ℤ
unfolding resolve
clamp_ttl requested default_s max_s =
    resolve (record default_policy { default_s = default_s; max_s = max_s }) "_legacy" requested

-- With a consistent policy the resolved TTL lies between the bounds. It is the base value, or the
-- bound that the base value passes.
pub resolve_bounds :
    (p : TimeoutPolicy) (request_type : String) (requested : Option ℤ)
    → p.min_s ≤ℤ p.max_s
    → let ttl = resolve p request_type requested in
      let base = base_ttl p request_type requested in
      (p.min_s ≤ℤ ttl)
      × (ttl ≤ℤ p.max_s)
      × ((ttl ≡ base)
          ⊎ (((ttl ≡ p.min_s) × (base <ℤ p.min_s)) ⊎ ((ttl ≡ p.max_s) × (p.max_s <ℤ base))))
unfolding resolve
resolve_bounds p request_type requested h = ground arith
