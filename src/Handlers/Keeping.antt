-- ===== src/Handlers/Keeping.antt =====
-- Every handler keeps every stable predicate on the state, however it ends.
use meshcore_rpc_services.Prelude.{Option, none, some, All, String}
use meshcore_rpc_services.Prelude.Int.{ℤ, Fixed}
use meshcore_rpc_services.Prelude.Dict.{Dict}
use meshcore_rpc_services.Geo.{Platform}
use meshcore_rpc_services.Handlers.{default_handlers}
use meshcore_rpc_services.Handlers.Protocol.{Handler}
use meshcore_rpc_services.Handlers.Basic.{ping, echo, time_now}
use meshcore_rpc_services.Handlers.Nodes.{
  last_seen_body, node_last_seen, node_location, node_status,
}
use meshcore_rpc_services.Handlers.Report.{
  report_ts, store_report, checked_report, node_location_report,
}
use meshcore_rpc_services.Handlers.BaseLocation.{fresh_base, aged_base, base_location}
use meshcore_rpc_services.Handlers.ReturnToBase.{
  check_age, reported_place, caller_place, base_place, return_to_base,
}
use meshcore_rpc_services.Handlers.GatewayStatus.{snapshot_age, gateway_status}
use meshcore_rpc_services.Runtime.{World}
use meshcore_rpc_services.Runtime.Keeps.{Keeps, keeps_rules}
use meshcore_rpc_services.Runtime.Stable.{IsStable, Keeps-counts}
use meshcore_rpc_services.Schemas.{Request}
use meshcore_rpc_services.State.Keeping.{
  stable_calls, Keeps-get_node_state, Keeps-apply_location, Keeps-get_base_location,
}
use meshcore_rpc_services.Value.{Json, str}

abbrev pub HandlerKeeps : (World → Type 0) → Handler → Type 0
HandlerKeeps P h = (request : Request) → Keeps P (h.handle request)

module _ {P : World → Type 0} (stable : IsStable P) where
  Keeps-ping : (request : Request) → Keeps P (ping request)
  unfolding ping
  Keeps-ping request = search keeps_rules

  Keeps-echo : (request : Request) → Keeps P (echo request)
  unfolding echo
  Keeps-echo request = search keeps_rules

  Keeps-time_now : (p : Platform) (request : Request) → Keeps P (time_now p request)
  unfolding time_now
  Keeps-time_now p request = search keeps_rules

  Keeps-snapshot_age : (o : Option Fixed) → Keeps P (snapshot_age o)
  unfolding snapshot_age
  Keeps-snapshot_age none = search keeps_rules
  Keeps-snapshot_age (some t) = search keeps_rules

  Keeps-gateway_status : (request : Request) → Keeps P (gateway_status request)
  unfolding gateway_status
  Keeps-gateway_status request = search (keeps_rules, Keeps-counts, Keeps-snapshot_age)

  Keeps-last_seen_body : (target : String) (o : Option Fixed) → Keeps P (last_seen_body target o)
  unfolding last_seen_body
  Keeps-last_seen_body target none = search keeps_rules
  Keeps-last_seen_body target (some t) = search keeps_rules

  Keeps-node_last_seen : (request : Request) → Keeps P (node_last_seen request)
  unfolding node_last_seen
  Keeps-node_last_seen request = search (stable_calls, Keeps-last_seen_body)

  Keeps-node_location : (request : Request) → Keeps P (node_location request)
  unfolding node_location
  Keeps-node_location request = search stable_calls

  Keeps-node_status : (request : Request) → Keeps P (node_status request)
  unfolding node_status
  Keeps-node_status request = search (stable_calls, Keeps-get_node_state)

  Keeps-report_ts : (p : Platform) (o : Option Json) → Keeps P (report_ts p o)
  unfolding report_ts
  Keeps-report_ts p none = search keeps_rules
  Keeps-report_ts p (some (str s)) = search keeps_rules
  Keeps-report_ts p (some x) = search keeps_rules

  Keeps-store_report :
      (p : Platform) (request : Request) (lat lon : Fixed)
      → Keeps P (store_report p request lat lon)
  unfolding store_report
  Keeps-store_report p request lat lon = search (keeps_rules, Keeps-report_ts, Keeps-apply_location)

  Keeps-checked_report :
      (p : Platform) (request : Request) (lat lon : Option Fixed)
      → Keeps P (checked_report p request lat lon)
  unfolding checked_report
  Keeps-checked_report p request (some lat) (some lon) = search (keeps_rules, Keeps-store_report)
  Keeps-checked_report p request _ _ = search keeps_rules

  Keeps-node_location_report :
      (p : Platform) (request : Request) → Keeps P (node_location_report p request)
  unfolding node_location_report
  Keeps-node_location_report p request = Keeps-checked_report p request _ _

  Keeps-fresh_base :
      (request : Request) (loc : Dict Json) (age : ℤ) → Keeps P (fresh_base request loc age)
  unfolding fresh_base
  Keeps-fresh_base request loc age = search keeps_rules

  Keeps-aged_base :
      (request : Request) (loc : Dict Json) (age : ℤ) → Keeps P (aged_base request loc age)
  unfolding aged_base
  Keeps-aged_base request loc age = search (keeps_rules, Keeps-fresh_base)

  Keeps-base_location : (request : Request) → Keeps P (base_location request)
  unfolding base_location
  Keeps-base_location request = search (keeps_rules, Keeps-get_base_location, Keeps-aged_base)

  Keeps-check_age : (whose : String) (age : ℤ) → Keeps P (check_age whose age)
  unfolding check_age
  Keeps-check_age whose age = search keeps_rules

  Keeps-reported_place : (request : Request) → Keeps P (reported_place request)
  unfolding reported_place
  Keeps-reported_place request = search (stable_calls, Keeps-check_age)

  Keeps-caller_place :
      (request : Request) (lat lon : Option Fixed) → Keeps P (caller_place request lat lon)
  unfolding caller_place
  Keeps-caller_place request (some lat) (some lon) = search keeps_rules
  Keeps-caller_place request _ _ = Keeps-reported_place request

  Keeps-base_place : Keeps P base_place
  unfolding base_place
  Keeps-base_place = search (keeps_rules, Keeps-get_base_location, Keeps-check_age) depth 12

  Keeps-return_to_base : (p : Platform) (request : Request) → Keeps P (return_to_base p request)
  unfolding return_to_base
  Keeps-return_to_base p request = search (keeps_rules, Keeps-caller_place, Keeps-base_place)

  pub default_handlers-Keeps : (p : Platform) → All (HandlerKeeps P) (default_handlers p)
  unfolding default_handlers
  default_handlers-Keeps p = (
    Keeps-ping,
    (
      Keeps-echo,
      (
        Keeps-time_now p,
        (
          Keeps-gateway_status,
          (
            Keeps-node_last_seen,
            (
              Keeps-node_location_report p,
              (
                Keeps-base_location,
                (Keeps-node_location, (Keeps-node_status, (Keeps-return_to_base p, tt))),
              ),
            ),
          ),
        ),
      ),
    ),
  )
