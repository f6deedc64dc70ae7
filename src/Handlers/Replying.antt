-- ===== src/Handlers/Replying.antt =====
-- Every handler that returns answers its request.
use meshcore_rpc_services.Prelude.{◌≡◌, refl, Option, some, All}
use meshcore_rpc_services.Prelude.Int.{ℤ, Fixed}
use meshcore_rpc_services.Prelude.Dict.{Dict}
use meshcore_rpc_services.Geo.{Platform}
use meshcore_rpc_services.Handlers.{default_handlers}
use meshcore_rpc_services.Handlers.Protocol.{Handler}
use meshcore_rpc_services.Handlers.Basic.{ping, echo, time_now}
use meshcore_rpc_services.Handlers.Nodes.{node_last_seen, node_location, node_status}
use meshcore_rpc_services.Handlers.Report.{store_report, checked_report, node_location_report}
use meshcore_rpc_services.Handlers.BaseLocation.{fresh_base, aged_base, base_location}
use meshcore_rpc_services.Handlers.ReturnToBase.{return_to_base}
use meshcore_rpc_services.Handlers.GatewayStatus.{gateway_status}
use meshcore_rpc_services.Runtime.{pure}
use meshcore_rpc_services.Runtime.Yields.{Yields, Yields-pure, yields_rules}
use meshcore_rpc_services.Schemas.{Request, Response, ok_response}
use meshcore_rpc_services.Value.{Json}

-- The response is the successful one to this request, with some body.
abbrev pub Answers : Request → Response → Type 0
Answers request r = (body : Dict Json) × (r ≡ ok_response request body)

abbrev pub HandlerAnswers : Handler → Type 0
HandlerAnswers h = (request : Request) → Yields (Answers request) (h.handle request)

answered :
    (request : Request) (body : Dict Json)
    → Yields (Answers request) (pure (ok_response request body))
answered request body = Yields-pure (ok_response request body) (body, refl)

ruleset answers_rules = (yields_rules, answered)

ping-Answers : (request : Request) → Yields (Answers request) (ping request)
unfolding ping
ping-Answers request = search answers_rules

echo-Answers : (request : Request) → Yields (Answers request) (echo request)
unfolding echo
echo-Answers request = search answers_rules

time_now-Answers :
    (p : Platform) (request : Request) → Yields (Answers request) (time_now p request)
unfolding time_now
time_now-Answers p request = search answers_rules

gateway_status-Answers : (request : Request) → Yields (Answers request) (gateway_status request)
unfolding gateway_status
gateway_status-Answers request = search answers_rules

node_last_seen-Answers : (request : Request) → Yields (Answers request) (node_last_seen request)
unfolding node_last_seen
node_last_seen-Answers request = search answers_rules

node_location-Answers : (request : Request) → Yields (Answers request) (node_location request)
unfolding node_location
node_location-Answers request = search answers_rules

node_status-Answers : (request : Request) → Yields (Answers request) (node_status request)
unfolding node_status
node_status-Answers request = search answers_rules

store_report-Answers :
    (p : Platform) (request : Request) (lat lon : Fixed)
    → Yields (Answers request) (store_report p request lat lon)
unfolding store_report
store_report-Answers p request lat lon = search answers_rules

checked_report-Answers :
    (p : Platform) (request : Request) (lat lon : Option Fixed)
    → Yields (Answers request) (checked_report p request lat lon)
unfolding checked_report
checked_report-Answers p request (some lat) (some lon) =
    search (answers_rules, store_report-Answers)
checked_report-Answers p request _ _ = search answers_rules

node_location_report-Answers :
    (p : Platform) (request : Request) → Yields (Answers request) (node_location_report p request)
unfolding node_location_report
node_location_report-Answers p request = checked_report-Answers p request _ _

fresh_base-Answers :
    (request : Request) (loc : Dict Json) (age : ℤ)
    → Yields (Answers request) (fresh_base request loc age)
unfolding fresh_base
fresh_base-Answers request loc age = search answers_rules

aged_base-Answers :
    (request : Request) (loc : Dict Json) (age : ℤ)
    → Yields (Answers request) (aged_base request loc age)
unfolding aged_base
aged_base-Answers request loc age = search (answers_rules, fresh_base-Answers)

base_location-Answers : (request : Request) → Yields (Answers request) (base_location request)
unfolding base_location
base_location-Answers request = search (answers_rules, aged_base-Answers)

return_to_base-Answers :
    (p : Platform) (request : Request) → Yields (Answers request) (return_to_base p request)
unfolding return_to_base
return_to_base-Answers p request = search answers_rules

pub default_handlers-Answers : (p : Platform) → All HandlerAnswers (default_handlers p)
unfolding default_handlers
default_handlers-Answers p = (
  ping-Answers,
  (
    echo-Answers,
    (
      time_now-Answers p,
      (
        gateway_status-Answers,
        (
          node_last_seen-Answers,
          (
            node_location_report-Answers p,
            (
              base_location-Answers,
              (node_location-Answers, (node_status-Answers, (return_to_base-Answers p, tt))),
            ),
          ),
        ),
      ),
    ),
  ),
)
