-- ===== src/Handlers/Report.antt =====
-- meshcore_rpc_services/handlers/node_location_report.py
use meshcore_rpc_services.Prelude.{Bool, true, ◌&&◌, Option, none, some, [], ◌∷◌, if◌then◌else◌}
use meshcore_rpc_services.Prelude.Int.{ℤ, pos, Fixed, of_int, leb_ℤ, ◌-ℤ◌}
use meshcore_rpc_services.Prelude.Dict.{lookup}
use meshcore_rpc_services.Errors
use meshcore_rpc_services.Geo.{Platform}
use meshcore_rpc_services.Handlers.Protocol.{Handler, refuse}
use meshcore_rpc_services.Runtime.{M, crash, pure, raise, or_raise, time, ◌>>=◌, ◌>>◌}
use meshcore_rpc_services.Schemas.{Request, Response, ok_response}
use meshcore_rpc_services.State.{apply_location}
use meshcore_rpc_services.Value.{Json, bool, float, str, truthy?, number?, integer?}

-- `-bound <= x <= bound`, in degrees
unfoldable pub within : ℤ → Fixed → Bool
unfolding ◌-ℤ◌ of_int
within bound x = leb_ℤ (pos 0 -ℤ of_int bound) x && leb_ℤ x (of_int bound)

-- `float(x)` of any value
abbrev to_float : Platform → Json → M Fixed
to_float p (str s) = or_raise (p.parse_float s) (crash "ValueError")
to_float p x = or_raise (number? (some x)) (crash "TypeError")

-- `float(a.get("ts") or time.time())`
unfoldable pub report_ts : Platform → Option Json → M Fixed
report_ts p none = time
report_ts p (some x) = if truthy? (some x) then to_float p x else time

unfoldable pub store_report : Platform → Request → Fixed → Fixed → M Response
unfolding report_ts
store_report p request lat lon = do
  let a = request.args
  ts ← report_ts p (lookup "ts" a)
  apply_location request.from_
      (record {
        lat = lat;
        lon = lon;
        ts = ts;
        alt = number? (lookup "alt" a);
        acc = number? (lookup "acc" a);
        fix = integer? (lookup "fix" a);
        spd = number? (lookup "spd" a);
        hdg = number? (lookup "hdg" a);
      })
      "report" none none
  pure (ok_response request (("ack", bool true) ∷ ("ts", float ts) ∷ []))

-- The tests on `lat` and `lon`.
unfoldable pub checked_report : Platform → Request → Option Fixed → Option Fixed → M Response
unfolding store_report
checked_report p request (some lat) (some lon) =
    if within (pos 90) lat && within (pos 180) lon
    then store_report p request lat lon
    else raise (refuse Errors.bad_request "lat/lon out of range")
checked_report p request _ _ = raise (refuse Errors.bad_request "lat and lon are required floats")

unfoldable pub node_location_report : Platform → Request → M Response
unfolding checked_report
node_location_report p request =
    checked_report p request (number? (lookup "lat" request.args))
      (number? (lookup "lon" request.args))

abbrev pub node_location_report_handler : Platform → Handler
node_location_report_handler p = record {
  type = "node.location.report";
  handle = node_location_report p;
}
