-- ===== src/Handlers/ReturnToBase.antt =====
-- meshcore_rpc_services/handlers/return_to_base.py
use meshcore_rpc_services.Prelude.{Option, some, [], ◌∷◌, String, format, if◌then◌else◌}
use meshcore_rpc_services.Prelude.Int.{ℤ, pos, Fixed, ltb_ℤ, age_of, show_int}
use meshcore_rpc_services.Prelude.Dict.{Dict, lookup}
use meshcore_rpc_services.Errors
use meshcore_rpc_services.Geo.{Platform, haversine_m, initial_bearing_deg}
use meshcore_rpc_services.Handlers.Protocol.{Handler, refuse, item, as_number}
use meshcore_rpc_services.Runtime.{M, pure, raise, or_raise, time, ◌>>=◌, ◌>>◌}
use meshcore_rpc_services.Runtime.Calls.{get_node_location}
use meshcore_rpc_services.Schemas.{Request, Response, ok_response}
use meshcore_rpc_services.State.{get_base_location}
use meshcore_rpc_services.Value.{Json, int, float, obj, of_entries, number?}

abbrev pub max_age_s : ℤ
max_age_s = pos 600

-- `if age > _MAX_AGE_S: raise RpcError(STALE, ...)`
unfoldable pub check_age : String → ℤ → M Unit
unfolding format show_int
check_age whose age_s =
    if ltb_ℤ max_age_s age_s
    then raise
        (refuse Errors.stale (format (whose ∷ " last fix is " ∷ show_int age_s ∷ "s old" ∷ [])))
    else pure tt

pub record Place : Type 0 where
  pub lat : Fixed
  pub lon : Fixed
  pub age_s : ℤ

unfoldable pub reported_place : Request → M Place
unfolding check_age
reported_place request = do
  found ← get_node_location request.from_
  loc ← or_raise found (refuse Errors.unavailable "Caller has no reported location")
  now ← time
  check_age "Caller's" (age_of now loc.ts)
  pure (record { lat = loc.lat; lon = loc.lon; age_s = age_of now loc.ts })

-- Explicit arguments win, else the last reported location.
unfoldable pub caller_place : Request → Option Fixed → Option Fixed → M Place
unfolding reported_place
caller_place request (some lat) (some lon) = pure (record { lat = lat; lon = lon; age_s = pos 0 })
caller_place request _ _ = reported_place request

unfoldable pub base_place : M Place
unfolding check_age
base_place = do
  found ← get_base_location
  base ← or_raise found (refuse Errors.unavailable "Base has no fix")
  now ← time
  ts_item ← item "ts" base
  ts ← as_number ts_item
  check_age "Base's" (age_of now ts)
  lat_item ← item "lat" base
  lon_item ← item "lon" base
  lat ← as_number lat_item
  lon ← as_number lon_item
  pure (record { lat = lat; lon = lon; age_s = age_of now ts })

abbrev pub place_entries : Place → Json
place_entries l =
    obj (of_entries (("lat", float l.lat) ∷ ("lon", float l.lon) ∷ ("age_s", int l.age_s) ∷ []))

unfoldable pub route_body : Platform → Place → Place → Dict Json
route_body p from_ base =
    let bearing =
      initial_bearing_deg p (p.real from_.lat) (p.real from_.lon) (p.real base.lat)
        (p.real base.lon) in
    let dist =
      haversine_m p (p.real from_.lat) (p.real from_.lon) (p.real base.lat) (p.real base.lon) in
    ("bearing", int (p.round bearing))
    ∷ ("dist_m", int (p.round dist))
    ∷ ("base", place_entries base)
    ∷ ("from", place_entries from_)
    ∷ []

unfoldable pub return_to_base : Platform → Request → M Response
unfolding caller_place base_place
return_to_base p request = do
  from_ ←
      caller_place request (number? (lookup "lat" request.args))
        (number? (lookup "lon" request.args))
  base ← base_place
  pure (ok_response request (route_body p from_ base))

abbrev pub return_to_base_handler : Platform → Handler
return_to_base_handler p = record { type = "return_to_base"; handle = return_to_base p }
