-- ===== src/Examples/Parts.antt =====
-- The theorems on the parts, applied to the example values.
use meshcore_rpc_services.Prelude.{◌≡◌, ◌⊎◌, refl, none, some, [], ◌∷◌, ◌==◌, find, filter, arith}
use meshcore_rpc_services.Prelude.Int.{pos, Fixed, trunc, ◌≤ℤ◌, ◌<ℤ◌}
use meshcore_rpc_services.Prelude.Dict.{lookup, contains}
use meshcore_rpc_services.Examples.{
  platform, codec, router, router_made, ping_request, db, db-IsValid, codec-ShowsTruthy, sign_laws,
}
use meshcore_rpc_services.Geo.{haversine_m}
use meshcore_rpc_services.Geo.Symmetry.{haversine_m_symm}
use meshcore_rpc_services.Handlers.{default_handlers}
use meshcore_rpc_services.Router
use meshcore_rpc_services.Router.Registered.{handles, resolve-make}
use meshcore_rpc_services.Schemas.{dump_request, Response}
use meshcore_rpc_services.Schemas.RoundTrip.{model_validate-dump_request}
use meshcore_rpc_services.Schemas.Validate.{IsValid, model_validate}
use meshcore_rpc_services.Store.Nodes.{get_last_seen, mark_node_seen}
use meshcore_rpc_services.Store.Purging.{unless_expired, find-purge_before, purge_before-events}
use meshcore_rpc_services.Store.Requests.{has_key}
use meshcore_rpc_services.Store.Retention.{purge_before}
use meshcore_rpc_services.Store.Seen.{get_last_seen_mono}
use meshcore_rpc_services.Timeouts.Policy.{base_ttl, default_policy, resolve, resolve_bounds}
use meshcore_rpc_services.Transport.Adapter.{
  inbound_to_request, bad_request_response, try_build_bad_request_response,
}
use meshcore_rpc_services.Transport.Adapter.Cases.{
  IsAddressable, inbound_to_request-IsValid, inbound_to_request-IsAddressable,
}
use meshcore_rpc_services.Gpsd.{GpsdFix, usable, parse_tpv}
use meshcore_rpc_services.Gpsd.Usable.{IsPosition, usable-IsPosition, Within}
use meshcore_rpc_services.Value.{str, int, float, obj, Fields, field, end}

inbound_to_request-IsValid_example :
    IsValid ping_request × ((inbound_to_request codec "mc/rpc/req" "ping").error_response ≡ none)
unfolding inbound_to_request model_validate lookup contains
inbound_to_request-IsValid_example =
    inbound_to_request-IsValid codec "mc/rpc/req" "ping" ping_request refl

abbrev untyped_error : Response
untyped_error = bad_request_response codec (("id", str "r1") ∷ ("from", str "n1") ∷ [])

inbound_to_request-IsAddressable_example :
    ((inbound_to_request codec "mc/rpc/req" "untyped").request ≡ none) × IsAddressable untyped_error
unfolding inbound_to_request model_validate lookup contains try_build_bad_request_response
inbound_to_request-IsAddressable_example =
    inbound_to_request-IsAddressable codec codec-ShowsTruthy "mc/rpc/req" "untyped" untyped_error
      refl

model_validate-dump_request_example :
    model_validate codec.lax_int (dump_request ping_request) ≡ some ping_request
model_validate-dump_request_example =
    model_validate-dump_request codec.lax_int (λ z. refl) ping_request
      (record { id_bounds = refl; type_bounds = refl; from_bounds = refl; ttl_bound = refl })

find-purge_before_example :
    find (has_key "r0" "n1") (purge_before (pos 7) db).1.requests
    ≡ unless_expired (pos 7) (find (has_key "r0" "n1") db.requests)
find-purge_before_example = find-purge_before (pos 7) "r0" "n1" db db-IsValid

purge_before-events_example :
    filter (λ e. e.request_id == "r0") (purge_before (pos 7) db).1.request_events
    ≡ filter (λ e. e.request_id == "r0") db.request_events
unfolding purge_before
purge_before-events_example = purge_before-events (pos 7) "r0" db refl

resolve_bounds_example :
    let ttl = resolve default_policy "ping" (some (pos 900)) in
    let base = base_ttl default_policy "ping" (some (pos 900)) in
    (default_policy.min_s ≤ℤ ttl)
    × (ttl ≤ℤ default_policy.max_s)
    × ((ttl ≡ base)
        ⊎ (((ttl ≡ default_policy.min_s) × (base <ℤ default_policy.min_s))
            ⊎ ((ttl ≡ default_policy.max_s) × (default_policy.max_s <ℤ base))))
resolve_bounds_example = resolve_bounds default_policy "ping" (some (pos 900)) (ground arith)

resolve-make_example :
    Router.resolve "return_to_base" router
    ≡ find (handles "return_to_base") (default_handlers platform)
resolve-make_example = resolve-make (default_handlers platform) router "return_to_base" router_made

get_last_seen_mono_example :
    (now : Fixed) × (get_last_seen "n1" (mark_node_seen "n1" (pos 3) db) ≡ some now)
    × (pos 7 ≤ℤ now)
unfolding get_last_seen lookup
get_last_seen_mono_example = get_last_seen_mono "n1" "n1" (pos 3) db (pos 7) refl

haversine_m_symm_example :
    haversine_m platform (pos 1) (pos 2) (pos 5) (pos 9)
    ≡ haversine_m platform (pos 5) (pos 9) (pos 1) (pos 2)
haversine_m_symm_example = haversine_m_symm platform sign_laws (pos 1) (pos 2) (pos 5) (pos 9)

-- A report of gpsd with both errors, of which the worse counts.
abbrev tpv_fields : Fields
tpv_fields = field "class" (str "TPV") (
    field "mode" (int (pos 3)) (
      field "lat" (float (pos 52000000)) (
        field "lon" (float (pos 4000000))
          (field "epx" (float (pos 2000000)) (field "epy" (float (pos 3000000)) end)))))

abbrev gps_fix : GpsdFix
gps_fix = record {
  lat = pos 52000000;
  lon = pos 4000000;
  ts = pos 9;
  alt = none;
  acc = some (pos 3000000);
  spd = none;
  hdg = none;
  fix = some (pos 3);
}

usable-IsPosition_example : IsPosition (pos 9) gps_fix × Within (some (pos 5000000)) gps_fix.acc
unfolding usable parse_tpv lookup trunc
usable-IsPosition_example =
    usable-IsPosition (some (pos 5000000)) (pos 9) (some (obj tpv_fields)) gps_fix refl
