-- ===== src/Handlers/BaseLocation.antt =====
-- meshcore_rpc_services/handlers/base_location.py
use meshcore_rpc_services.Prelude.{[], ◌∷◌, or_else, format, if◌then◌else◌}
use meshcore_rpc_services.Prelude.Int.{ℤ, pos, ltb_ℤ, age_of, show_int}
use meshcore_rpc_services.Prelude.Dict.{Dict, lookup}
use meshcore_rpc_services.Errors
use meshcore_rpc_services.Handlers.Protocol.{Handler, refuse, item, as_number}
use meshcore_rpc_services.Runtime.{M, pure, raise, or_raise, time, ◌>>=◌}
use meshcore_rpc_services.Schemas.{Request, Response, ok_response}
use meshcore_rpc_services.State.{get_base_location}
use meshcore_rpc_services.Value.{Json, null, int}

abbrev pub base_max_age_s : ℤ
base_max_age_s = pos 600

unfoldable pub fresh_base : Request → Dict Json → ℤ → M Response
fresh_base request loc age_s = do
  lat ← item "lat" loc
  lon ← item "lon" loc
  ts ← item "ts" loc
  pure (
      ok_response request (
        ("lat", lat)
        ∷ ("lon", lon)
        ∷ ("ts", ts)
        ∷ ("age_s", int age_s)
        ∷ ("fix", or_else (lookup "fix" loc) null)
        ∷ []))

-- The test on the age.
unfoldable pub aged_base : Request → Dict Json → ℤ → M Response
unfolding fresh_base format show_int
aged_base request loc age_s =
    if ltb_ℤ base_max_age_s age_s
    then raise (refuse Errors.stale (format ("Base fix is " ∷ show_int age_s ∷ "s old" ∷ [])))
    else fresh_base request loc age_s

unfoldable pub base_location : Request → M Response
unfolding aged_base
base_location request = do
  found ← get_base_location
  loc ← or_raise found (refuse Errors.unavailable "Base has no GPS fix yet")
  now ← time
  ts ← as_number (or_else (lookup "ts" loc) (int (pos 0)))
  aged_base request loc (age_of now ts)

abbrev pub base_location_handler : Handler
base_location_handler = record { type = "base.location"; handle = base_location }
