-- ===== src/Handlers/Nodes.antt =====
-- meshcore_rpc_services/handlers/node_last_seen.py, node_location.py and node_status.py
use meshcore_rpc_services.Prelude.{Option, none, some, [], ◌∷◌, String, format}
use meshcore_rpc_services.Prelude.Int.{ℤ, Fixed, age_of}
use meshcore_rpc_services.Prelude.Dict.{Dict}
use meshcore_rpc_services.Errors
use meshcore_rpc_services.Handlers.Protocol.{Handler, refuse, target_of}
use meshcore_rpc_services.Runtime.{M, pure, or_raise, time, ◌>>=◌}
use meshcore_rpc_services.Runtime.Calls.{get_last_seen, get_node_location}
use meshcore_rpc_services.Schemas.{Request, Response, ok_response}
use meshcore_rpc_services.State.{NodeState, get_node_state}
use meshcore_rpc_services.Value.{Json, null, bool, int, float, str}

unfoldable pub last_seen_body : String → Option Fixed → M (Dict Json)
last_seen_body target none = pure (("node", str target) ∷ ("ts", null) ∷ ("age_s", null) ∷ [])
last_seen_body target (some ts) = do
  now ← time
  pure (("node", str target) ∷ ("ts", float ts) ∷ ("age_s", int (age_of now ts)) ∷ [])

unfoldable pub node_last_seen : Request → M Response
unfolding last_seen_body
node_last_seen request = do
  ts ← get_last_seen (target_of request)
  body ← last_seen_body (target_of request) ts
  pure (ok_response request body)

abbrev pub node_last_seen_handler : Handler
node_last_seen_handler = record { type = "node.last_seen"; handle = node_last_seen }

unfoldable pub node_location : Request → M Response
unfolding format
node_location request = do
  found ← get_node_location (target_of request)
  loc ←
      or_raise found
        (refuse Errors.unavailable (format ("No location for " ∷ target_of request ∷ [])))
  now ← time
  pure (
      ok_response request (
        ("node", str (target_of request))
        ∷ ("lat", float loc.lat)
        ∷ ("lon", float loc.lon)
        ∷ ("ts", float loc.ts)
        ∷ ("age_s", int (age_of now loc.ts))
        ∷ []))

abbrev pub node_location_handler : Handler
node_location_handler = record { type = "node.location"; handle = node_location }

abbrev bat_entry : Option ℤ → Dict Json
bat_entry none = []
bat_entry (some pct) = ("bat_pct", int pct) ∷ []

abbrev pub status_body : NodeState → Dict Json
status_body st =
    ("id", str st.id)
    ∷ ("online", bool st.online)
    ∷ ("last_seen_age_s", int st.last_seen_age_s)
    ∷ bat_entry st.bat_pct

unfoldable pub node_status : Request → M Response
unfolding format
node_status request = do
  found ← get_node_state (target_of request)
  st ←
      or_raise found (refuse Errors.unavailable (format ("No state for " ∷ target_of request ∷ [])))
  pure (ok_response request (status_body st))

abbrev pub node_status_handler : Handler
node_status_handler = record { type = "node.status"; handle = node_status }
