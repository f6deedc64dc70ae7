-- ===== src/Handlers/GatewayStatus.antt =====
-- meshcore_rpc_services/handlers/gateway_status.py
use meshcore_rpc_services.Prelude.{Option, none, some, [], ◌∷◌, String, if◌then◌else◌}
use meshcore_rpc_services.Prelude.Int.{pos, Fixed, age_of}
use meshcore_rpc_services.Prelude.Dict.{Dict}
use meshcore_rpc_services.Handlers.Protocol.{Handler}
use meshcore_rpc_services.Lifecycle
use meshcore_rpc_services.Runtime.{Snapshot, M, pure, gets, time, ◌>>=◌}
use meshcore_rpc_services.Runtime.Calls.{counts}
use meshcore_rpc_services.Schemas.{Request, Response, ok_response}
use meshcore_rpc_services.Store.Requests.{Counts, count_of}
use meshcore_rpc_services.Value.{Json, null, int, str, truthy}

-- `MqttBus.get_gateway_snapshot`
abbrev pub get_gateway_snapshot : M Snapshot
get_gateway_snapshot = gets (λ w. w.gateway)

unfoldable pub snapshot_age : Option Fixed → M Json
snapshot_age none = pure null
snapshot_age (some snapped_at) = do now ← time; pure (int (age_of now snapped_at))

abbrev pub count_entry : String → Counts → Json
count_entry key d = int (pos (count_of key d))

abbrev pub status_body : Snapshot → Counts → Json → Dict Json
status_body snap counted age =
    ("state", if truthy snap.state then snap.state else str "unknown")
    ∷ ("detail", snap.detail)
    ∷ ("since", snap.since)
    ∷ ("snap_age_s", age)
    ∷ ("pending", count_entry "pending" counted)
    ∷ ("ok", count_entry Lifecycle.completed_ok counted)
    ∷ ("err", count_entry Lifecycle.completed_error counted)
    ∷ ("to", count_entry Lifecycle.timeout counted)
    ∷ []

unfoldable pub gateway_status : Request → M Response
unfolding snapshot_age
gateway_status request = do
  snap ← get_gateway_snapshot
  counted ← counts
  age ← snapshot_age snap.snapped_at
  pure (ok_response request (status_body snap counted age))

abbrev pub gateway_status_handler : Handler
gateway_status_handler = record { type = "gateway.status"; handle = gateway_status }
