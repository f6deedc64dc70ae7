-- ===== src/Transport/Bus.antt =====
-- meshcore_rpc_services/transport/bus.py: the cache of the gateway's retained status. Connecting and
-- subscribing are aiomqtt's; publishing is in Runtime/Calls.antt.
use meshcore_rpc_services.Prelude.{Option, none, some, String, ◌==◌, or_else, if◌then◌else◌}
use meshcore_rpc_services.Prelude.Dict.{lookup}
use meshcore_rpc_services.Runtime.{M, pure, raise, attempt, modify, time, crash, ◌>>=◌, ◌>>◌}
use meshcore_rpc_services.Runtime.Calls.{record_gateway_snapshot}
use meshcore_rpc_services.Topics
use meshcore_rpc_services.Transport.Adapter.{Codec}
use meshcore_rpc_services.Value.{Json, null, str, obj, end, entries}

unfoldable pub cache_status : Json → Json → Json → M Unit
cache_status state detail since = do
  now ← time
  modify (λ w. record w {
    gateway = record { state = state; detail = detail; since = since; snapped_at = some now };
  })
  attempt (record_gateway_snapshot state detail since)
  pure tt

-- What follows the decoding of a status message; a value that is no dict has no `get`.
unfoldable pub cache_decoded : Option Json → M Unit
unfolding cache_status
cache_decoded none = pure tt
cache_decoded (some (obj fs)) =
    let d = entries fs in
    cache_status (or_else (lookup "state" d) (str "unknown")) (or_else (lookup "detail" d) null)
      (or_else (lookup "since" d) null)
cache_decoded (some _) = raise (crash "AttributeError")

-- `_maybe_cache`; an empty payload counts as an empty object.
unfoldable pub maybe_cache : Codec → String → String → M Unit
unfolding cache_decoded
maybe_cache c topic raw =
    if topic == Topics.gateway_status
    then cache_decoded (if raw == "" then some (obj end) else c.loads raw)
    else pure tt
