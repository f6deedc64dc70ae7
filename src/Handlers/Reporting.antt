-- ===== src/Handlers/Reporting.antt =====
-- A location that a node reports is the location that is asked for afterwards.
use meshcore_rpc_services.Prelude.{true, Option, none, [], ◌∷◌, String, format}
use meshcore_rpc_services.Prelude.Int.{Fixed, age_of}
use meshcore_rpc_services.Prelude.Dict.{Dict, lookup}
use meshcore_rpc_services.Errors
use meshcore_rpc_services.Handlers.Protocol.{target_of, refuse}
use meshcore_rpc_services.Runtime.{M, ◌>>=◌, pure, or_raise, time}
use meshcore_rpc_services.Schemas.{Request, Response, ok_response}
use meshcore_rpc_services.State.{apply_location}
use meshcore_rpc_services.Store.Nodes
use meshcore_rpc_services.Store.Rows.{LocationFix, LocationRow}
use meshcore_rpc_services.Value.{Json, bool, float, str, int, number?, integer?}

-- What `node.location` answers where the row is stored.
abbrev location_body : String → LocationRow → Fixed → Dict Json
location_body node row now =
    ("node", str node)
    ∷ ("lat", float row.lat)
    ∷ ("lon", float row.lon)
    ∷ ("ts", float row.ts)
    ∷ ("age_s", int (age_of now row.ts))
    ∷ []

abbrev located : Request → Option LocationRow → M Response
located q o =
    or_raise o (refuse Errors.unavailable (format ("No location for " ∷ target_of q ∷ [])))
    >>= λ loc. time >>= λ now. pure (ok_response q (location_body (target_of q) loc now))

-- The location that a report stands for.
abbrev pub reported : Request → Fixed → Fixed → Fixed → LocationFix
reported report lat lon ts = record {
  lat = lat;
  lon = lon;
  ts = ts;
  alt = number? (lookup "alt" report.args);
  acc = number? (lookup "acc" report.args);
  fix = integer? (lookup "fix" report.args);
  spd = number? (lookup "spd" report.args);
  hdg = number? (lookup "hdg" report.args);
}

abbrev pub acknowledged : Request → Fixed → Response
acknowledged report ts = ok_response report (("ack", bool true) ∷ ("ts", float ts) ∷ [])

abbrev kept : Request → Fixed → Fixed → Fixed → M Response
kept report lat lon ts =
    apply_location report.from_ (reported report lat lon ts) "report" none none >>= λ _.
    pure (acknowledged report ts)
