-- ===== src/Handlers/Protocol.antt =====
-- meshcore_rpc_services/handlers/base.py: what a handler is, and the reads that handlers share. The
-- context of a handler (store, gateway snapshot, aggregator) is the state of the service.
use meshcore_rpc_services.Prelude.{Option, none, some, String, ◌==◌, if◌then◌else◌}
use meshcore_rpc_services.Prelude.Int.{Fixed}
use meshcore_rpc_services.Prelude.Dict.{Dict, lookup}
use meshcore_rpc_services.Runtime.{M, Exn, rpc_error, crash, or_raise}
use meshcore_rpc_services.Schemas.{Request, Response}
use meshcore_rpc_services.Value.{Json, text?, number?}

pub record Handler : Type 0 where
  pub type : String
  pub handle : Request → M Response

-- `raise RpcError(code, message)`
abbrev pub refuse : String → String → Exn
refuse code message = rpc_error (record { code = code; message = message })

-- The text, unless it is missing or empty.
abbrev pub nonempty_or : String → Option String → String
nonempty_or d none = d
nonempty_or d (some s) = if s == "" then d else s

-- `args["node"]`, or the requester where it is missing, no text, or empty.
unfoldable pub target_of : Request → String
target_of request = nonempty_or request.from_ (text? (lookup "node" request.args))

-- `d[key]`
abbrev pub item : String → Dict Json → M Json
item key d = or_raise (lookup key d) (crash "KeyError")

-- A number where the code computes with it.
abbrev pub as_number : Json → M Fixed
as_number x = or_raise (number? (some x)) (crash "TypeError")
