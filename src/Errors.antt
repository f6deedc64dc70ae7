-- ===== src/Errors.antt =====
-- meshcore_rpc_services/errors.py: the codes of error responses.
use meshcore_rpc_services.Prelude.{String}

abbrev pub bad_request : String
bad_request = "bad_request"

abbrev pub unknown_type : String
unknown_type = "unknown_type"

abbrev pub duplicate : String
duplicate = "duplicate"

abbrev pub timeout : String
timeout = "timeout"

abbrev pub internal : String
internal = "internal"

abbrev pub stale : String
stale = "stale"

abbrev pub unavailable : String
unavailable = "unavailable"

-- `RpcError`, which a handler raises for a controlled error response.
pub record RpcError : Type 0 where
  pub code : String
  pub message : String
