-- ===== src/Transport/Adapter.antt =====
-- meshcore_rpc_services/transport/adapter.py: from a message to a request, or to an error response.
pub mod Cases
use meshcore_rpc_services.Prelude.{
  Bool, true, false, not, ◌||◌, Option, none, some, List, [], ◌∷◌, String, or_else, if◌then◌else◌,
}
use meshcore_rpc_services.Prelude.Int.{ℤ}
use meshcore_rpc_services.Prelude.Dict.{Dict, lookup}
use meshcore_rpc_services.Errors
use meshcore_rpc_services.Schemas.{Request, Response, make_error, to_json}
use meshcore_rpc_services.Schemas.Validate.{model_validate}
use meshcore_rpc_services.Value.{Json, null, str, obj, entries, truthy?}

-- What the adapter takes from Python and pydantic: `json.loads` of a decoded payload (`none` stands
-- for a JSONDecodeError), pydantic's reading of an int, and `str(x)`.
pub record Codec : Type 0 where
  pub loads : String → Option Json
  pub lax_int : Json → Option ℤ
  pub py_str : Json → String

pub record InboundEnvelope : Type 0 where
  pub request : Option Request
  pub error_response : Option Response
  pub source_topic : String

module _ (c : Codec) where
  abbrev str_or_unknown : Option Json → String
  str_or_unknown x = if truthy? x then c.py_str (or_else x null) else "unknown"

  abbrev pub bad_request_response : Dict Json → Response
  bad_request_response d =
      make_error (c.py_str (or_else (lookup "id" d) null)) (str_or_unknown (lookup "type" d))
        (c.py_str (or_else (lookup "from" d) null)) Errors.bad_request
        "Request payload failed validation"

  abbrev pub bad_request_for : Dict Json → Option Response
  bad_request_for d =
      if not (truthy? (lookup "id" d)) || not (truthy? (lookup "from" d))
      then none
      else some (bad_request_response d)

  -- `_try_build_bad_request_response`
  unfoldable pub try_build_bad_request_response : Json → Option Response
  try_build_bad_request_response (obj fs) = bad_request_for (entries fs)
  try_build_bad_request_response _ = none

  abbrev envelope : String → Option Request → Option Response → InboundEnvelope
  envelope topic request error_response = record {
    request = request;
    error_response = error_response;
    source_topic = topic;
  }

  unfoldable pub validated : String → Json → Option Request → InboundEnvelope
  validated topic value (some request) = envelope topic (some request) none
  validated topic value none = envelope topic none (try_build_bad_request_response value)

  unfoldable pub decoded : String → Option Json → InboundEnvelope
  unfolding validated
  decoded topic none = envelope topic none none
  decoded topic (some value) = validated topic value (model_validate c.lax_int value)

  unfoldable pub inbound_to_request : String → String → InboundEnvelope
  unfolding decoded
  inbound_to_request topic raw = decoded topic (c.loads raw)

-- `response_to_outbound`, up to the text of the payload.
unfoldable pub response_to_outbound : Response → String × Json
response_to_outbound response = (response.to, to_json response)
