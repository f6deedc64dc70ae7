-- ===== src/Schemas.antt =====
-- meshcore_rpc_services/schemas.py: requests, responses, and the JSON object that a response is.
pub mod Validate
pub mod RoundTrip
use meshcore_rpc_services.Prelude.{
  ℕ, ◌≡◌, refl, Bool, true, Option, none, some, List, [], ◌∷◌, ◌++◌, String,
}
use meshcore_rpc_services.Prelude.Int.{ℤ, pos}
use meshcore_rpc_services.Prelude.Dict.{Dict}
use meshcore_rpc_services.Value.{Json, null, int, str, obj, of_entries, opt_int}

abbrev pub schema_version : ℤ
schema_version = pos 1

pub record Request : Type 0 where
  pub v : ℤ
  pub id : String
  pub type : String
  pub from_ : String
  pub ttl : Option ℤ
  pub args : Dict Json

pub record ErrorBody : Type 0 where
  pub code : String
  pub message : String

pub record Response : Type 0 where
  pub v : ℤ
  pub id : String
  pub type : String
  pub to : String
  pub status : String
  pub body : Option (Dict Json)
  pub error : Option ErrorBody

-- `Response.ok`
unfoldable pub ok_response : Request → Dict Json → Response
ok_response request body = record {
  v = schema_version;
  id = request.id;
  type = request.type;
  to = request.from_;
  status = "ok";
  body = some body;
  error = none;
}

-- `Response.make_error`
unfoldable pub make_error : String → String → String → String → String → Response
make_error request_id request_type to code message = record {
  v = schema_version;
  id = request_id;
  type = request_type;
  to = to;
  status = "error";
  body = none;
  error = some (record { code = code; message = message });
}

abbrev body_entry : Option (Dict Json) → Dict Json
body_entry none = []
body_entry (some d) = ("body", obj (of_entries d)) ∷ []

abbrev error_entry : Option ErrorBody → Dict Json
error_entry none = []
error_entry (some e) =
    ("error", obj (of_entries (("code", str e.code) ∷ ("message", str e.message) ∷ []))) ∷ []

-- `Response.to_json`, up to the text: `exclude_none` drops the fields of the model that are `None`
-- (the entries of `body` are kept as they are).
unfoldable pub to_json : Response → Json
to_json r = obj (
    of_entries (
      ("v", int r.v)
      ∷ ("id", str r.id)
      ∷ ("type", str r.type)
      ∷ ("to", str r.to)
      ∷ ("status", str r.status)
      ∷ (body_entry r.body ++ error_entry r.error)))

-- `request.model_dump_json(by_alias=True)`, up to the text.
unfoldable pub dump_request : Request → Json
dump_request r = obj (
    of_entries (
      ("v", int r.v)
      ∷ ("id", str r.id)
      ∷ ("type", str r.type)
      ∷ ("from", str r.from_)
      ∷ ("ttl", opt_int r.ttl)
      ∷ ("args", obj (of_entries r.args))
      ∷ []))
