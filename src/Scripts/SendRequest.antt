-- ===== src/Scripts/SendRequest.antt =====
-- scripts/send_request.py: a request is published, and a response to it is waited for. The broker's client
-- is paho's: what arrives in time on the subscribed topic is an argument.
use meshcore_rpc_services.Prelude.{
  ℕ, Bool, false, Option, none, some, List, [], ◌∷◌, String, ◌==◌, format, if◌then◌else◌,
}
use meshcore_rpc_services.Prelude.Int.{ℤ, pos}
use meshcore_rpc_services.Prelude.Dict.{lookup}
use meshcore_rpc_services.Runtime.{Result, ok, err, crash}
use meshcore_rpc_services.Value.{Json, int, str, obj, entries, of_entries}

-- The options of the command line; `from_` has a default of its own.
pub record Options : Type 0 where
  pub type : String
  pub from_ : String
  pub id : Option String
  pub ttl : ℤ
  pub args : String

abbrev pub rpc_request_topic : String
rpc_request_topic = "mc/rpc/req"

abbrev pub rpc_response_prefix : String
rpc_response_prefix = "mc/rpc/resp"

-- `opts.id or uuid.uuid4().hex[:8]`
abbrev pub id_or : Option String → String → String
id_or none fresh = fresh
id_or (some id) fresh = if id == "" then fresh else id

abbrev pub request_of : Options → String → Json → Json
request_of opts req_id args_obj = obj (
    of_entries (
      ("v", int (pos 1))
      ∷ ("id", str req_id)
      ∷ ("type", str opts.type)
      ∷ ("from", str opts.from_)
      ∷ ("ttl", int opts.ttl)
      ∷ ("args", args_obj)
      ∷ []))

unfoldable pub response_topic : Options → String
unfolding format
response_topic opts = format (rpc_response_prefix ∷ "/" ∷ opts.from_ ∷ [])

-- How the program ends: by exit code 2, by code 0 with a response, or by code 1.
pub data Exit : Type 0 where
  bad_args no_response : Exit
  answered : Json → Exit

abbrev pub exit_code : Exit → ℕ
exit_code bad_args = 2
exit_code (answered body) = 0
exit_code no_response = 1

-- `body.get("id") == req_id`
abbrev pub names : String → Option Json → Bool
names req_id (some (str id)) = id == req_id
names req_id _ = false

module _ (loads : String → Option Json) where
  -- A message by `on_message`: the response that it is, none where it is passed over. What is no
  -- dict has no `get`.
  abbrev on_body : String → Option Json → Result (Option Json)
  on_body req_id none = ok none
  on_body req_id (some (obj fs)) =
      ok (if names req_id (lookup "id" (entries fs)) then some (obj fs) else none)
  on_body req_id (some _) = err (crash "AttributeError")

  unfoldable pub on_message : String → String → Result (Option Json)
  on_message req_id payload = on_body req_id (loads payload)

  -- The first response ends the connection, and an exception ends the thread that receives.
  abbrev received : Result (Option Json) → Option Json → Option Json
  received (ok none) later = later
  received (ok (some body)) later = some body
  received (err e) later = none

  unfoldable pub wait_for_response : String → List String → Option Json
  unfolding on_message
  wait_for_response req_id [] = none
  wait_for_response req_id (payload ∷ arriving) =
      received (on_message req_id payload) (wait_for_response req_id arriving)

  abbrev exit_of : Option Json → Exit
  exit_of none = no_response
  exit_of (some body) = answered body

  abbrev pub asked : Options → String → List String → Option Json → Option Json × Exit
  asked opts req_id arriving none = (none, bad_args)
  asked opts req_id arriving (some args_obj) =
      (some (request_of opts req_id args_obj), exit_of (wait_for_response req_id arriving))

  -- `main`, with the request that it publishes, if it does.
  unfoldable pub main : Options → String → List String → Option Json × Exit
  unfolding wait_for_response
  main opts fresh arriving = asked opts (id_or opts.id fresh) arriving (loads opts.args)
