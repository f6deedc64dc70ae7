-- ===== src/Scripts/Exchange.antt =====
-- The program of scripts/send_request.py against the service.
use meshcore_rpc_services.Prelude.{
  ◌≡◌, refl, ap, subst, ◌∙◌, Bool, true, false, Option, none, some, List, [], ◌∷◌, ◌++◌, String,
  ◌==◌, All, eq_refl, eq_iff, Bool-cases, inl, inr,
}
use meshcore_rpc_services.Prelude.Int.{ℤ, pos}
use meshcore_rpc_services.Prelude.Dict.{lookup}
use meshcore_rpc_services.Core.{process_request}
use meshcore_rpc_services.Core.Answers.{calm, answer}
use meshcore_rpc_services.Core.Replies.{answer-IsReply}
use meshcore_rpc_services.Geo.{Platform}
use meshcore_rpc_services.Handlers.{default_handlers}
use meshcore_rpc_services.Router
use meshcore_rpc_services.Router.{Router}
use meshcore_rpc_services.Runtime.{World, ok}
use meshcore_rpc_services.Runtime.Calls.{message}
use meshcore_rpc_services.Schemas.{Request, Response, to_json, dump_request}
use meshcore_rpc_services.Schemas.Validate.{IsValid, in_bounds}
use meshcore_rpc_services.Schemas.RoundTrip.{model_validate-dump_request}
use meshcore_rpc_services.Scripts.SendRequest.{
  Options, answered, main, id_or, request_of, response_topic, wait_for_response, on_message,
  asked as asked_with, rpc_request_topic,
}
use meshcore_rpc_services.Timeouts.Policy.{TimeoutPolicy, resolve}
use meshcore_rpc_services.Topics
use meshcore_rpc_services.Transport.Adapter.{Codec, inbound_to_request}
use meshcore_rpc_services.Transport.Service.{handle_one, on_envelope, emit}
use meshcore_rpc_services.Transport.Service.Events.{GatewayEvent, consume}
use meshcore_rpc_services.Transport.Service.Delivery.{sent, carried}
use meshcore_rpc_services.Transport.Service.Responses.{process_request-sends}
use meshcore_rpc_services.Value.{Json, int, obj, Fields, entries, of_entries-entries}

-- The request that some options stand for.
abbrev pub meant : Options → String → Fields → Request
meant opts req_id args = record {
  v = pos 1;
  id = req_id;
  type = opts.type;
  from_ = opts.from_;
  ttl = some opts.ttl;
  args = entries args;
}

dumped :
    (opts : Options) (req_id : String) (args : Fields)
    → request_of opts req_id (obj args) ≡ dump_request (meant opts req_id args)
unfolding dump_request
dumped opts req_id args = rw (of_entries-entries args) refl

-- What the adapter makes of the payload.
understood :
    (c : Codec) (opts : Options) (req_id topic payload : String) (args : Fields)
    → ((z : ℤ) → c.lax_int (int z) ≡ some z)
    → IsValid (meant opts req_id args)
    → c.loads payload ≡ some (request_of opts req_id (obj args))
    → (inbound_to_request c topic payload).request ≡ some (meant opts req_id args)
unfolding inbound_to_request
understood c opts req_id topic payload args reads valid loaded =
    rw
      (
        loaded,
        dumped opts req_id args,
        model_validate-dump_request c.lax_int reads (meant opts req_id args) valid,
      )
      refl

-- What the program makes of a response that names its request.
recognised :
    (loads : String → Option Json) (req_id payload : String) (r : Response)
    → r.id ≡ req_id
    → loads payload ≡ some (to_json r)
    → on_message loads req_id payload ≡ ok (some (to_json r))
unfolding on_message to_json lookup
recognised loads req_id payload r same loaded = rw (loaded, same, eq_refl req_id) refl

waited :
    (loads : String → Option Json) (req_id payload : String) (body : Json)
    (others more : List String)
    → All (λ m. on_message loads req_id m ≡ ok none) others
    → on_message loads req_id payload ≡ ok (some body)
    → wait_for_response loads req_id (others ++ payload ∷ more) ≡ some body
unfolding wait_for_response
waited loads req_id payload body [] more passed found = rw found refl
waited loads req_id payload body (m ∷ others) more passed found =
    rw (passed.0) (waited loads req_id payload body others more passed.1 found)

nonempty : (s : String) → in_bounds s ≡ true → (s == "") ≡ false
nonempty s bounds = elim (Bool-cases (s == "")) [
  | inl empty ↦ absurd (cc (subst (λ t. in_bounds t ≡ true) ((eq_iff s "").0 empty) bounds))
  | inr named ↦ named
]

-- A response to the sender goes to the topic that the program listens to.
addressed :
    (opts : Options) (r : Response)
    → r.to ≡ opts.from_
    → in_bounds opts.from_ ≡ true
    → carried opts.from_ r true ≡ message (response_topic opts) (to_json r) false ∷ []
unfolding response_topic Topics.rpc_response_topic
addressed opts r same bounds =
    rw (same, nonempty opts.from_ bounds) (rw (nonempty opts.from_ bounds) refl)

ended :
    (loads : String → Option Json) (opts : Options) (req_id : String) (arriving : List String)
    (args_obj body : Json)
    → wait_for_response loads req_id arriving ≡ some body
    → asked_with loads opts req_id arriving (some args_obj)
      ≡ (some (request_of opts req_id args_obj), answered body)
ended loads opts req_id arriving args_obj body e = rw e refl

asked :
    (c : Codec) (router : Router) (policy : TimeoutPolicy)
    (read_event : String → Option GatewayEvent) (payload : String) (request : Request) (w : World)
    → (inbound_to_request c rpc_request_topic payload).request ≡ some request
    → consume c router policy read_event rpc_request_topic payload w
      ≡ process_request emit request router policy w
unfolding consume handle_one on_envelope
asked c router policy read_event payload request w e = rw e refl

replied :
    (opts : Options) (r : Response) (b : Bool)
    → b ≡ true
    → r.to ≡ opts.from_
    → in_bounds opts.from_ ≡ true
    → carried opts.from_ r b ≡ message (response_topic opts) (to_json r) false ∷ []
replied opts r b online same bounds = rw online (addressed opts r same bounds)

module _ (c : Codec) (p : Platform) (router : Router)
    (made : Router.make (default_handlers p) ≡ some router) (policy : TimeoutPolicy)
    (read_event : String → Option GatewayEvent) (opts : Options) (fresh : String) (args : Fields)
    (w : World) where
  abbrev pub exchanged : Request
  exchanged = meant opts (id_or opts.id fresh) args

  -- The service's response to the request.
  abbrev pub reply : Response
  reply = (answer exchanged router (resolve policy opts.type (some opts.ttl)) w).response

  -- Where the options make a valid request, `json.loads` reads back the texts of the request and of
  -- the response, an int is read as itself, and the awaited calls of the connected service are
  -- performed at once: the service answers the published request by one message on the topic that
  -- the program listens to, and the program ends by code 0 with this response, also if messages come
  -- before it that are no response to the request, and whatever comes after it.
  pub main-consume :
      (request_text response_text : String) (others more : List String)
      → c.loads opts.args ≡ some (obj args)
      → IsValid exchanged
      → ((z : ℤ) → c.lax_int (int z) ≡ some z)
      → w.connected ≡ true
      → c.loads request_text ≡ some (request_of opts exchanged.id (obj args))
      → c.loads response_text ≡ some (to_json reply)
      → All (λ m. on_message c.loads exchanged.id m ≡ ok none) others
      → (main c.loads opts fresh (others ++ response_text ∷ more)
          ≡ (some (request_of opts exchanged.id (obj args)), answered (to_json reply)))
        × (sent (consume c router policy read_event rpc_request_topic request_text (calm w)).1
            ≡ sent w ++ message (response_topic opts) (to_json reply) false ∷ [])
  unfolding main
  main-consume request_text response_text others more read valid reads online asks responds passed =
      let is_reply =
        answer-IsReply exchanged p router made (resolve policy opts.type (some opts.ttl)) w in
      (
        ap (asked_with c.loads opts exchanged.id _) read
            ∙ ended c.loads opts exchanged.id _ (obj args) (to_json reply) (
                waited c.loads exchanged.id response_text (to_json reply) others more passed
                  (recognised c.loads exchanged.id response_text reply is_reply.id responds)),
        ap (λ o. sent o.1)
              (asked c router policy read_event request_text exchanged (calm w) (
                understood c opts exchanged.id rpc_request_topic request_text args reads valid
                  asks))
            ∙ process_request-sends p router made exchanged policy w
            ∙ ap (λ l. sent w ++ l)
                (replied opts reply w.connected online is_reply.addressee valid.from_bounds),
      )
