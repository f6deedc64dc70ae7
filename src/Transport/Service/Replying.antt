-- ===== src/Transport/Service/Replying.antt =====
-- What the service publishes while it processes a request, whatever fails and whenever the time runs out.
use meshcore_rpc_services.Prelude.{
  ◌≡◌, refl, sym, ap, ◌∙◌, ◌⊎◌, inl, inr, Bool, true, false, Option, none, some, List, [], ◌∷◌,
  ◌++◌, String, ◌==◌, All, All-append, if◌then◌else◌,
}
use mathlib.Core.List.{append_assoc, append-nil}
use meshcore_rpc_services.Prelude.Int.{ℤ, Fixed}
use meshcore_rpc_services.Core.{process_request}
use meshcore_rpc_services.Core.Replies.{IsReply, make_error-IsReply, handled-IsReply}
use meshcore_rpc_services.Core.Rules.{process_request-Replies}
use meshcore_rpc_services.Geo.{Platform}
use meshcore_rpc_services.Handlers.{default_handlers}
use meshcore_rpc_services.Handlers.Keeping.{HandlerKeeps, default_handlers-Keeps}
use meshcore_rpc_services.Router
use meshcore_rpc_services.Router.{Router}
use meshcore_rpc_services.Router.Registered.{resolve-All}
use meshcore_rpc_services.Runtime.{World, Message, crash, or_raise, pure, raise, ◌>>=◌}
use meshcore_rpc_services.Runtime.Calls.{
  write, publish, send, message, record_received, record_event, record_completion,
}
use meshcore_rpc_services.Runtime.Keeps.{
  Keeps, Keeps-perform, Keeps-bind, Keeps-gets, Keeps-if, Keeps-raise,
}
use meshcore_rpc_services.Runtime.Stable.{IsStable, Keeps-mark_node_seen}
use meshcore_rpc_services.Schemas.{Request, Response, to_json}
use meshcore_rpc_services.Store.Rows.{Db}
use meshcore_rpc_services.Timeouts.Policy.{TimeoutPolicy}
use meshcore_rpc_services.Topics
use meshcore_rpc_services.Tracker.Rules.{Keeps-run_with_timeout}
use meshcore_rpc_services.Transport.Adapter.{response_to_outbound}
use meshcore_rpc_services.Transport.Service.{emit}

-- The message carries a reply to the request, to the topic of its sender.
pub record CarriesReply (request : Request) (m : Message) : Type 0 where
  pub response : Response
  pub reply : IsReply request response
  pub payload : m.payload ≡ to_json response
  pub topic : Topics.rpc_response_topic request.from_ ≡ some m.topic
  pub retain : m.retain ≡ false

-- Retained state, or a reply.
abbrev pub IsAnswer : Request → Message → Type 0
IsAnswer request m = (m.retain ≡ true) ⊎ CarriesReply request m

-- To `ms` only answers were added.
abbrev pub Answered : List Message → Request → World → Type 0
Answered ms request w =
    (added : List Message) × (w.published ≡ ms ++ added) × All (IsAnswer request) added

module _ (ms : List Message) (request : Request) where
  added-Answered :
      (w : World) (m : Message)
      → IsAnswer request m
      → Answered ms request w
      → Answered ms request (record w { published = w.published ++ m ∷ [] })
  added-Answered w m here (added, same, all) = (
    added ++ m ∷ [],
    ap (λ l. l ++ m ∷ []) same ∙ append_assoc ms added (m ∷ []),
    All-append (IsAnswer request) added (m ∷ []) all (here, tt),
  )

  Answered-IsStable : IsStable (Answered ms request)
  Answered-IsStable = record {
    tick = λ w t o rest e h. h;
    tables = λ w db same h. h;
    radio = λ w r h. h;
    retained = λ w topic payload h. added-Answered w (message topic payload true) (inl refl) h;
  }

  Keeps-message-Answered :
      (r : Response) (topic : String)
      → IsReply request r
      → Topics.rpc_response_topic request.from_ ≡ some topic
      → Keeps (Answered ms request) (publish topic (to_json r) false)
  unfolding publish send
  Keeps-message-Answered r topic good e = Keeps-bind _ _ (Keeps-gets _) (λ connected.
      Keeps-if connected _ _
        (Keeps-perform _ Answered-IsStable.tick (λ w h.
          added-Answered w (message topic (to_json r) false)
            (inr (record { response = r; reply = good; payload = refl; topic = e; retain = refl }))
            h))
        (Keeps-raise _))

  Keeps-publish-Answered :
      (r : Response) (o : Option String)
      → IsReply request r
      → Topics.rpc_response_topic request.from_ ≡ o
      → Keeps
          (Answered ms request)
          (or_raise o (crash "ValueError") >>= λ topic. publish topic (to_json r) false)
  unfolding or_raise raise pure ◌>>=◌
  Keeps-publish-Answered r none good e = record { at = λ w h. h }
  Keeps-publish-Answered r (some topic) good e = record {
    at = λ w h. (Keeps-message-Answered r topic good e).at w h;
  }

  same_topic : (b : Bool) (s t : String) → s ≡ t → (if b then t else s) ≡ t
  same_topic true s t e = refl
  same_topic false s t e = e

  Keeps-emit-Answered :
      (r : Response) → IsReply request r → Keeps (Answered ms request) (emit request.from_ r)
  unfolding emit response_to_outbound
  Keeps-emit-Answered r good = Keeps-publish-Answered r _ good (
      sym
        (ap Topics.rpc_response_topic (same_topic (r.to == "") r.to request.from_ good.addressee)))

  Keeps-write-Answered :
      (statement : Fixed → Db → Db) → Keeps (Answered ms request) (write statement)
  unfolding write
  Keeps-write-Answered statement = Keeps-perform _ Answered-IsStable.tick (λ w h. h)

  Keeps-record_received-Answered :
      (ttl : ℤ) → Keeps (Answered ms request) (record_received request ttl)
  unfolding record_received
  Keeps-record_received-Answered ttl = Keeps-perform _ Answered-IsStable.tick (λ w h. h)

  module _ (p : Platform) (router : Router)
      (made : Router.make (default_handlers p) ≡ some router) where
    Keeps-process_request-Answered :
        (policy : TimeoutPolicy)
        → Keeps (Answered ms request) (process_request emit request router policy)
    unfolding record_event record_completion
    Keeps-process_request-Answered policy =
        process_request-Replies {Good = IsReply request}
          (record {
            received = Keeps-record_received-Answered;
            event = λ s d. Keeps-write-Answered _;
            seen = Keeps-mark_node_seen Answered-IsStable request.from_;
            emitted = Keeps-emit-Answered;
            succeeded = λ r x. Keeps-write-Answered _;
            failed = λ r x. Keeps-write-Answered _;
            refusal = make_error-IsReply request;
            handled = λ h ttl found.
                Keeps-run_with_timeout _ ttl
                  (resolve-All (HandlerKeeps (Answered ms request)) (default_handlers p) router
                    request.type h made (default_handlers-Keeps Answered-IsStable p) found request)
                  (λ w n v. v) (λ w x v. v);
            answered = handled-IsReply request p router made;
          })
          policy

-- Whatever awaited calls fail, also the first insertion, and whenever the time of the handler runs out:
-- everything that the service publishes while it processes a request with the default handlers is
-- retained state or a reply to this request, on the response topic of its sender. A reply carries the
-- version, the id and the type of the request and is addressed to its sender; it is either "ok" with
-- a body and without an error, or "error" without a body and with an error.
pub process_request-IsAnswer :
    (p : Platform) (router : Router)
    → Router.make (default_handlers p) ≡ some router
    → (request : Request) (policy : TimeoutPolicy) (w : World)
    → (added : List Message) × ((process_request emit request router policy w).1.published
        ≡ w.published ++ added)
      × All (IsAnswer request) added
process_request-IsAnswer p router made request policy w =
    (Keeps-process_request-Answered w.published request p router made policy).at w
      ([], sym (append-nil w.published), tt)
