-- ===== src/Core/Replies.antt =====
-- Every response of the pipeline with the default handlers is a reply to its request.
use meshcore_rpc_services.Prelude.{
  ◌≡◌, refl, sym, subst, ◌⊎◌, inl, inr, Bool, true, false, Option, none, some, String, any, format,
  if◌then◌else◌,
}
use meshcore_rpc_services.Prelude.Int.{ℤ, show_int}
use meshcore_rpc_services.Prelude.Dict.{Dict}
use meshcore_rpc_services.Core.Answers.{Answer, answer, answer_of, routed, started}
use meshcore_rpc_services.Geo.{Platform}
use meshcore_rpc_services.Handlers.{default_handlers}
use meshcore_rpc_services.Handlers.Protocol.{Handler}
use meshcore_rpc_services.Handlers.Replying.{Answers, HandlerAnswers, default_handlers-Answers}
use meshcore_rpc_services.Router
use meshcore_rpc_services.Router.{Router}
use meshcore_rpc_services.Router.Registered.{resolve-All}
use meshcore_rpc_services.Runtime.{World, Result, ok, err, rpc_error, crash, M, timeout_error}
use meshcore_rpc_services.Runtime.Yields.{
  Yields, Yields-if, Yields-raise, Yields-bind, Yields-finally,
}
use meshcore_rpc_services.Schemas.{
  Request, Response, ErrorBody, schema_version, ok_response, make_error,
}
use meshcore_rpc_services.Store.Requests.{has_key}
use meshcore_rpc_services.Tracker.{run_with_timeout}
use meshcore_rpc_services.Value.{Json}

-- A success: a body and no error.
pub record IsSuccess (r : Response) : Type 0 where
  pub status : r.status ≡ "ok"
  pub body : (d : Dict Json) × (r.body ≡ some d)
  pub no_error : r.error ≡ none

-- A failure: an error and no body.
pub record IsFailure (r : Response) : Type 0 where
  pub status : r.status ≡ "error"
  pub no_body : r.body ≡ none
  pub error : (e : ErrorBody) × (r.error ≡ some e)

pub record IsReply (request : Request) (r : Response) : Type 0 where
  pub version : r.v ≡ schema_version
  pub id : r.id ≡ request.id
  pub type : r.type ≡ request.type
  pub addressee : r.to ≡ request.from_
  pub outcome : IsSuccess r ⊎ IsFailure r

module _ (request : Request) where
  pub make_error-IsReply :
      (code message : String)
      → IsReply request (make_error request.id request.type request.from_ code message)
  unfolding make_error
  make_error-IsReply code message = record {
    version = refl;
    id = refl;
    type = refl;
    addressee = refl;
    outcome = inr (record {
      status = refl;
      no_body = refl;
      error = (record { code = code; message = message }, refl);
    });
  }

  success-IsReply : (body : Dict Json) → IsReply request (ok_response request body)
  unfolding ok_response
  success-IsReply body = record {
    version = refl;
    id = refl;
    type = refl;
    addressee = refl;
    outcome = inl (record { status = refl; body = (body, refl); no_error = refl });
  }

  run_with_timeout-Yields :
      (m : M Response) (ttl : ℤ)
      → Yields (Answers request) m
      → Yields (IsReply request) (run_with_timeout m ttl)
  unfolding run_with_timeout
  run_with_timeout-Yields m ttl k = Yields-bind _ _ (λ _. Yields-finally _ _ (
      Yields-if _ _ _ (Yields-raise timeout_error)
        (Yields-finally _ _ (Yields-bind _ _ (λ _. replied)))))
    where
      replied : Yields (IsReply request) m
      replied = record {
        at = λ w a e.
            let (body, same) = k.at w a e in
            subst (IsReply request) (sym same) (success-IsReply body);
      }

  answer_of-IsReply :
      (ttl : ℤ) (r : Result Response)
      → ((resp : Response) → r ≡ ok resp → IsReply request resp)
      → IsReply request (answer_of request ttl r).response
  unfolding format show_int
  answer_of-IsReply ttl (ok resp) replied = replied resp refl
  answer_of-IsReply ttl (err timeout_error) replied = make_error-IsReply _ _
  answer_of-IsReply ttl (err (rpc_error e)) replied = make_error-IsReply _ _
  answer_of-IsReply ttl (err (crash name)) replied = make_error-IsReply _ _

  module _ (p : Platform) (router : Router)
      (made : Router.make (default_handlers p) ≡ some router) where
    pub handled-IsReply :
        (h : Handler) (ttl : ℤ)
        → Router.resolve request.type router ≡ some h
        → Yields (IsReply request) (run_with_timeout (h.handle request) ttl)
    handled-IsReply h ttl found = run_with_timeout-Yields (h.handle request) ttl (
        resolve-All HandlerAnswers (default_handlers p) router request.type h made
          (default_handlers-Answers p) found request)

    routed-IsReply :
        (ttl : ℤ) (w : World) (o : Option Handler)
        → Router.resolve request.type router ≡ o
        → IsReply request (routed request ttl w o).response
    unfolding format
    routed-IsReply ttl w none e = make_error-IsReply _ _
    routed-IsReply ttl w (some h) e =
        answer_of-IsReply ttl _ ((handled-IsReply h ttl e).at (started request ttl w))

    if-IsReply :
        (b : Bool) (x y : Answer)
        → IsReply request x.response
        → IsReply request y.response
        → IsReply request (if b then x else y).response
    if-IsReply true x y hx hy = hx
    if-IsReply false x y hx hy = hy

    -- The answer that is described in Core/Answers.antt is a reply too.
    pub answer-IsReply :
        (ttl : ℤ) (w : World) → IsReply request (answer request router ttl w).response
    answer-IsReply ttl w =
        if-IsReply (any (has_key request.id request.from_) w.db.requests) _ _
          (make_error-IsReply _ _) (routed-IsReply ttl w _ refl)
