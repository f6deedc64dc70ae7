-- ===== src/Core/Completion.antt =====
-- Every request is completed: the pipeline returns, and no row of the request is left pending.
use meshcore_rpc_services.Prelude.{
  ◌≡◌, refl, Bool, true, false, ◌&&◌, Option, none, some, List, [], ◌∷◌, String, any, map,
  Bool-cases, inl, inr,
}
use meshcore_rpc_services.Prelude.Int.{ℤ, Fixed}
use meshcore_rpc_services.Core.{
  Emitter, publish_and_finalize, emit_error_final, on_handled, dispatch, on_received,
  process_request,
}
use meshcore_rpc_services.Handlers.Protocol.{Handler}
use meshcore_rpc_services.Router.{Router}
use meshcore_rpc_services.Runtime.{World, Result, ok, err, rpc_error, timeout_error, crash}
use meshcore_rpc_services.Runtime.Calls.{record_completion}
use meshcore_rpc_services.Runtime.Total.{Ensures, Ensures-bind, Ensures-perform}
use meshcore_rpc_services.Schemas.{Request, Response}
use meshcore_rpc_services.Store.Requests
use meshcore_rpc_services.Store.Requests.{has_key, is_pending, completed}
use meshcore_rpc_services.Store.Rows.{RequestRow}
use meshcore_rpc_services.Timeouts.Policy.{TimeoutPolicy}

abbrev pub is_open : String → String → RequestRow → Bool
is_open id node_id row = has_key id node_id row && is_pending row

-- No row of the request is pending.
abbrev pub IsSettled : Request → World → Type 0
IsSettled request w = any (is_open request.id request.from_) w.db.requests ≡ false

completed_closed :
    (id node_id state : String) (response : Option Response) (code : Option String) (now : Fixed)
    (rows : List RequestRow)
    → any (is_open id node_id) (map (completed id node_id state response code now) rows) ≡ false
completed_closed id node_id state response code now [] = refl
completed_closed id node_id state response code now (row ∷ rows) =
    elim (Bool-cases (has_key id node_id row)) [
      | inl hit ↦ rw (hit, hit) (completed_closed id node_id state response code now rows)
      | inr miss ↦ rw (miss, miss) (completed_closed id node_id state response code now rows)
    ]

module _ (emit : Emitter) (request : Request) where
  Ensures-record_completion :
      (state : String) (response : Option Response) (code : Option String)
      → Ensures (IsSettled request) (record_completion request.id request.from_ state response code)
  unfolding record_completion Requests.record_completion
  Ensures-record_completion state response code =
      Ensures-perform _
        (λ w. completed_closed request.id request.from_ state response code w.clock w.db.requests)

  Ensures-publish_and_finalize :
      (response : Response) (state : String) (code : Option String)
      → Ensures (IsSettled request) (publish_and_finalize emit request response state code)
  unfolding publish_and_finalize
  Ensures-publish_and_finalize response state code =
      Ensures-bind _ _ (λ _. Ensures-record_completion state (some response) code)

  Ensures-emit_error_final :
      (code message : String)
      → Ensures (IsSettled request) (emit_error_final emit request code message)
  unfolding emit_error_final
  Ensures-emit_error_final code message = Ensures-publish_and_finalize _ _ _

  Ensures-on_handled :
      (ttl : ℤ) (r : Result Response) → Ensures (IsSettled request) (on_handled emit request ttl r)
  unfolding on_handled
  Ensures-on_handled ttl (ok resp) = Ensures-publish_and_finalize _ _ _
  Ensures-on_handled ttl (err timeout_error) = Ensures-bind _ _ (λ _. Ensures-emit_error_final _ _)
  Ensures-on_handled ttl (err (rpc_error e)) = Ensures-emit_error_final _ _
  Ensures-on_handled ttl (err (crash name)) = Ensures-emit_error_final _ _

  Ensures-dispatch :
      (ttl : ℤ) (o : Option Handler) → Ensures (IsSettled request) (dispatch emit request ttl o)
  unfolding dispatch
  Ensures-dispatch ttl none = Ensures-bind _ _ (λ _. Ensures-emit_error_final _ _)
  Ensures-dispatch ttl (some h) =
      Ensures-bind _ _ (λ _. Ensures-bind _ _ (λ r. Ensures-on_handled ttl r))

  Ensures-on_received :
      (router : Router) (ttl : ℤ) (r : Result Bool)
      → Ensures (IsSettled request) (on_received emit request router ttl r)
  unfolding on_received
  Ensures-on_received router ttl (err e) = Ensures-emit_error_final _ _
  Ensures-on_received router ttl (ok false) = Ensures-bind _ _ (λ _. Ensures-emit_error_final _ _)
  Ensures-on_received router ttl (ok true) =
      Ensures-bind _ _
        (λ _. Ensures-bind _ _ (λ now. Ensures-bind _ _ (λ _. Ensures-dispatch ttl _)))

  -- Whenever the pipeline returns, whatever failed on the way, no row of the request is pending.
  pub process_request-IsSettled :
      (router : Router) (policy : TimeoutPolicy)
      → Ensures (IsSettled request) (process_request emit request router policy)
  unfolding process_request
  process_request-IsSettled router policy = Ensures-bind _ _ (λ r. Ensures-on_received router _ r)
