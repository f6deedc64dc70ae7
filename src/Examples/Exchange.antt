-- ===== src/Examples/Exchange.antt =====
-- The theorem on the program of scripts/send_request.py, applied to a ping.
use meshcore_rpc_services.Prelude.{
  ◌≡◌, refl, false, none, some, [], ◌∷◌, ◌++◌, ◌==◌, format, if◌then◌else◌,
}
use meshcore_rpc_services.Prelude.Int.{pos, show_int}
use meshcore_rpc_services.Prelude.Dict.{lookup, contains, insert}
use meshcore_rpc_services.Core.Answers.{calm}
use meshcore_rpc_services.Examples.{platform, codec, world, router, router_made}
use meshcore_rpc_services.Handlers.{default_handlers}
use meshcore_rpc_services.Handlers.Basic.{ping}
use meshcore_rpc_services.Router
use meshcore_rpc_services.Runtime.{pure, modify, finally, ◌>>=◌}
use meshcore_rpc_services.Runtime.Calls.{message}
use meshcore_rpc_services.Schemas.{to_json, ok_response}
use meshcore_rpc_services.Scripts.SendRequest.{
  Options, main, answered, request_of, rpc_request_topic, response_topic, on_message,
}
use meshcore_rpc_services.Scripts.Exchange.{meant, reply, main-consume}
use meshcore_rpc_services.Timeouts.Policy.{default_policy, resolve}
use meshcore_rpc_services.Tracker.{run_with_timeout}
use meshcore_rpc_services.Transport.Adapter.{Codec}
use meshcore_rpc_services.Transport.Service.Delivery.{sent}
use meshcore_rpc_services.Transport.Service.Events.{consume}
use meshcore_rpc_services.Value.{Json, str, obj, end}

abbrev options : Options
options = record { type = "ping"; from_ = "n1"; id = some "r7"; ttl = pos 10; args = "{}" }

abbrev pong : Json
unfolding to_json ok_response
pong = to_json (ok_response (meant options "r7" end) (("msg", str "pong") ∷ []))

abbrev texts : Codec
texts = record codec {
  loads = λ s.
      if s == "{}"
      then some (obj end)
      else if s == "request"
      then some (request_of options "r7" (obj end))
      else if s == "response"
      then some pong
      else none;
}

main-consume_example :
    (main texts.loads options "f0" ("?" ∷ "response" ∷ []) ≡ (
      some (request_of options "r7" (obj end)),
      answered (
          to_json (
            reply texts platform router router_made default_policy
              (λ s. none)
              options
              "f0"
              end
              world)),
    ))
    × (sent
          (consume texts router default_policy
            (λ s. none)
            rpc_request_topic
            "request"
            (calm world)).1
        ≡ sent world
          ++ message
              (response_topic options)
              (to_json (
                reply texts platform router router_made default_policy
                  (λ s. none)
                  options
                  "f0"
                  end
                  world))
              false
            ∷ [])
unfolding to_json ok_response Router.resolve ping lookup run_with_timeout resolve modify finally
    pure ◌>>=◌ on_message default_handlers Router.make contains insert format show_int
main-consume_example =
    main-consume texts platform router router_made default_policy (λ s. none) options "f0" end world
      "request" "response" ("?" ∷ []) [] refl
      (record { id_bounds = refl; type_bounds = refl; from_bounds = refl; ttl_bound = refl })
      (λ z. refl) refl refl refl (refl, tt)
