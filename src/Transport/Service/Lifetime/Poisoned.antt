-- ===== src/Transport/Service/Lifetime/Poisoned.antt =====
-- A status of the gateway that is no JSON object ends the service.
use meshcore_rpc_services.Prelude.{
  ◌≡◌, refl, ap, ◌∙◌, Bool, true, false, Option, some, List, [], ◌∷◌, String, ◌==◌,
}
use mathlib.Core.Path.{fun_ext}
use meshcore_rpc_services.Config.{BaseLocationConfig, init_base_location}
use meshcore_rpc_services.Core.Answers.{calm}
use meshcore_rpc_services.Router.{Router}
use meshcore_rpc_services.Runtime.{
  World, Exn, Result, ok, err, crash, M, pure, raise, attempt, finally, ◌>>=◌, ◌>>◌,
}
use meshcore_rpc_services.Timeouts.Policy.{TimeoutPolicy}
use meshcore_rpc_services.Topics
use meshcore_rpc_services.Transport.Adapter.{Codec}
use meshcore_rpc_services.Transport.Bus.{maybe_cache, cache_decoded}
use meshcore_rpc_services.Transport.Service.Events.{GatewayEvent, Vcgencmd, publish_health}
use meshcore_rpc_services.Transport.Service.Lifetime.{
  Received, finally_do, connect, consume_all, consume_loop, go_on, Turn, incoming, InFlight,
  say_stopped, serve, run,
}
use meshcore_rpc_services.Transport.Service.Lifetime.Idling.{Idle}
use meshcore_rpc_services.Transport.Service.Lifetime.Stopping.{
  after_returned, go_on-ok, Runs-publish_health, Runs-init_from, connected_first,
}
use meshcore_rpc_services.Value.{Json, null, bool, int, float, str, arr, obj}

-- `isinstance(x, dict)`
abbrev pub is_dict : Json → Bool
is_dict (obj fs) = true
is_dict _ = false

-- Nothing comes, and this exception ends the loop.
abbrev pub ended_by : Exn → Received
ended_by e = record { turns = []; ended = some e }

abbrev pub no_get : Exn
no_get = crash "AttributeError"

undecodable :
    (x : Json) (w : World) → is_dict x ≡ false → cache_decoded (some x) w ≡ (err no_get, w)
unfolding cache_decoded raise
undecodable null w h = refl
undecodable (bool b) w h = refl
undecodable (int z) w h = refl
undecodable (float y) w h = refl
undecodable (str s) w h = refl
undecodable (arr xs) w h = refl
undecodable (obj fs) w h = cc

say_stopped-ok :
    (ran : Vcgencmd) (in_flight : InFlight) (w : World) → (say_stopped ran in_flight w).0 ≡ ok tt
unfolding say_stopped ◌>>=◌ attempt
say_stopped-ok ran in_flight w =
    rw (go_on-ok in_flight.before_stopped w) (go_on-ok in_flight.before_closed _)

module _ (c : Codec) (router : Router) (policy : TimeoutPolicy)
    (read_event : String → Option GatewayEvent) (base : BaseLocationConfig)
    (ran_first ran_last : Vcgencmd) (in_flight : InFlight) where
  poisoned_loop :
      (payload : String) (x : Json) (rest : List Turn) (ended : Option Exn) (w : World)
      → (payload == "") ≡ false
      → c.loads payload ≡ some x
      → is_dict x ≡ false
      → consume_loop c router policy read_event
          (record { turns = incoming Topics.gateway_status payload ∷ rest; ended = ended })
          w
        ≡ consume_loop c router policy read_event (ended_by no_get) w
  unfolding consume_loop consume_all maybe_cache ◌>>=◌ raise pure
  poisoned_loop payload x rest ended w named loaded plain =
      rw (named, loaded) (rw (undecodable x w plain) refl)

  ended_loop :
      (e : Exn) (w : World)
      → (finally_do
          (consume_loop c router policy read_event (ended_by e))
          (say_stopped ran_last in_flight)
          w).0
        ≡ err e
  unfolding finally_do consume_loop consume_all ◌>>=◌ pure raise
  ended_loop e w = rw (say_stopped-ok ran_last in_flight w) refl

  ended_serve :
      (e : Exn) (w : World)
      → Idle true w
      → (serve c router policy read_event base ran_first ran_last (ended_by e) in_flight w).0
        ≡ err e
  unfolding serve
  ended_serve e w h =
      let raised = λ (o : Result Unit × World). o.0 ≡ err e in
      after_returned raised (publish_health ran_first "running") _ w
        (Runs-publish_health ran_first "running") h
        (λ a v k.
          after_returned raised (init_base_location base) _ v (Runs-init_from base.source base) k
            (λ b u l. ended_loop e u))

  same_serve :
      (payload : String) (x : Json) (rest : List Turn) (ended : Option Exn)
      → (payload == "") ≡ false
      → c.loads payload ≡ some x
      → is_dict x ≡ false
      → serve c router policy read_event base ran_first ran_last
          (record { turns = incoming Topics.gateway_status payload ∷ rest; ended = ended })
          in_flight
        ≡ serve c router policy read_event base ran_first ran_last (ended_by no_get) in_flight
  unfolding serve
  same_serve payload x rest ended named loaded plain =
      ap
        (λ (loop : M Unit). do
          publish_health ran_first "running"
          init_base_location base
          finally_do loop (say_stopped ran_last in_flight))
        (fun_ext (λ w. poisoned_loop payload x rest ended w named loaded plain))

  ended_run :
      (e : Exn) (w : World)
      → (run c router policy read_event base ran_first ran_last (ended_by e) in_flight (calm w)).0
        ≡ err e
  unfolding run finally_do finally
  ended_run e w =
      rw
        (connected_first
          (serve c router policy read_event base ran_first ran_last (ended_by e) in_flight) w)
        (rw (go_on-ok in_flight.awaited _) (ended_serve e _ (refl, refl)))

  -- A non-empty payload on the status topic that is JSON and no object, as the first message that the
  -- service receives: whatever comes after it, the service does the same as if nothing came, and
  -- where the awaited calls are performed at once, `run` raises AttributeError.
  pub run-poisoned :
      (payload : String) (x : Json) (rest : List Turn) (ended : Option Exn) (w : World)
      → (payload == "") ≡ false
      → c.loads payload ≡ some x
      → is_dict x ≡ false
      → let received : Received = record {
        turns = incoming Topics.gateway_status payload ∷ rest;
        ended = ended;
      } in
        (run c router policy read_event base ran_first ran_last received in_flight
          ≡ run c router policy read_event base ran_first ran_last (ended_by no_get) in_flight)
        × ((run c router policy read_event base ran_first ran_last received in_flight (calm w)).0
            ≡ err no_get)
  unfolding run
  run-poisoned payload x rest ended w named loaded plain =
      let same =
        ap (λ body. finally_do (connect body) (go_on in_flight.awaited))
          (same_serve payload x rest ended named loaded plain) in
      (same, ap (λ m. (m (calm w)).0) same ∙ ended_run no_get w)
