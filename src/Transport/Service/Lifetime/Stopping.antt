-- ===== src/Transport/Service/Lifetime/Stopping.antt =====
-- How the service ends.
use meshcore_rpc_services.Prelude.{
  ◌≡◌, refl, sym, ap, subst, ◌∙◌, Bool, true, false, Option, none, some, List, [], ◌∷◌, ◌++◌,
  String,
}
use mathlib.Core.List.{append_assoc, append-nil}
use meshcore_rpc_services.Prelude.Int.{Fixed}
use meshcore_rpc_services.Config.{
  BaseLocationConfig, BaseSource, static, gpsd, mqtt, init_base_location,
}
use meshcore_rpc_services.Core.Answers.{calm}
use meshcore_rpc_services.Geo.{Platform}
use meshcore_rpc_services.Handlers.{default_handlers}
use meshcore_rpc_services.Router
use meshcore_rpc_services.Router.{Router}
use meshcore_rpc_services.Runtime.{
  World, Message, Result, ok, M, pure, raise, gets, attempt, finally, modify, perform, step, time,
  ◌>>=◌, continue,
}
use meshcore_rpc_services.Runtime.Calls.{write, publish, send, message, upsert_base_state}
use meshcore_rpc_services.Runtime.Runs.{Runs, Runs-pure}
use meshcore_rpc_services.State.{apply_base_location}
use meshcore_rpc_services.Timeouts.Policy.{TimeoutPolicy}
use meshcore_rpc_services.Topics
use meshcore_rpc_services.Transport.Adapter.{Codec}
use meshcore_rpc_services.Transport.Service.Base.{init_static_base}
use meshcore_rpc_services.Transport.Service.Events.{
  GatewayEvent, Vcgencmd, power_ok, publish_health, health_payload,
}
use meshcore_rpc_services.Transport.Service.Lifetime.{
  Piece, stored, emitted, counted, run_piece, go_on, InFlight, Received, finally_do, connect,
  consume_loop, say_stopped, serve, run, disconnected,
}
use meshcore_rpc_services.Transport.Service.Lifetime.Idling.{
  Idle, Keeps-run_piece-Idle, Keeps-go_on-Idle, Keeps-consume_loop-Idle,
}

abbrev ready : Bool → World → World
ready b w = record w { script = []; connected = b }

ready_of : {b : Bool} {w : World} → Idle b w → ready b w ≡ w
ready_of h = cc (h.0, h.1)

Runs-ready :
    {A : Type 0} (m : M A)
    → ((w : World) → ((a : A) × ((m (ready true w)).0 ≡ ok a)) × Idle true (m (ready true w)).1)
    → Runs (Idle true) (Idle true) m
Runs-ready {A} m k = record {
  at = λ w h. subst (λ v. ((a : A) × ((m v).0 ≡ ok a)) × Idle true (m v).1) (ready_of h) (k w);
}

pub Runs-publish_health :
    (ran : Vcgencmd) (state : String) → Runs (Idle true) (Idle true) (publish_health ran state)
unfolding publish_health ◌>>=◌ time gets perform step publish send
Runs-publish_health ran state = Runs-ready _ (λ w. ((tt, refl), (refl, refl)))

Runs-init_static_base :
    (lat lon : Option Fixed) → Runs (Idle true) (Idle true) (init_static_base lat lon)
unfolding init_static_base apply_base_location ◌>>=◌ time gets perform step publish send pure write
    upsert_base_state
Runs-init_static_base (some lat) (some lon) = Runs-ready _ (λ w. ((tt, refl), (refl, refl)))
Runs-init_static_base (some lat) none = Runs-ready _ (λ w. ((tt, refl), (refl, refl)))
Runs-init_static_base none lon = Runs-ready _ (λ w. ((tt, refl), (refl, refl)))

pub Runs-init_from :
    (source : BaseSource) (base : BaseLocationConfig)
    → Runs (Idle true) (Idle true) (init_base_location (record base { source = source }))
unfolding init_base_location
Runs-init_from static base = Runs-init_static_base base.static_lat base.static_lon
Runs-init_from gpsd base = Runs-pure tt
Runs-init_from mqtt base = Runs-pure tt

-- What holds after an action that returns, and then another one.
pub after_returned :
    {A B : Type 0} {P R : World → Type 0} (Q : Result B × World → Type 0) (m : M A) (f : A → M B)
    (w : World)
    → Runs P R m
    → P w
    → ((a : A) (v : World) → R v → Q (f a v))
    → Q ((m >>= f) w)
unfolding ◌>>=◌
after_returned Q m f w first h k =
    let ((a, e), h') = first.at w h in
    subst (λ r. Q (continue r f (m w).1)) (sym e) (k a (m w).1 h')

-- What pieces of tasks send while the broker is connected or not.
abbrev sent_by : Bool → Piece → List Message
sent_by true (emitted topic payload retain) = message topic payload retain ∷ []
sent_by _ _ = []

abbrev pub messages_of : Bool → List Piece → List Message
messages_of b [] = []
messages_of b (piece ∷ rest) = sent_by b piece ++ messages_of b rest

silent : (pieces : List Piece) → messages_of false pieces ≡ []
silent [] = refl
silent (stored statement ∷ rest) = silent rest
silent (emitted topic payload retain ∷ rest) = silent rest
silent (counted n ∷ rest) = silent rest

published_by :
    (b : Bool) (piece : Piece) (w : World)
    → (run_piece piece (ready b w)).1.published ≡ w.published ++ sent_by b piece
unfolding run_piece publish send write modify raise gets perform step ◌>>=◌
published_by true (emitted topic payload retain) w = refl
published_by false (emitted topic payload retain) w = sym (append-nil w.published)
published_by true (stored statement) w = sym (append-nil w.published)
published_by false (stored statement) w = sym (append-nil w.published)
published_by true (counted n) w = sym (append-nil w.published)
published_by false (counted n) w = sym (append-nil w.published)

published_from :
    (b : Bool) (pieces : List Piece) (w : World)
    → Idle b w
    → (go_on pieces w).1.published ≡ w.published ++ messages_of b pieces
unfolding go_on ◌>>=◌ attempt pure
published_from b [] w h = sym (append-nil w.published)
published_from b (piece ∷ rest) w h =
    let first =
      subst (λ v. (run_piece piece v).1.published ≡ w.published ++ sent_by b piece) (ready_of h)
        (published_by b piece w) in
    published_from b rest (run_piece piece w).1 ((Keeps-run_piece-Idle b piece).at w h)
    ∙ ap (λ l. l ++ messages_of b rest) first
    ∙ append_assoc w.published (sent_by b piece) (messages_of b rest)

pub go_on-ok : (pieces : List Piece) (w : World) → (go_on pieces w).0 ≡ ok tt
unfolding go_on ◌>>=◌ attempt pure
go_on-ok [] w = refl
go_on-ok (piece ∷ rest) w = go_on-ok rest (run_piece piece w).1

Runs-go_on : (pieces : List Piece) → Runs (Idle true) (Idle true) (go_on pieces)
Runs-go_on pieces = record {
  at = λ w h. ((tt, go_on-ok pieces w), (Keeps-go_on-Idle true pieces).at w h);
}

-- The service has said that it has stopped, and these tasks have gone on since.
abbrev pub IsStopped : Vcgencmd → List Piece → World → Type 0
IsStopped ran since w =
    (before : List Message) × (now : Fixed) × (w.published
      ≡ before
        ++ message Topics.svc_health (health_payload "stopped" now (power_ok ran)) true
          ∷ messages_of true since)

abbrev HasStopped : Vcgencmd → List Piece → World → Type 0
HasStopped ran since w = IsStopped ran since w × Idle true w

said :
    (ran : Vcgencmd) (since : List Piece) (w : World)
    → HasStopped ran since
        ((attempt (publish_health ran "stopped") >>= λ r. go_on since) (ready true w)).1
unfolding publish_health ◌>>=◌ time gets perform step publish send attempt pure
said ran since w =
    let m = message Topics.svc_health (health_payload "stopped" w.clock (power_ok ran)) true in
    let u = record (ready true w) { published = w.published ++ m ∷ [] } in
    (
      (
        w.published,
        w.clock,
        published_from true since u (refl, refl)
            ∙ append_assoc w.published (m ∷ []) (messages_of true since),
      ),
      (Keeps-go_on-Idle true since).at u (refl, refl),
    )

stopped :
    (ran : Vcgencmd) (in_flight : InFlight) (w : World)
    → Idle true w
    → HasStopped ran in_flight.before_closed (say_stopped ran in_flight w).1
unfolding say_stopped
stopped ran in_flight w h =
    after_returned (λ o. HasStopped ran in_flight.before_closed o.1)
      (go_on in_flight.before_stopped) _ w (Runs-go_on in_flight.before_stopped) h
      (λ a v k.
        subst
          (λ u.
            HasStopped ran in_flight.before_closed
              ((attempt (publish_health ran "stopped") >>= λ r. go_on in_flight.before_closed) u).1)
          (ready_of k) (said ran in_flight.before_closed v))

pub connected_first :
    (body : M Unit) (w : World) → connect body (calm w) ≡ finally body disconnected (ready true w)
unfolding connect ◌>>=◌ perform step modify pure
connected_first body w = refl

module _ (c : Codec) (p : Platform) (router : Router) (policy : TimeoutPolicy)
    (read_event : String → Option GatewayEvent)
    (made : Router.make (default_handlers p) ≡ some router) (base : BaseLocationConfig)
    (ran_first ran_last : Vcgencmd) (received : Received) (in_flight : InFlight) where
  looped :
      (w : World)
      → Idle true w
      → HasStopped ran_last in_flight.before_closed
          (finally_do
            (consume_loop c router policy read_event received)
            (say_stopped ran_last in_flight)
            w).1
  unfolding finally_do
  looped w h =
      stopped ran_last in_flight (consume_loop c router policy read_event received w).1
        ((Keeps-consume_loop-Idle true c p router policy read_event made received).at w h)

  served :
      (w : World)
      → Idle true w
      → HasStopped ran_last in_flight.before_closed
          (serve c router policy read_event base ran_first ran_last received in_flight w).1
  unfolding serve
  served w h =
      let done = λ (o : Result Unit × World). HasStopped ran_last in_flight.before_closed o.1 in
      after_returned done (publish_health ran_first "running") _ w
        (Runs-publish_health ran_first "running") h
        (λ a v k.
          after_returned done (init_base_location base) _ v (Runs-init_from base.source base) k
            (λ b u l. looped u l))

  -- Where the awaited calls are performed at once, then whatever the service receives, whatever the
  -- tasks of requests do beside it and after it, and whether its loop ends or raises: before the
  -- connection is closed the retained health "stopped" has been published, and after that only what
  -- tasks of requests sent until the connection was closed. Then it is not connected, and whatever the
  -- tasks that `run` waits for still do, nothing at all is published any more.
  pub run-IsStopped :
      (w : World)
      → let u =
          (connect
            (serve c router policy read_event base ran_first ran_last received in_flight)
            (calm w)).1 in
        let v =
          (run c router policy read_event base ran_first ran_last received in_flight (calm w)).1 in
        IsStopped ran_last in_flight.before_closed u
        × (v.connected ≡ false)
        × (v.published ≡ u.published)
  unfolding run finally_do finally
  run-IsStopped w =
      let body = serve c router policy read_event base ran_first ran_last received in_flight in
      let (last, idle) = served (ready true w) (refl, refl) in
      let end = disconnected (body (ready true w)).1 in
      let idle_end : Idle false end = (idle.0, refl) in
      rw (connected_first body w) (
        last,
        ((Keeps-go_on-Idle false in_flight.awaited).at end idle_end).1,
        published_from false in_flight.awaited end idle_end
            ∙ ap (λ l. end.published ++ l) (silent in_flight.awaited)
            ∙ append-nil end.published,
      )
