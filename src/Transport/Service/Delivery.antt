-- ===== src/Transport/Service/Delivery.antt =====
-- What is sent to the nodes, as against retained state, and what the emitter adds to it.
use meshcore_rpc_services.Prelude.{
  ◌≡◌, refl, sym, ap, subst, ◌∙◌, Bool, true, false, not, Option, none, some, List, [], ◌∷◌, ◌++◌,
  String, ◌==◌, filter, arith, if◌then◌else◌,
}
use meshcore_rpc_services.Prelude.Int.{Fixed}
use meshcore_rpc_services.Runtime.{
  World, Message, Outcome, crash, perform, step, after, pure, raise, gets, or_raise, ◌>>=◌,
}
use meshcore_rpc_services.Runtime.Calls.{write, publish, send, message}
use meshcore_rpc_services.Runtime.Keeps.{Keeps, Keeps-perform}
use meshcore_rpc_services.Runtime.Stable.{IsStable}
use meshcore_rpc_services.Schemas.{Response, to_json}
use meshcore_rpc_services.Store.Rows.{Db}
use meshcore_rpc_services.Topics
use meshcore_rpc_services.Value.{Json}
use meshcore_rpc_services.Transport.Adapter.{response_to_outbound}
use meshcore_rpc_services.Transport.Service.{emit}

-- What was published for nodes that wait for it: all but the retained state.
abbrev pub sent : World → List Message
sent w = filter (λ m. not m.retain) w.published

abbrev on_topic : Json → Option String → List Message
on_topic payload none = []
on_topic payload (some topic) = message topic payload false ∷ []

-- The message that carries a response: none without a connection.
abbrev pub carried : String → Response → Bool → List Message
carried node_id response false = []
carried node_id response true =
    on_topic (to_json response)
      (Topics.rpc_response_topic (if response.to == "" then node_id else response.to))

module _ (p : Message → Bool) where
  filter-snoc_keep :
      (xs : List Message) (m : Message)
      → p m ≡ true
      → filter p (xs ++ m ∷ []) ≡ filter p xs ++ m ∷ []
  filter-snoc_keep [] m h = ground (arith, h)
  filter-snoc_keep (x ∷ xs) m h = ground (arith, filter-snoc_keep xs m h)

  filter-snoc_drop :
      (xs : List Message) (m : Message) → p m ≡ false → filter p (xs ++ m ∷ []) ≡ filter p xs
  filter-snoc_drop [] m h = ground (arith, h)
  filter-snoc_drop (x ∷ xs) m h = ground (arith, filter-snoc_drop xs m h)

append_nil : (xs : List Message) → xs ++ [] ≡ xs
append_nil [] = refl
append_nil (x ∷ xs) = ap (λ r. x ∷ r) (append_nil xs)

-- The awaited calls succeed at once, and this was sent.
abbrev pub Sent : List Message → Bool → World → Type 0
Sent ms c w = (w.script ≡ []) × (sent w ≡ ms) × (w.connected ≡ c)

module _ (ms : List Message) (c : Bool) where
  Sent-tick :
      (w w' : World) (o : Outcome) (rest : List Outcome)
      → w.script ≡ o ∷ rest
      → Sent ms c w
      → Sent ms c w'
  Sent-tick w w' o rest e h = cc (e, h.0)

  pub Sent-IsStable : IsStable (Sent ms c)
  Sent-IsStable = record {
    tick = λ w t o rest e h. Sent-tick w (after t rest w) o rest e h;
    tables = λ w db same h. h;
    radio = λ w r h. h;
    retained = λ w topic payload h.
        (h.0, filter-snoc_drop _ w.published (message topic payload true) refl ∙ h.1, h.2);
  }

  pub Keeps-write-Sent : (statement : Fixed → Db → Db) → Keeps (Sent ms c) (write statement)
  unfolding write
  Keeps-write-Sent statement = Keeps-perform _ Sent-IsStable.tick (λ w h. h)

module _ (ms : List Message) where
  publish-Sent :
      (c : Bool) (o : Option String) (payload : Json) (w : World)
      → Sent ms c w
      → Sent
          (ms ++ (if c then on_topic payload o else []))
          c
          ((or_raise o (crash "ValueError") >>= λ topic. publish topic payload false) w).1
  unfolding publish send ◌>>=◌ gets perform step or_raise raise pure
  publish-Sent true none payload w h = (h.0, h.1 ∙ sym (append_nil ms), h.2)
  publish-Sent false none payload w h = (h.0, h.1 ∙ sym (append_nil ms), h.2)
  publish-Sent false (some topic) payload w h = rw h.2 (h.0, h.1 ∙ sym (append_nil ms), refl)
  publish-Sent true (some topic) payload w h =
      rw (h.2, h.0)
        (
          refl,
          filter-snoc_keep _ w.published (message topic payload false) refl
              ∙ ap (λ r. r ++ message topic payload false ∷ []) h.1,
          refl,
        )

  carried_if :
      (node_id : String) (r : Response) (c : Bool)
      → (if c
          then on_topic
              (to_json r)
              (Topics.rpc_response_topic (if r.to == "" then node_id else r.to))
          else [])
        ≡ carried node_id r c
  carried_if node_id r true = refl
  carried_if node_id r false = refl

  pub emit-Sent :
      (node_id : String) (r : Response) (c : Bool) (w : World)
      → Sent ms c w
      → Sent (ms ++ carried node_id r c) c (emit node_id r w).1
  unfolding emit response_to_outbound
  emit-Sent node_id r c w h =
      subst (λ sent_by. Sent (ms ++ sent_by) c (emit node_id r w).1) (carried_if node_id r c)
        (publish-Sent c (Topics.rpc_response_topic (if r.to == "" then node_id else r.to))
          (to_json r) w h)
