-- ===== src/Tak/Bridge/Offline.antt =====
-- The offline times after any messages.
use meshcore_rpc_services.Prelude.{
  ◌≡◌, refl, sym, ap, ◌∙◌, Bool, true, false, Option, none, some, List, [], ◌∷◌, String, arith,
  eq_iff, ◌==◌, if◌then◌else◌, Bool-cases, inl, inr, any, or_else,
}
use meshcore_rpc_services.Prelude.Int.{Fixed}
use meshcore_rpc_services.Prelude.Dict.{Dict, lookup}
use meshcore_rpc_services.Topics
use meshcore_rpc_services.Value.{Json, null, bool, int, float, str, arr, obj, entries}
use meshcore_rpc_services.Tak.Cot.{Writer}
use meshcore_rpc_services.Tak.NodeTopic.{key_for}
use meshcore_rpc_services.Tak.NodeTopic.Parsing.{IsLevel}
use meshcore_rpc_services.Tak.Bridge.{
  Bridge, TakBridgeConfig, event_for, publish_one, merge_state, update_offline_tracking,
}
use meshcore_rpc_services.Tak.Bridge.Messages.{
  ingest, handle_mqtt_message, on_payload, publish_changed,
}
use meshcore_rpc_services.Tak.Bridge.Tracking.{
  seen_online, emit_kept, lookup-track, ingest-state_topic, ingest-other,
}

-- A message of a retained topic, and when it is handled.
pub record Received : Type 0 where
  pub topic : String
  pub payload : String
  pub at : Fixed

abbrev said : Option Json → Option Json
said (some (obj fs)) = lookup "online" (entries fs)
said _ = none

module _ (writer : Writer) (cfg : TakBridgeConfig) (decode : String → Option Json) where
  -- What a message says of a node's being online.
  abbrev pub heard : String → Received → Option Json
  heard id m = if m.topic == Topics.node_state_topic id then said (decode m.payload) else none

  publish_changed_kept :
      (topic : String) (d : Dict Json) (now : Fixed) (o : Option Bridge) (b : Bridge)
      → (publish_changed writer cfg decode topic d now o b).1.offline_since
        ≡ (or_else o b).offline_since
  unfolding publish_one
  publish_changed_kept topic d now none b = refl
  publish_changed_kept topic d now (some b') b =
      (emit_kept (event_for writer cfg (key_for topic d) now (lookup (key_for topic d) b'.state))
        b').0

  ingest_heard :
      (id topic : String) (d : Dict Json) (now : Fixed) (b : Bridge)
      → IsLevel id
      → lookup id (or_else (ingest topic d now b) b).offline_since
        ≡ seen_online
            (if topic == Topics.node_state_topic id then lookup "online" d else none)
            now
            (lookup id b.offline_since)
  unfolding merge_state update_offline_tracking
  ingest_heard id topic d now b level = elim (Bool-cases (topic == Topics.node_state_topic id)) [
    | inl same ↦ rw same (
        ap (λ t. lookup id (or_else (ingest t d now b) b).offline_since)
          ((eq_iff topic (Topics.node_state_topic id)).0 same)
        ∙ ap (λ o. lookup id (or_else o b).offline_since) (ingest-state_topic id d now b level)
        ∙ lookup-track (lookup "online" d) id now b.offline_since)
    | inr other ↦ rw other (ingest-other topic id d now b other)
  ]

  silent :
      (t : Bool) (now : Fixed) (o : Option Fixed) → o ≡ seen_online (if t then none else none) now o
  silent true now o = refl
  silent false now o = refl

  said_in :
      (id topic : String) (o : Option Json) (now : Fixed) (b : Bridge)
      → IsLevel id
      → lookup id (on_payload writer cfg decode topic o now b).1.offline_since
        ≡ seen_online
            (if topic == Topics.node_state_topic id then said o else none)
            now
            (lookup id b.offline_since)
  said_in id topic (some (obj fs)) now b level =
      ap (lookup id)
        (publish_changed_kept topic (entries fs) now (ingest topic (entries fs) now b) b)
      ∙ ingest_heard id topic (entries fs) now b level
  said_in id topic o now b level =
      silent (topic == Topics.node_state_topic id) now (lookup id b.offline_since)

  -- One message after the other; what an exception leaves behind stays.
  unfoldable pub handle_all : List Received → Bridge → Bridge
  unfolding handle_mqtt_message
  handle_all [] b = b
  handle_all (m ∷ ms) b =
      handle_all ms (handle_mqtt_message writer cfg decode m.topic m.payload m.at b).1

  abbrev pub observations : String → List Received → List (Option Json × Fixed)
  observations id [] = []
  observations id (m ∷ ms) = (heard id m, m.at) ∷ observations id ms

abbrev pub says_online : Option Json × Fixed → Bool
says_online (some (bool true), t) = true
says_online _ = false

abbrev pub says_offline : Option Json → Bool
says_offline (some (bool false)) = true
says_offline _ = false

-- What was heard after the node last said that it is online.
abbrev pub after_online : List (Option Json × Fixed) → List (Option Json × Fixed)
after_online [] = []
after_online (x ∷ xs) =
    let rest = after_online xs in
    if any says_online xs then rest else if says_online x then xs else x ∷ xs

-- When the node first said that it is offline.
abbrev pub first_offline : List (Option Json × Fixed) → Option Fixed
first_offline [] = none
first_offline ((o, t) ∷ xs) = let rest = first_offline xs in if says_offline o then some t else rest

abbrev tracked : List (Option Json × Fixed) → Option Fixed → Option Fixed
tracked [] since = since
tracked ((o, t) ∷ xs) since = tracked xs (seen_online o t since)

abbrev started : Option Fixed → List (Option Json × Fixed) → Option Fixed
started none xs = first_offline xs
started (some t) xs = some t

-- What says neither changes nothing.
unsaid :
    (o : Option Json) (t : Fixed) (xs : List (Option Json × Fixed)) (since : Option Fixed)
    → says_online (o, t) ≡ false
    → says_offline o ≡ false
    → tracked xs since
      ≡ (if any says_online xs then first_offline (after_online xs) else started since xs)
    → tracked xs since ≡ (
        if any says_online ((o, t) ∷ xs)
        then first_offline (after_online ((o, t) ∷ xs))
        else started since ((o, t) ∷ xs))
unsaid o t xs none h h' ih = ground (arith, h, h', ih)
unsaid o t xs (some u) h h' ih = ground (arith, h, h', ih)

tracked-first_offline :
    (xs : List (Option Json × Fixed)) (since : Option Fixed)
    → tracked xs since
      ≡ (if any says_online xs then first_offline (after_online xs) else started since xs)
tracked-first_offline [] none = refl
tracked-first_offline [] (some t) = refl
tracked-first_offline ((some (bool true), t) ∷ xs) since =
    ground (arith, tracked-first_offline xs none)
tracked-first_offline ((some (bool false), t) ∷ xs) none =
    ground (arith, tracked-first_offline xs (some t))
tracked-first_offline ((some (bool false), t) ∷ xs) (some u) =
    ground (arith, tracked-first_offline xs (some u))
tracked-first_offline ((none, t) ∷ xs) since =
    unsaid (none) t xs since refl refl (tracked-first_offline xs since)
tracked-first_offline ((some null, t) ∷ xs) since =
    unsaid (some null) t xs since refl refl (tracked-first_offline xs since)
tracked-first_offline ((some (int z), t) ∷ xs) since =
    unsaid (some (int z)) t xs since refl refl (tracked-first_offline xs since)
tracked-first_offline ((some (float x), t) ∷ xs) since =
    unsaid (some (float x)) t xs since refl refl (tracked-first_offline xs since)
tracked-first_offline ((some (str s), t) ∷ xs) since =
    unsaid (some (str s)) t xs since refl refl (tracked-first_offline xs since)
tracked-first_offline ((some (arr ys), t) ∷ xs) since =
    unsaid (some (arr ys)) t xs since refl refl (tracked-first_offline xs since)
tracked-first_offline ((some (obj fs), t) ∷ xs) since =
    unsaid (some (obj fs)) t xs since refl refl (tracked-first_offline xs since)

all_after_online :
    (xs : List (Option Json × Fixed)) → any says_online xs ≡ false → after_online xs ≡ xs
all_after_online [] h = refl
all_after_online (x ∷ xs) h = ground (arith, h)

either_way :
    (xs : List (Option Json × Fixed))
    → (if any says_online xs then first_offline (after_online xs) else first_offline xs)
      ≡ first_offline (after_online xs)
either_way xs = elim (Bool-cases (any says_online xs)) [
  | inl some_ ↦ rw some_ refl
  | inr none_ ↦ rw none_ (ap first_offline (sym (all_after_online xs none_)))
]

module _ (writer : Writer) (cfg : TakBridgeConfig) (decode : String → Option Json) where
  handle_all-tracked :
      (id : String) (ms : List Received) (b : Bridge)
      → IsLevel id
      → lookup id (handle_all writer cfg decode ms b).offline_since
        ≡ tracked (observations writer cfg decode id ms) (lookup id b.offline_since)
  unfolding handle_all handle_mqtt_message
  handle_all-tracked id [] b level = refl
  handle_all-tracked id (m ∷ ms) b level =
      handle_all-tracked id ms _ level
      ∙ ap (tracked (observations writer cfg decode id ms))
          (said_in writer cfg decode id m.topic (decode m.payload) m.at b level)

  -- However the messages of all topics are interleaved, whatever they hold and whatever exceptions
  -- the publishing raises, a node whose id is one level of a topic, and which had no offline time,
  -- has, after them, the time of the first message on its state topic that said that it is offline,
  -- since it last said there that it is online; and none if there is no such message.
  pub handle_all-first_offline :
      (id : String) (ms : List Received) (b : Bridge)
      → IsLevel id
      → lookup id b.offline_since ≡ none
      → lookup id (handle_all writer cfg decode ms b).offline_since
        ≡ first_offline (after_online (observations writer cfg decode id ms))
  handle_all-first_offline id ms b level h =
      let xs = observations writer cfg decode id ms in
      handle_all-tracked id ms b level
      ∙ ap (tracked xs) h
      ∙ tracked-first_offline xs none
      ∙ either_way xs
