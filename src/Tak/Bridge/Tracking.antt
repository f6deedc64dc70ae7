-- ===== src/Tak/Bridge/Tracking.antt =====
-- Since when the bridge takes a node to be offline.
use meshcore_rpc_services.Prelude.{
  ◌≡◌, ◌≢◌, refl, ap, true, false, ◌&&◌, Option, none, some, String, arith, eq_iff, eq_refl, ◌==◌,
  if◌then◌else◌, Bool-cases, inl, inr, or_else,
}
use meshcore_rpc_services.Prelude.Int.{Fixed}
use meshcore_rpc_services.Prelude.Dict.{
  Dict, lookup, contains, insert, lookup-erase, lookup-insert, contains-lookup,
}
use meshcore_rpc_services.Prelude.Split.{ends_with}
use meshcore_rpc_services.Runtime.{Result, ok, err}
use meshcore_rpc_services.Topics
use meshcore_rpc_services.Value.{Json, null, bool, int, float, str, arr, obj}
use meshcore_rpc_services.Tak.NodeTopic.{extract_node_id, node_prefix_slash}
use meshcore_rpc_services.Tak.NodeTopic.Parsing.{IsLevel, extract_node_id-topics}
use meshcore_rpc_services.Tak.NodeTopic.Shapes.{state_topic-shape}
use meshcore_rpc_services.Tak.Bridge.{Bridge, track, emit, merge_state, update_offline_tracking}
use meshcore_rpc_services.Tak.Bridge.Messages.{ingest, located, stated}
use text.Mathlib.Text.{starts_with}

-- What the node says of itself, as it changes the time since when it is offline.
abbrev pub seen_online : Option Json → Fixed → Option Fixed → Option Fixed
seen_online (some (bool true)) now since = none
seen_online (some (bool false)) now since = some (or_else since now)
seen_online _ now since = since

lookup-offline :
    (id : String) (now : Fixed) (since : Dict Fixed)
    → lookup id (if contains id since then since else insert id now since)
      ≡ some (or_else (lookup id since) now)
lookup-offline id now since =
    ground (arith, contains-lookup id since, lookup-insert id id now since, eq_refl id)

pub lookup-track :
    (o : Option Json) (id : String) (now : Fixed) (since : Dict Fixed)
    → lookup id (track o id now since) ≡ seen_online o now (lookup id since)
lookup-track none id now since = refl
lookup-track (some null) id now since = refl
lookup-track (some (bool true)) id now since = rw (lookup-erase id id since) (rw (eq_refl id))
lookup-track (some (bool false)) id now since = lookup-offline id now since
lookup-track (some (int z)) id now since = refl
lookup-track (some (float x)) id now since = refl
lookup-track (some (str s)) id now since = refl
lookup-track (some (arr xs)) id now since = refl
lookup-track (some (obj fs)) id now since = refl

lookup-track-other :
    (o : Option Json) (j id : String) (now : Fixed) (since : Dict Fixed)
    → (j == id) ≡ false
    → lookup id (track o j now since) ≡ lookup id since
lookup-track-other none j id now since h = refl
lookup-track-other (some null) j id now since h = refl
lookup-track-other (some (bool true)) j id now since h = rw (lookup-erase j id since) (rw h)
lookup-track-other (some (bool false)) j id now since h =
    ground (arith, lookup-insert j id now since, h)
lookup-track-other (some (int z)) j id now since h = refl
lookup-track-other (some (float x)) j id now since h = refl
lookup-track-other (some (str s)) j id now since h = refl
lookup-track-other (some (arr xs)) j id now since h = refl
lookup-track-other (some (obj fs)) j id now since h = refl

pub emit_kept :
    (r : Result (Option String)) (b : Bridge)
    → ((emit r b).1.offline_since ≡ b.offline_since) × ((emit r b).1.state ≡ b.state)
emit_kept (ok none) b = (refl, refl)
emit_kept (ok (some xml)) b = (refl, refl)
emit_kept (err e) b = (refl, refl)

-- The offline times after a message, as the branches of the topic leave them.
pub ingest-state_topic :
    (id : String) (d : Dict Json) (now : Fixed) (b : Bridge)
    → IsLevel id
    → ingest (Topics.node_state_topic id) d now b ≡ some (stated (some id) d now b)
unfolding ingest
ingest-state_topic id d now b level =
    let ((base, begins), elsewhere, ends) = state_topic-shape id in
    let read = (extract_node_id-topics (Topics.node_state_topic id) id).1.1 (refl, level) in
    rw base (rw begins (rw elsewhere (rw ends (ap (λ o. some (stated o d now b)) read))))

located_kept :
    (o : Option String) (d : Dict Json) (now : Fixed) (b : Bridge)
    → (located o d now b).offline_since ≡ b.offline_since
unfolding merge_state
located_kept none d now b = refl
located_kept (some id) d now b = refl

differ : (j id : String) → some j ≢ some id → (j == id) ≡ false
differ j id h = elim (Bool-cases (j == id)) [
  | inl same ↦ absurd (h (ap some ((eq_iff j id).0 same)))
  | inr other ↦ other
]

not_read :
    (topic id : String)
    → (topic == Topics.node_state_topic id) ≡ false
    → extract_node_id topic "/state" ≢ some id
not_read topic id h read =
    let (e, level) = (extract_node_id-topics topic id).1.0 read in
    let same = (eq_iff topic (Topics.node_state_topic id)).1 e in ground (arith, h, same)

stated-other :
    (o : Option String) (id : String) (d : Dict Json) (now : Fixed) (b : Bridge)
    → o ≢ some id
    → lookup id (stated o d now b).offline_since ≡ lookup id b.offline_since
unfolding merge_state update_offline_tracking
stated-other none id d now b h = refl
stated-other (some j) id d now b h =
    lookup-track-other (lookup "online" d) j id now b.offline_since (differ j id h)

pub ingest-other :
    (topic id : String) (d : Dict Json) (now : Fixed) (b : Bridge)
    → (topic == Topics.node_state_topic id) ≡ false
    → lookup id (or_else (ingest topic d now b) b).offline_since ≡ lookup id b.offline_since
unfolding ingest merge_state
ingest-other topic id d now b h = elim (Bool-cases (topic == Topics.base_location)) [
  | inl base ↦ rw base refl
  | inr not_base ↦
      rw not_base
        (elim (Bool-cases (starts_with topic node_prefix_slash && ends_with topic "/location")) [
          | inl loc ↦
              rw loc (ap (lookup id) (located_kept (extract_node_id topic "/location") d now b))
          | inr not_loc ↦
              rw not_loc
                (elim (Bool-cases
                  (starts_with topic node_prefix_slash && ends_with topic "/state")) [
                    | inl st ↦ rw st (
                        stated-other (extract_node_id topic "/state") id d now b
                          (not_read topic id h))
                    | inr nothing ↦ rw nothing refl
                  ])
        ])
]
