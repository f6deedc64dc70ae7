-- ===== src/Tak/NodeTopic/Shapes.antt =====
-- What the topics that the service builds look like to the tests of the bridge.
use meshcore_rpc_services.Prelude.{
  ◌≡◌, refl, sym, ap, ◌∙◌, true, false, String, ◌==◌, [], ◌∷◌, format, Bool-cases, inl, inr,
}
use Prim.Native.String.{◌++◌}
use text.Mathlib.Text.{starts_with}
use text.Mathlib.TextLemmas.{append_assoc}
use meshcore_rpc_services.Prelude.Split.{
  ends_with, ends_with-append, drop_end, drop_end-join, append-same_length,
}
use meshcore_rpc_services.Topics
use meshcore_rpc_services.Tak.NodeTopic.{node_prefix_slash}
use meshcore_rpc_services.Tak.NodeTopic.Parsing.{topic_begins, not_base, format-topic_of}

-- The topic is not the base's, and is one of a node's.
abbrev IsNodes : String → Type 0
IsNodes topic =
    ((topic == Topics.base_location) ≡ false) × (starts_with topic node_prefix_slash ≡ true)

topic_of-IsNodes :
    (node_id suffix : String) → IsNodes (format (Topics.node_prefix ∷ "/" ∷ node_id ∷ suffix ∷ []))
topic_of-IsNodes node_id suffix =
    rw (format-topic_of node_id suffix) (not_base node_id suffix, topic_begins node_id suffix)

topic_of-end :
    (node_id suffix : String)
    → ends_with (format (Topics.node_prefix ∷ "/" ∷ node_id ∷ suffix ∷ [])) suffix ≡ true
topic_of-end node_id suffix =
    rw (format-topic_of node_id suffix) (ends_with-append (node_prefix_slash ++ node_id) suffix)

pub location_topic-shape :
    (node_id : String)
    → IsNodes (Topics.node_location_topic node_id)
      × (ends_with (Topics.node_location_topic node_id) "/location" ≡ true)
unfolding Topics.node_location_topic
location_topic-shape node_id =
    (topic_of-IsNodes node_id "/location", topic_of-end node_id "/location")

-- The last six characters differ.
not_location : (s : String) → ends_with (s ++ "/state") "/location" ≡ false
not_location s = elim (Bool-cases (ends_with (s ++ "/state") "/location")) [
  | inl found ↦
      let head = drop_end (s ++ "/state") "/location" in
      let e =
        drop_end-join (s ++ "/state") "/location" found ∙ sym (append_assoc head "/lo" "cation") in
      let wrong : ◌≡◌ {A = String} "/state" "cation" =
        append-same_length s (head ++ "/lo") "/state" "cation" e refl in
      let never : true ≡ false = ap (λ t. t == "/state") wrong in absurd cc
  | inr other ↦ other
]

pub state_topic-shape :
    (node_id : String)
    → IsNodes (Topics.node_state_topic node_id)
      × (ends_with (Topics.node_state_topic node_id) "/location" ≡ false)
      × (ends_with (Topics.node_state_topic node_id) "/state" ≡ true)
unfolding Topics.node_state_topic
state_topic-shape node_id = (
  topic_of-IsNodes node_id "/state",
  rw (format-topic_of node_id "/state") (not_location (node_prefix_slash ++ node_id)),
  topic_of-end node_id "/state",
)
