-- ===== src/Tak/NodeTopic/Parsing.antt =====
-- The id that is read from a topic is the one that the topic was built from.
use meshcore_rpc_services.Prelude.{
  ◌≡◌, ◌≢◌, refl, sym, ap, ◌∙◌, ◌↔◌, ◌⊎◌, true, false, Option, none, some, [], ◌∷◌, String, ◌==◌,
  format, eq_iff, arith, Bool-cases, inl, inr,
}
use Prim.Native.String.{◌++◌}
use text.Mathlib.Text.{starts_with}
use text.Mathlib.TextEquality.{starts_with_iff}
use text.Mathlib.TextPositions.{starts_with-append}
use text.Mathlib.TextLemmas.{append_assoc, append-nil}
use meshcore_rpc_services.Prelude.Dict.{Dict}
use meshcore_rpc_services.Prelude.Split.{
  ends_with, drop_end, has_slash, split_slash, ends_with-append, drop_end-append, drop_end-join,
  drop_chars-append, split_slash-join,
}
use meshcore_rpc_services.Topics
use meshcore_rpc_services.Value.{Json}
use meshcore_rpc_services.Tak.NodeTopic.{
  extract_node_id, key_for, node_prefix_slash, behind, single_level, third,
}

abbrev pub topic_of : String → String → String
topic_of node_id suffix = (node_prefix_slash ++ node_id) ++ suffix

pub format-topic_of :
    (node_id suffix : String)
    → format (Topics.node_prefix ∷ "/" ∷ node_id ∷ suffix ∷ []) ≡ topic_of node_id suffix
unfolding format
format-topic_of node_id suffix = rw (append-nil suffix) (
    sym (append_assoc "mc/node" "/" (node_id ++ suffix))
    ∙ sym (append_assoc "mc/node/" node_id suffix))

behind-append : (p s : String) → behind p (p ++ s) ≡ some s
behind-append p s = rw (starts_with-append p s) (rw (drop_chars-append p s))

behind-join : (p s r : String) → behind p s ≡ some r → s ≡ p ++ r
behind-join p s r h = elim (Bool-cases (starts_with s p)) [
  | inl found ↦
      let (u, e) = (starts_with_iff s p).0 found in
      let b : behind p s ≡ some u = ap (behind p) (sym e) ∙ behind-append p u in
      let same : u ≡ r = cc in sym e ∙ ap (λ v. p ++ v) same
  | inr other ↦ absurd (ground (arith, other, h))
]

-- Ids that make one level of a topic.
abbrev pub IsLevel : String → Type 0
IsLevel node_id = (node_id ≢ "") × (has_slash node_id ≡ false)

single_level-IsLevel :
    (o : Option String) (node_id : String)
    → (single_level o ≡ some node_id) ↔ ((o ≡ some node_id) × IsLevel node_id)
single_level-IsLevel none node_id = (λ h. absurd cc, λ h. absurd cc)
single_level-IsLevel (some n) node_id = (
  λ h. (
    ground (arith, h),
    (λ e. ground (arith, eq_iff n "", h, e, eq_iff node_id ""), ground (arith, h)),
  ),
  λ h. ground (arith, h.0, h.1.1, h.1.0, eq_iff n ""),
)

extract-topic_of :
    (node_id suffix : String)
    → IsLevel node_id
    → extract_node_id (topic_of node_id suffix) suffix ≡ some node_id
unfolding extract_node_id
extract-topic_of node_id suffix level =
    rw (ends_with-append (node_prefix_slash ++ node_id) suffix) (
      rw (drop_end-append (node_prefix_slash ++ node_id) suffix) (
        rw (behind-append node_prefix_slash node_id)
          ((single_level-IsLevel (some node_id) node_id).1 (refl, level))))

extract_at_end :
    (topic suffix : String)
    → ends_with topic suffix ≡ true
    → extract_node_id topic suffix ≡ single_level (behind node_prefix_slash (drop_end topic suffix))
unfolding extract_node_id
extract_at_end topic suffix found = rw found

topic_of-extract :
    (topic suffix node_id : String)
    → extract_node_id topic suffix ≡ some node_id
    → (topic ≡ topic_of node_id suffix) × IsLevel node_id
unfolding extract_node_id
topic_of-extract topic suffix node_id h = elim (Bool-cases (ends_with topic suffix)) [
  | inl found ↦
      let (e, level) =
        (single_level-IsLevel (behind node_prefix_slash (drop_end topic suffix)) node_id).0
          (sym (extract_at_end topic suffix found) ∙ h) in
      (
        drop_end-join topic suffix found
            ∙ ap (λ r. r ++ suffix)
                (behind-join node_prefix_slash (drop_end topic suffix) node_id e),
        level,
      )
  | inr other ↦ absurd (ground (arith, other, h))
]

extract_iff :
    (topic suffix node_id : String)
    → (extract_node_id topic suffix ≡ some node_id)
      ↔ ((topic ≡ format (Topics.node_prefix ∷ "/" ∷ node_id ∷ suffix ∷ [])) × IsLevel node_id)
extract_iff topic suffix node_id = rw (format-topic_of node_id suffix) (
  topic_of-extract topic suffix node_id,
  λ h. ap (λ t. extract_node_id t suffix) h.0 ∙ extract-topic_of node_id suffix h.1,
)

split-topic_of :
    (node_id rest : String)
    → has_slash node_id ≡ false
    → split_slash (topic_of node_id ("/" ++ rest)) ≡ "mc" ∷ "node" ∷ node_id ∷ split_slash rest
unfolding has_slash
split-topic_of node_id rest h =
    let after = node_id ++ ("/" ++ rest) in
    let first = split_slash-join "mc" ("node" ++ ("/" ++ after)) refl in
    let second = split_slash-join "node" after refl in
    ap split_slash (
      append_assoc "mc/node/" node_id ("/" ++ rest)
      ∙ append_assoc "mc/node" "/" after
      ∙ append_assoc "mc" "/node" ("/" ++ after)
      ∙ ap (λ r. "mc" ++ r) (append_assoc "/" "node" ("/" ++ after)))
    ∙ first
    ∙ ap (λ r. "mc" ∷ r) second
    ∙ ap (λ r. "mc" ∷ "node" ∷ r) (split_slash-join node_id rest h)

pub topic_begins :
    (node_id rest : String) → starts_with (topic_of node_id rest) node_prefix_slash ≡ true
topic_begins node_id rest =
    rw (append_assoc node_prefix_slash node_id rest)
      (starts_with-append node_prefix_slash (node_id ++ rest))

pub not_base : (node_id rest : String) → (topic_of node_id rest == Topics.base_location) ≡ false
not_base node_id rest = elim (Bool-cases (topic_of node_id rest == Topics.base_location)) [
  | inl same ↦
      let e = (eq_iff (topic_of node_id rest) Topics.base_location).0 same in
      let wrong : false ≡ true =
        ap (λ t. starts_with t node_prefix_slash) (sym e) ∙ topic_begins node_id rest in
      absurd cc
  | inr other ↦ other
]

key_for-topic_of :
    (node_id rest : String) (d : Dict Json)
    → has_slash node_id ≡ false
    → key_for (topic_of node_id ("/" ++ rest)) d ≡ node_id
unfolding key_for
key_for-topic_of node_id rest d h =
    rw (not_base node_id ("/" ++ rest))
      (rw (topic_begins node_id ("/" ++ rest)) (ap third (split-topic_of node_id rest h)))

-- The id `<id>` is read from exactly the topics that the service builds from it, for each of the two
-- suffixes, as long as it is not empty and has no slash.
pub extract_node_id-topics :
    (topic node_id : String)
    → ((extract_node_id topic "/location" ≡ some node_id)
        ↔ ((topic ≡ Topics.node_location_topic node_id) × IsLevel node_id))
      × ((extract_node_id topic "/state" ≡ some node_id)
          ↔ ((topic ≡ Topics.node_state_topic node_id) × IsLevel node_id))
unfolding Topics.node_location_topic Topics.node_state_topic
extract_node_id-topics topic node_id =
    (extract_iff topic "/location" node_id, extract_iff topic "/state" node_id)

keyed :
    (topic node_id rest : String) (d : Dict Json)
    → extract_node_id topic ("/" ++ rest) ≡ some node_id
    → key_for topic d ≡ node_id
keyed topic node_id rest d h =
    let (e, level) = topic_of-extract topic ("/" ++ rest) node_id h in
    ap (λ t. key_for t d) e ∙ key_for-topic_of node_id rest d level.1

-- Where an id is read from a topic by its suffix, `split("/")[2]` gives the same id: the event that is
-- published at once is the one of the node whose record has just changed.
pub key_for-extract_node_id :
    (topic node_id : String) (d : Dict Json)
    → (extract_node_id topic "/location" ≡ some node_id)
      ⊎ (extract_node_id topic "/state" ≡ some node_id)
    → key_for topic d ≡ node_id
key_for-extract_node_id topic node_id d (inl h) = keyed topic node_id "location" d h
key_for-extract_node_id topic node_id d (inr h) = keyed topic node_id "state" d h
