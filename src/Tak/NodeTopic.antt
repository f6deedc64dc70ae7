-- ===== src/Tak/NodeTopic.antt =====
-- meshcore_rpc_services/tak/bridge.py: how the topic of a message names its node.
pub mod Parsing
pub mod Shapes
use meshcore_rpc_services.Prelude.{
  ℕ, zero, suc, ◌≡◌, ◌≢◌, refl, sym, ap, ◌∙◌, ◌↔◌, Bool, true, false, not, ◌||◌, Option, none, some,
  List, [], ◌∷◌, String, ◌==◌, format, char_count, drop_chars, eq_iff, eq_refl, arith, or_else,
  Bool-cases, inl, inr, if◌then◌else◌,
}
use meshcore_rpc_services.Prelude.Dict.{Dict, lookup}
use meshcore_rpc_services.Prelude.Split.{
  ends_with, drop_end, has_slash, split_slash, ends_with-append, drop_end-append, drop_end-join,
  drop_chars-append,
}
use meshcore_rpc_services.Topics
use meshcore_rpc_services.Value.{Json, str}
use text.Mathlib.Text.{starts_with}

abbrev pub base_key : String
base_key = "__base__"

-- `f"{topics.NODE_PREFIX}/"`
abbrev pub node_prefix_slash : String
node_prefix_slash = "mc/node/"

-- The rest of a text behind a prefix, if it has that prefix.
abbrev behind : String → String → Option String
behind prefix s = if starts_with s prefix then some (drop_chars (char_count prefix) s) else none

abbrev single_level : Option String → Option String
single_level none = none
single_level (some node_id) = if node_id == "" || has_slash node_id then none else some node_id

-- `_extract_node_id`
unfoldable pub extract_node_id : String → String → Option String
unfolding has_slash
extract_node_id topic suffix =
    if not (ends_with topic suffix)
    then none
    else single_level (behind node_prefix_slash (drop_end topic suffix))

-- `topic.split("/")[2]`
abbrev third : List String → String
third (a ∷ b ∷ c ∷ rest) = c
third _ = ""

-- What `data.get("id", "")` is used as; no payload is asked on the subscribed topics.
abbrev payload_id : Option Json → String
payload_id (some (str s)) = s
payload_id _ = ""

-- `_key_for`
unfoldable pub key_for : String → Dict Json → String
unfolding split_slash lookup
key_for topic d =
    if topic == Topics.base_location
    then base_key
    else if starts_with topic node_prefix_slash
    then third (split_slash topic)
    else payload_id (lookup "id" d)
