-- ===== src/Lifecycle.antt =====
-- meshcore_rpc_services/lifecycle.py: the states of a request, plain texts as in the source.
use meshcore_rpc_services.Prelude.{String, Bool, List, [], ◌∷◌, any, ◌==◌}

abbrev pub received : String
received = "received"

abbrev pub validated : String
validated = "validated"

abbrev pub rejected : String
rejected = "rejected"

abbrev pub handler_started : String
handler_started = "handler_started"

abbrev pub response_published : String
response_published = "response_published"

abbrev pub timeout : String
timeout = "timeout"

abbrev pub completed_ok : String
completed_ok = "completed_ok"

abbrev pub completed_error : String
completed_error = "completed_error"

abbrev pub all_event_states : List String
all_event_states =
    received ∷ validated ∷ rejected ∷ handler_started ∷ response_published ∷ timeout ∷ []

abbrev pub all_final_states : List String
all_final_states = completed_ok ∷ completed_error ∷ []

-- `state in states`
abbrev pub is_in : String → List String → Bool
is_in state states = any (λ s. s == state) states
