-- ===== src/Examples/Reports.antt =====
-- The theorem on reported locations, applied to a report and a question.
use meshcore_rpc_services.Prelude.{true, none, [], ◌∷◌}
use meshcore_rpc_services.Prelude.Int.{pos}
use meshcore_rpc_services.Examples.{world}
use meshcore_rpc_services.Runtime.{World}
use meshcore_rpc_services.Schemas.{Request}
use meshcore_rpc_services.Value.{str, float}

abbrev ready : World
ready = record world { script = []; connected = true }

abbrev report : Request
report = record {
  v = pos 1;
  id = "r7";
  type = "node.location.report";
  from_ = "n1";
  ttl = none;
  args = ("lat", float (pos 48000000)) ∷ ("lon", float (pos 11000000)) ∷ [];
}

abbrev question : Request
question = record {
  v = pos 1;
  id = "q1";
  type = "node.location";
  from_ = "n2";
  ttl = none;
  args = ("node", str "n1") ∷ [];
}
