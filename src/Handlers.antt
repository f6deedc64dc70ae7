-- ===== src/Handlers.antt =====
-- meshcore_rpc_services/handlers/__init__.py: the registry of handlers.
pub mod Reporting
pub mod Replying
pub mod Protocol
pub mod Basic
pub mod Nodes
pub mod Report
pub mod BaseLocation
pub mod ReturnToBase
pub mod GatewayStatus
pub mod Keeping
use meshcore_rpc_services.Prelude.{List, [], ◌∷◌}
use meshcore_rpc_services.Geo.{Platform}
use Protocol.{Handler}
use Basic.{ping_handler, echo_handler, time_now_handler}
use GatewayStatus.{gateway_status_handler}
use Nodes.{node_last_seen_handler, node_location_handler, node_status_handler}
use Report.{node_location_report_handler}
use BaseLocation.{base_location_handler}
use ReturnToBase.{return_to_base_handler}

unfoldable pub default_handlers : Platform → List Handler
default_handlers p =
    ping_handler
    ∷ echo_handler
    ∷ time_now_handler p
    ∷ gateway_status_handler
    ∷ node_last_seen_handler
    ∷ node_location_report_handler p
    ∷ base_location_handler
    ∷ node_location_handler
    ∷ node_status_handler
    ∷ return_to_base_handler p
    ∷ []
