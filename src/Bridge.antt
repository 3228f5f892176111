-- ===== src/Bridge.antt =====
-- src/HiveMindBridgeImpl.cpp, with the components of src/HiveMindBridge.cpp that it drives: the state
-- of the bridge, and what its operations share. The operations are in the modules below.
pub mod Spin
pub mod Outbound
pub mod SendBytes
pub mod Requests
pub mod Transfer
pub mod System
use hive_mind_bridge.Prelude.{ℕ, ◌+◌, Bool, true, false, List, [], ◌∷◌, Dict, if◌then◌else◌}
use hive_mind_bridge.Pheromones.{Pheromones}
use hive_mind_bridge.Effect.{Effect}
use hive_mind_bridge.MessageUtils.{generate_random_id}
use hive_mind_bridge.Handle.{
  InboundRequestHandle, InboundResponseHandle, OutboundRequestHandle, outbound_request_handle,
}
use hive_mind_bridge.MessageHandler.{Handlers}
use hive_mind_bridge.TcpServer.{TcpServer, is_client_connected}
use hive_mind_bridge.ThreadSafeQueue.{push}
use hive_mind_bridge.HiveMindHostApiRequestHandler.{new_request_handler}
use hive_mind_bridge.HiveMindHostApiResponseHandler.{new_response_handler}
use hive_mind_bridge.UserCallbackMap.{new_callback_map}

abbrev pub thread_sleep_ms : ℕ
thread_sleep_ms = 1

abbrev pub delay_before_drop_s : ℕ
delay_before_drop_s = 10

module _ (P : Pheromones) where
  open P use {MessageDto}

  -- A thread is `true` while it is joinable. `drawn` counts the calls of `rand` so far.
  pub record Bridge : Type 0 where
    pub tcp_server : TcpServer
    pub handlers : Handlers P
    pub inbound_queue : List MessageDto
    pub inbound_thread : Bool
    pub outbound_queue : List (OutboundRequestHandle P)
    pub outbound_thread : Bool
    pub inbound_requests_queue : List (InboundRequestHandle P)
    pub inbound_responses_map : Dict ℕ (InboundResponseHandle P)
    pub swarm_agent_id : ℕ
    pub keep_alive_nb_spin : ℕ
    pub keep_alive_counter : ℕ
    pub drawn : ℕ

  -- The constructors of `HiveMindBridge` and `HiveMindBridgeImpl`.
  unfoldable pub new_bridge : TcpServer → (keep_alive_nb_spin : ℕ) → Bridge
  new_bridge server n = record {
    tcp_server = server;
    handlers = record {
      callback_map = new_callback_map P;
      request_handler = new_request_handler;
      response_handler = new_response_handler;
    };
    inbound_queue = [];
    inbound_thread = false;
    outbound_queue = [];
    outbound_thread = false;
    inbound_requests_queue = [];
    inbound_responses_map = [];
    swarm_agent_id = 0;
    keep_alive_nb_spin = n;
    keep_alive_counter = 0;
    drawn = 0;
  }

  unfoldable pub is_tcp_client_connected : Bridge → Bool
  unfolding is_client_connected
  is_tcp_client_connected s = is_client_connected s.tcp_server

  unfoldable pub get_swarm_agent_id : Bridge → ℕ
  get_swarm_agent_id s = s.swarm_agent_id

  unfoldable pub queue_and_send : Bridge → MessageDto → Bridge × Bool
  unfolding is_tcp_client_connected push
  queue_and_send s message =
      if is_tcp_client_connected s
      then (
        record s { outbound_queue = push s.outbound_queue (outbound_request_handle P message) },
        true,
      )
      else (s, false)

  -- `generateRandomId`, on the numbers that `rand` draws one after the other
  unfoldable pub random_id : (rand : ℕ → ℕ) → Bridge → Bridge × ℕ
  random_id rand s = (record s { drawn = s.drawn + 1 }, generate_random_id (rand s.drawn))
