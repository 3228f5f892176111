-- ===== src/Bridge/Requests.antt =====
-- The other calls of the user: src/HiveMindBridge.cpp and the calls of `HiveMindBridgeImpl` that it
-- passes on, and the requests about neighbors.
pub mod Neighbors
use hive_mind_bridge.Prelude.{ℕ, String, Bool, Option}
use hive_mind_bridge.Pheromones.{Pheromones}
use hive_mind_bridge.Pheromones
use hive_mind_bridge.Callback.{CallbackFunction, CallbackArgsManifest}
use hive_mind_bridge.MessageUtils.{request_message}
use hive_mind_bridge.UserCallbackMap
use hive_mind_bridge.HiveMindHostApiRequestHandler
use hive_mind_bridge.HiveMindHostApiResponseHandler
use hive_mind_bridge.TcpServer
use hive_mind_bridge.Bridge.{Bridge, queue_and_send, random_id, get_swarm_agent_id}

module _ (P : Pheromones) where
  open P use {
    HiveMindHostApiRequestDto, hive_mind_host_api_request_dto, get_neighbor_request_dto,
    get_neighbors_list_request_dto, request_dto,
  }

  unfoldable pub on_connect : Bridge P → (hook : Option ℕ) → Bridge P
  on_connect s hook = record s { tcp_server = TcpServer.on_connect s.tcp_server hook }

  unfoldable pub on_disconnect : Bridge P → (hook : Option ℕ) → Bridge P
  on_disconnect s hook = record s { tcp_server = TcpServer.on_disconnect s.tcp_server hook }

  unfoldable pub on_bytes_received : Bridge P → (callback : Option ℕ) → Bridge P × Bool
  on_bytes_received s callback =
      let (h, overwritten) =
        HiveMindHostApiRequestHandler.on_bytes_received s.handlers.request_handler callback in
      (record s { handlers = record s.handlers { request_handler = h } }, overwritten)

  unfoldable pub on_neighbor_list_updated : Bridge P → (callback : Option ℕ) → Bridge P × Bool
  on_neighbor_list_updated s callback =
      let (h, overwritten) =
        HiveMindHostApiResponseHandler.on_neighbor_list_updated s.handlers.response_handler
          callback in
      (record s { handlers = record s.handlers { response_handler = h } }, overwritten)

  unfoldable pub on_neighbor_updated : Bridge P → (callback : Option ℕ) → Bridge P × Bool
  on_neighbor_updated s callback =
      let (h, overwritten) =
        HiveMindHostApiResponseHandler.on_neighbor_updated s.handlers.response_handler callback in
      (record s { handlers = record s.handlers { response_handler = h } }, overwritten)

  unfoldable pub register_custom_action :
      Bridge P → (name : String) → CallbackFunction P → CallbackArgsManifest P → Bridge P × Bool
  register_custom_action s name callback manifest =
      let (m, overwritten) =
        UserCallbackMap.register_callback P s.handlers.callback_map name callback manifest in
      (record s { handlers = record s.handlers { callback_map = m } }, overwritten)

  unfoldable pub register_custom_action_without_manifest :
      Bridge P → (name : String) → CallbackFunction P → Bridge P × Bool
  register_custom_action_without_manifest s name callback =
      let (m, overwritten) =
        UserCallbackMap.register_callback_without_manifest P s.handlers.callback_map name
          callback in
      (record s { handlers = record s.handlers { callback_map = m } }, overwritten)

  -- Both requests go from this agent to itself.
  unfoldable pub send_host_api_request :
      (rand : ℕ → ℕ) → Bridge P → HiveMindHostApiRequestDto → Bridge P × Bool
  unfolding random_id
  send_host_api_request rand s request =
      let (s', id) = random_id P rand s in
      queue_and_send P s' (
        request_message P (get_swarm_agent_id P s') (get_swarm_agent_id P s')
          (request_dto id (Pheromones.RequestBody.hive_mind_host_api request)))

  unfoldable pub send_neighbor_update_request :
      (rand : ℕ → ℕ) → Bridge P → (neighbor_id : ℕ) → Bridge P × Bool
  unfolding send_host_api_request
  send_neighbor_update_request rand s neighbor_id = send_host_api_request rand s (
      hive_mind_host_api_request_dto
        (Pheromones.HiveMindHostApiRequestBody.get_neighbor (get_neighbor_request_dto neighbor_id)))

  unfoldable pub send_neighbor_list_update_request : (rand : ℕ → ℕ) → Bridge P → Bridge P × Bool
  unfolding send_host_api_request
  send_neighbor_list_update_request rand s = send_host_api_request rand s (
      hive_mind_host_api_request_dto
        (Pheromones.HiveMindHostApiRequestBody.get_neighbors_list get_neighbors_list_request_dto))
