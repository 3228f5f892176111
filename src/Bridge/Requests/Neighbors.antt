-- ===== src/Bridge/Requests/Neighbors.antt =====
-- The requests about neighbors, and what their responses do.
use hive_mind_bridge.Prelude.{
  ℕ, ◌≡◌, ◌⊎◌, inl, inr, Bool, true, false, Bool-cases, Option, none, some, List, [], ◌∷◌, ◌++◌,
  arith, value,
}
use hive_mind_bridge.Pheromones.{Pheromones}
use hive_mind_bridge.Pheromones
use hive_mind_bridge.Effect.{Position, neighbor_updated, neighbor_list_updated}
use hive_mind_bridge.Handle.{outbound_request_handle}
use hive_mind_bridge.HiveMindHostApiResponseHandler
use hive_mind_bridge.HiveMindHostApiResponseHandler.{
  position, handle_neighbor, handle_neighbor_list,
}
use hive_mind_bridge.MessageHandler.{nothing, handle_message}
use hive_mind_bridge.Bridge.{Bridge, random_id, queue_and_send, get_swarm_agent_id}
use hive_mind_bridge.Bridge.Requests.{
  on_neighbor_updated, on_neighbor_list_updated, send_host_api_request,
  send_neighbor_update_request, send_neighbor_list_update_request,
}
use hive_mind_bridge.Bridge.Spin.{handle_front, accept}
use hive_mind_bridge.Bridge.Spin.Inbound.{handle_front-value}

module _ (P : Pheromones) where
  open P use {
    MessageDto, RequestDto, ResponseDto, HiveMindHostApiRequestDto, HiveMindHostApiResponseDto,
    GetNeighborResponseDto, GetNeighborsListResponseDto, get_message, get_response,
    host_api_response, get_neighbor_id, get_neighbor_position, get_neighbors, get_neighbors_length,
    get_source_id, get_destination_id, request_id, get_request, host_api_request,
    hive_mind_host_api_request_dto, get_neighbor_request_dto, get_neighbors_list_request_dto,
  }

  -- With a client, the request is queued with a new id, from this agent to itself; without one, nothing
  -- is queued.
  abbrev pub Asks :
      (rand : ℕ → ℕ)
      → Bridge P
      → Bridge P × Bool
      → Pheromones.HiveMindHostApiRequestBody P.BytesDto P.GetNeighborRequestDto
          P.GetNeighborsListRequestDto
      → Type 0
  Asks rand s (s', success) body =
      ((s.tcp_server.is_connected ≡ true)
        × (success ≡ true)
        × ((m : MessageDto) × (r : RequestDto) × (hm : HiveMindHostApiRequestDto)
            × (s'.outbound_queue ≡ s.outbound_queue ++ outbound_request_handle P m ∷ [])
            × (get_source_id m ≡ s.swarm_agent_id)
            × (get_destination_id m ≡ s.swarm_agent_id)
            × (get_message m ≡ Pheromones.MessageBody.request r)
            × (request_id r ≡ (random_id P rand s).1)
            × (get_request r ≡ Pheromones.RequestBody.hive_mind_host_api hm)
            × (host_api_request hm ≡ body)))
      ⊎ ((s.tcp_server.is_connected ≡ false)
          × (success ≡ false)
          × (s'.outbound_queue ≡ s.outbound_queue))

  send_host_api_request-Asks :
      (rand : ℕ → ℕ) (s : Bridge P)
      (body : Pheromones.HiveMindHostApiRequestBody P.BytesDto P.GetNeighborRequestDto
        P.GetNeighborsListRequestDto)
      → Asks rand s (send_host_api_request P rand s (hive_mind_host_api_request_dto body)) body
  unfolding send_host_api_request queue_and_send random_id get_swarm_agent_id
  send_host_api_request-Asks rand s body = elim (Bool-cases s.tcp_server.is_connected) [
    | inl up ↦ inl (
      up,
      ground (arith, up),
      (
        _,
        _,
        _,
        ground (arith, up),
        P.source_id_lem _ _ _,
        P.destination_id_lem _ _ _,
        P.message_lem _ _ _,
        P.request_id_lem _ _,
        P.request_lem _ _,
        P.host_api_request_lem _,
      ),
    )
    | inr down ↦ inr (down, ground (arith, down), ground (arith, down))
  ]

  -- Both requests about neighbors: with a client, a request with a new id is queued, from this agent
  -- to itself, for the neighbor asked or for the list; without one, the call fails and nothing is queued.
  pub neighbor_requests :
      (rand : ℕ → ℕ) (s : Bridge P) (neighbor_id : ℕ)
      → Asks rand s (send_neighbor_update_request P rand s neighbor_id) (
          Pheromones.HiveMindHostApiRequestBody.get_neighbor (get_neighbor_request_dto neighbor_id))
        × Asks rand s (send_neighbor_list_update_request P rand s) (
            Pheromones.HiveMindHostApiRequestBody.get_neighbors_list get_neighbors_list_request_dto)
  unfolding send_neighbor_update_request send_neighbor_list_update_request
  neighbor_requests rand s neighbor_id =
      (send_host_api_request-Asks rand s _, send_host_api_request-Asks rand s _)

  -- The position that the response carries, if it does.
  abbrev pub place : GetNeighborResponseDto → Option (Position P)
  place neighbor = elim (get_neighbor_position neighbor) [
    | none ↦ none
    | some p ↦ some (position P p)
  ]

  module _ (s : Bridge P) (callback : ℕ) (message : MessageDto) (rest : List MessageDto)
      (response : ResponseDto) (hm : HiveMindHostApiResponseDto)
      (queue : s.inbound_queue ≡ message ∷ rest)
      (holds : get_message message ≡ Pheromones.MessageBody.response response)
      (api : get_response response ≡ Pheromones.ResponseBody.hive_mind_host_api hm) where
    neighbor_answered :
        (neighbor : GetNeighborResponseDto)
        → host_api_response hm ≡ Pheromones.HiveMindHostApiResponseBody.get_neighbor neighbor
        → handle_message P (on_neighbor_updated P s (some callback)).0.handlers message
          ≡ value (
            (on_neighbor_updated P s (some callback)).0.handlers,
            nothing,
            neighbor_updated callback (get_neighbor_id neighbor) (place neighbor) ∷ [],
          )
    unfolding on_neighbor_updated handle_message HiveMindHostApiResponseHandler.handle_message
        handle_neighbor HiveMindHostApiResponseHandler.on_neighbor_updated
    neighbor_answered neighbor e = ground arith

    listed_answered :
        (neighbors : GetNeighborsListResponseDto)
        → host_api_response hm ≡ Pheromones.HiveMindHostApiResponseBody.get_neighbors_list neighbors
        → handle_message P (on_neighbor_list_updated P s (some callback)).0.handlers message
          ≡ value (
            (on_neighbor_list_updated P s (some callback)).0.handlers,
            nothing,
            neighbor_list_updated callback
                  (get_neighbors neighbors)
                  (get_neighbors_length neighbors)
                ∷ [],
          )
    unfolding on_neighbor_list_updated handle_message HiveMindHostApiResponseHandler.handle_message
        handle_neighbor_list HiveMindHostApiResponseHandler.on_neighbor_list_updated
    listed_answered neighbors e = ground arith

    -- A response about a neighbor at the front of the inbound queue is handed to the callback that was
    -- set last, with the neighbor and its position, or none; the response leaves the queue. Nothing is
    -- put down for the outbound thread, so that the request stays in its queue.
    pub neighbor_response :
        (neighbor : GetNeighborResponseDto)
        → host_api_response hm ≡ Pheromones.HiveMindHostApiResponseBody.get_neighbor neighbor
        → handle_front P (on_neighbor_updated P s (some callback)).0
          ≡ value (
            record (on_neighbor_updated P s (some callback)).0 { inbound_queue = rest },
            neighbor_updated callback (get_neighbor_id neighbor) (place neighbor) ∷ [],
          )
    unfolding on_neighbor_updated accept
    neighbor_response neighbor e =
        handle_front-value P (on_neighbor_updated P s (some callback)).0 message rest
          (on_neighbor_updated P s (some callback)).0.handlers nothing
          (neighbor_updated callback (get_neighbor_id neighbor) (place neighbor) ∷ []) queue
          (neighbor_answered neighbor e)

    -- A response with the list of the neighbors at the front of the inbound queue is handed to the
    -- callback that was set last, with the array and the number of the neighbors; the response leaves
    -- the queue. Nothing is put down for the outbound thread, so that the request stays in its queue.
    pub neighbor_list_response :
        (neighbors : GetNeighborsListResponseDto)
        → host_api_response hm ≡ Pheromones.HiveMindHostApiResponseBody.get_neighbors_list neighbors
        → handle_front P (on_neighbor_list_updated P s (some callback)).0
          ≡ value (
            record (on_neighbor_list_updated P s (some callback)).0 { inbound_queue = rest },
            neighbor_list_updated callback
                  (get_neighbors neighbors)
                  (get_neighbors_length neighbors)
                ∷ [],
          )
    unfolding on_neighbor_list_updated accept
    neighbor_list_response neighbors e =
        handle_front-value P (on_neighbor_list_updated P s (some callback)).0 message rest
          (on_neighbor_list_updated P s (some callback)).0.handlers nothing
          (neighbor_list_updated callback (get_neighbors neighbors) (get_neighbors_length neighbors)
            ∷ [])
          queue (listed_answered neighbors e)
