-- ===== src/Bridge/Outbound.antt =====
-- The threads of a connection: `HiveMindBridgeImpl::inboundThread` and `outboundThread`.
pub mod Delivery
use hive_mind_bridge.Prelude.{
  ℕ, Bool, true, false, Option, none, some, List, [], ◌∷◌, lookup, erase, leb, if◌then◌else◌,
  Access, value, ◌>>=◌, nat_eq, is_set,
}
use hive_mind_bridge.Pheromones.{Pheromones}
use hive_mind_bridge.Pheromones
use hive_mind_bridge.Effect.{Effect, logged, serialized, debug, warn}
use hive_mind_bridge.Handle.{
  set_state, OutboundRequestHandle, OutboundRequestState, bump_delay_since_sent,
}
use hive_mind_bridge.ThreadSafeQueue.{push, front, pop, empty}
use hive_mind_bridge.TcpServer.{lose_if}
use hive_mind_bridge.Bridge.{Bridge, is_tcp_client_connected, thread_sleep_ms, delay_before_drop_s}

module _ (P : Pheromones) where
  open P use {MessageDto, RequestDto, get_message, request_id}

  -- One round of the inbound loop, on what the deserializer gives, a message or a failure; the client
  -- may be lost on the way.
  unfoldable pub inbound_round :
      Bridge P → (lost : Bool) → (received : Option MessageDto) → Bridge P × List (Effect P)
  unfolding push is_tcp_client_connected
  inbound_round s lost received =
      let (server, closing) = lose_if P lost s.tcp_server in
      elim (is_tcp_client_connected P s) [
        | true ↦ elim received [
          | none ↦ (record s { tcp_server = server }, closing)
          | some message ↦ (
            record s { tcp_server = server; inbound_queue = push s.inbound_queue message },
            closing,
          )
        ]
        | false ↦ (s, [])
      ]

  -- A request that has no response yet, taken off the queue.
  unfoldable pub send_or_cycle : Bridge P → OutboundRequestHandle P → Bridge P × List (Effect P)
  unfolding push
  send_or_cycle s handle = elim handle.state [
    | OutboundRequestState.ready ↦ (
      record s {
        outbound_queue = push s.outbound_queue (set_state P handle OutboundRequestState.sent);
      },
      serialized handle.message ∷ [],
    )
    | OutboundRequestState.sent ↦
        let bumped = bump_delay_since_sent P handle thread_sleep_ms in
        if leb delay_before_drop_s bumped.delay_since_sent
        then (s, [])
        else (record s { outbound_queue = push s.outbound_queue bumped }, [])
  ]

  -- A handle that was taken off the queue.
  unfoldable pub process : Bridge P → OutboundRequestHandle P → Bridge P × List (Effect P)
  unfolding send_or_cycle
  process s handle = elim (get_message handle.message) [
    | Pheromones.MessageBody.request r ↦
        if is_set (lookup (request_id r) s.inbound_responses_map)
        then (
          record s { inbound_responses_map = erase (request_id r) s.inbound_responses_map },
          logged debug "RECEIVED VALID RESPONSE" ∷ [],
        )
        else send_or_cycle s handle
    | Pheromones.MessageBody.greeting g ↦ (s, serialized handle.message ∷ [])
    | _ ↦ (s, logged warn "Outbound queue contains an unsupported message" ∷ [])
  ]

  -- One round of the outbound loop.
  unfoldable pub outbound_round : Bridge P → Access (Bridge P × List (Effect P))
  unfolding front pop empty is_tcp_client_connected
  outbound_round s =
      if is_tcp_client_connected P s
      then (if empty s.outbound_queue then value (s, []) else do
        handle ← front s.outbound_queue
        rest ← pop s.outbound_queue
        value (process (record s { outbound_queue = rest }) handle))
      else value (s, [])
