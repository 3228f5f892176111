-- ===== src/Bridge/Spin.antt =====
-- `HiveMindBridgeImpl::spin`, `sendReturn` and `greet`.
pub mod Returns
pub mod Connect
pub mod KeepAlive
pub mod Inbound
pub mod Calls
use hive_mind_bridge.Prelude.{
  ℕ, ◌+◌, ◌%◌, ◌^◌, Bool, true, false, Option, none, some, List, [], ◌∷◌, ◌++◌, insert, ltb, leb,
  length, if◌then◌else◌, Access, value, ◌>>=◌, nat_eq,
}
use hive_mind_bridge.Pheromones.{Pheromones}
use hive_mind_bridge.Effect.{Effect, logged, serialized, error}
use hive_mind_bridge.Callback.{CallbackReturn}
use hive_mind_bridge.MessageUtils.{
  create_function_call_request, create_greet_message, generate_random_id,
}
use hive_mind_bridge.Handle.{InboundRequestHandle, InboundResponseHandle, invalid, running, ready}
use hive_mind_bridge.MessageHandler.{
  Handlers, Handled, nothing, inbound_request, inbound_response, handle_message, handle_greet,
}
use hive_mind_bridge.TcpServer.{TcpServer, listen, close, lose_client, lose_if}
use hive_mind_bridge.ThreadSafeQueue.{front, pop, empty}
use hive_mind_bridge.Bridge.{Bridge, is_tcp_client_connected, queue_and_send}

-- What the outside answers while `spin` connects: `listen` and `accept`, whether the client goes away
-- during the greeting, and what the deserializer leaves in `greetResponse`.
pub record Connection (P : Pheromones) : Type 0 where
  pub listens : Bool
  pub accepted : Option ℕ
  pub lost : Bool
  pub greet_response : P.MessageDto

module _ (P : Pheromones) where
  open P use {MessageDto}

  -- What `spin` does with the variant that the message handler returns.
  unfoldable pub accept : Bridge P → Handled P → Bridge P × List (Effect P)
  accept s (nothing) = (s, [])
  accept s (inbound_request handle) = (
    record s { inbound_requests_queue = s.inbound_requests_queue ++ handle ∷ [] },
    serialized handle.response_message ∷ [],
  )
  accept s (inbound_response handle) = (
    record s { inbound_responses_map = insert handle.response_id handle s.inbound_responses_map },
    [],
  )

  -- The first message of the inbound queue, if there is one.
  unfoldable pub handle_front : Bridge P → Access (Bridge P × List (Effect P))
  unfolding accept front pop empty
  handle_front s = if empty s.inbound_queue then value (s, []) else do
    message ← front s.inbound_queue
    (handlers, handled, effects) ← handle_message P s.handlers message
    rest ← pop s.inbound_queue
    let (s', sent) = accept (record s { handlers = handlers; inbound_queue = rest }) handled
    value (s', effects ++ sent)

  greet_answer : Bridge P → Option ℕ → Bridge P × Bool
  greet_answer s none = (s, false)
  greet_answer s (some id) = (record s { swarm_agent_id = id }, true)

  unfoldable pub greet : Bridge P → Connection P → Bridge P × Bool × List (Effect P)
  unfolding greet_answer create_greet_message handle_greet lose_if is_tcp_client_connected
  greet s c =
      let sent = serialized (create_greet_message P) ∷ [] in
      let (server, closing) = lose_if P c.lost s.tcp_server in
      let (s', greeted) =
        greet_answer (record s { tcp_server = server }) (handle_greet P c.greet_response) in
      elim (is_tcp_client_connected P s) [
        | true ↦ (s', greeted, sent ++ closing)
        | false ↦ (s, false, [])
      ]

  -- The branch of `spin` without a client: the threads of the last connection are joined first.
  unfoldable pub spin_disconnected : Bridge P → Connection P → Bridge P × List (Effect P)
  unfolding greet listen close
  spin_disconnected s c =
      let (server, listening) = listen P s.tcp_server c.listens c.accepted in
      let joined = record s {
        inbound_thread = false;
        outbound_thread = false;
        tcp_server = server;
      } in
      let (s', greeted, greeting) = greet joined c in
      let (closed, closing) = close P s'.tcp_server in
      elim greeted [
        | true ↦
            (record s' { inbound_thread = true; outbound_thread = true }, listening ++ greeting)
        | false ↦ (record s' { tcp_server = closed }, listening ++ greeting ++ closing)
      ]

  abbrev count_spin : Bridge P → Bridge P
  count_spin s = record s { keep_alive_counter = (s.keep_alive_counter + 1) % 2 ^ 32 }

  -- The end of `spin`.
  unfoldable pub keep_alive : Bridge P → Bridge P
  unfolding queue_and_send create_greet_message
  keep_alive s = elim (ltb 0 s.keep_alive_nb_spin) [
    | true ↦ elim (leb s.keep_alive_nb_spin s.keep_alive_counter) [
      | true ↦
          count_spin
            (queue_and_send P (record s { keep_alive_counter = 0 }) (create_greet_message P)).0
      | false ↦ count_spin s
    ]
    | false ↦ s
  ]

module _ (P : Pheromones) (rand : ℕ → ℕ) where
  open P use {function_call_arguments_max_length}

  -- The result is the number of calls of `rand` made by then.
  unfoldable pub send_return :
      (drawn : ℕ) → InboundRequestHandle P → Option (CallbackReturn P) → ℕ × List (Effect P)
  send_return drawn result none = (drawn, [])
  send_return drawn result (some ret) =
      if ltb function_call_arguments_max_length (length ret.args)
      then (
        drawn,
        logged error
              "Return function contains too many arguments.The limit is currently set to %d arguments"
            ∷ [],
      )
      else (
        drawn + 1,
        serialized (
              create_function_call_request P result.msg_destination_id result.msg_source_id
                (generate_random_id (rand drawn)) result.source_module ret.return_function_name
                ret.args)
            ∷ [],
      )

  -- The loop over `m_inboundRequestsQueue`: the handles that stay, and what is sent.
  unfoldable pub sweep :
      (drawn : ℕ)
      → List (InboundRequestHandle P)
      → ℕ × List (InboundRequestHandle P) × List (Effect P)
  unfolding send_return
  sweep drawn [] = (drawn, [], [])
  sweep drawn (result ∷ rest) = elim result.callback_return_context [
    | invalid ↦ sweep drawn rest
    | running args name ↦
        let (drawn', kept, effects) = sweep drawn rest in (drawn', result ∷ kept, effects)
    | ready returned ↦
        let (drawn', sent) = send_return drawn result returned in
        let (drawn'', kept, effects) = sweep drawn' rest in (drawn'', kept, sent ++ effects)
  ]

  -- The branch of `spin` with a client.
  unfoldable pub spin_connected : Bridge P → Access (Bridge P × List (Effect P))
  unfolding sweep
  spin_connected s = do
    (s', effects) ← handle_front P s
    let (drawn, kept, sent) = sweep s'.drawn s'.inbound_requests_queue
    value (record s' { drawn = drawn; inbound_requests_queue = kept }, effects ++ sent)

  unfoldable pub spin : Bridge P → Connection P → Access (Bridge P × List (Effect P))
  unfolding spin_connected is_tcp_client_connected
  spin s c = do
    (s', effects) ←
        if is_tcp_client_connected P s then spin_connected s else value (spin_disconnected P s c)
    value (keep_alive P s', effects)
