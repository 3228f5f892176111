-- ===== src/Bridge/Spin/Inbound.antt =====
-- What a spin does with the first message of the inbound queue.
use hive_mind_bridge.Prelude.{
  undefined_behaviour, uncaught_exception, ℕ, ◌≡◌, refl, ap, ◌∙◌, true, none, List, [], ◌∷◌, ◌++◌,
  arith, Dict, insert, lookup, erase, is_set, lookup-erase_self, lookup-insert_self, nat_eq, value,
}
use hive_mind_bridge.Pheromones.{Pheromones}
use hive_mind_bridge.Pheromones
use hive_mind_bridge.Effect.{Effect, serialized, logged, debug}
use hive_mind_bridge.Handle.{InboundRequestHandle, InboundResponseHandle, OutboundRequestHandle}
use hive_mind_bridge.UserCallbackMap.{UserCallbackMap}
use hive_mind_bridge.UserCallRequestHandler
use hive_mind_bridge.MessageHandler.{
  Handlers, Handled, inbound_request, inbound_response, handle_message,
}
use hive_mind_bridge.MessageHandler.Dispatch.{
  Reports, handle_of, handle_message-user_call, handle_message-Reports,
}
use hive_mind_bridge.Bridge.Outbound.{outbound_round, process}
use hive_mind_bridge.Bridge.Outbound.Delivery.{outbound_round-cons}
use hive_mind_bridge.Bridge.{Bridge}
use hive_mind_bridge.Bridge.Spin.{accept, handle_front}

module _ (P : Pheromones) where
  open P use {
    MessageDto, RequestDto, ResponseDto, GenericResponseDto, response_id, request_id,
    UserCallRequestDto, get_message, get_request,
  }

  pub handle_front-value :
      (s : Bridge P) (message : MessageDto) (rest : List MessageDto) (handlers : Handlers P)
      (handled : Handled P) (effects : List (Effect P))
      → s.inbound_queue ≡ message ∷ rest
      → handle_message P s.handlers message ≡ value (handlers, handled, effects)
      → let (s', sent) =
          accept P (record s { handlers = handlers; inbound_queue = rest }) handled in
        handle_front P s ≡ value (s', effects ++ sent)
  unfolding handle_front
  handle_front-value s message rest handlers handled effects q answer = ground arith

  pub handle_front-fault :
      (s : Bridge P) (message : MessageDto) (rest : List MessageDto)
      → s.inbound_queue ≡ message ∷ rest
      → handle_message P s.handlers message ≡ undefined_behaviour
      → handle_front P s ≡ undefined_behaviour
  unfolding handle_front
  handle_front-fault s message rest q faults = ground arith

  pub handle_front-exception :
      (s : Bridge P) (message : MessageDto) (rest : List MessageDto)
      → s.inbound_queue ≡ message ∷ rest
      → handle_message P s.handlers message ≡ uncaught_exception
      → handle_front P s ≡ uncaught_exception
  unfolding handle_front
  handle_front-exception s message rest q escapes = ground arith

  pub handle_front-empty : (s : Bridge P) → s.inbound_queue ≡ [] → handle_front P s ≡ value (s, [])
  unfolding handle_front
  handle_front-empty s q = ground arith

  -- A user call request at the front of the queue, which its handler answers without a fault,
  -- leaves the queue and is acknowledged: the response of the handle is sent after what the handler
  -- did, and the handle goes to the end of the inbound requests.
  pub handle_front-request :
      (s : Bridge P) (message : MessageDto) (rest : List MessageDto) (r : RequestDto)
      (uc : UserCallRequestDto) (m : UserCallbackMap P) (handle : InboundRequestHandle P)
      (effects : List (Effect P))
      → s.inbound_queue ≡ message ∷ rest
      → get_message message ≡ Pheromones.MessageBody.request r
      → get_request r ≡ Pheromones.RequestBody.user_call uc
      → UserCallRequestHandler.handle_message P s.handlers.callback_map message uc
        ≡ value (m, handle, effects)
      → handle_front P s
        ≡ value (
          record s {
            handlers = record s.handlers { callback_map = m };
            inbound_queue = rest;
            inbound_requests_queue = s.inbound_requests_queue ++ handle ∷ [];
          },
          effects ++ serialized handle.response_message ∷ [],
        )
  unfolding accept
  handle_front-request s message rest r uc m handle effects q holds user answer =
      handle_front-value s message rest (record s.handlers { callback_map = m })
        (inbound_request handle) effects q
        (handle_message-user_call P s.handlers message r uc m handle effects holds user answer)

  process-answered :
      (s : Bridge P) (h : OutboundRequestHandle P) (r : RequestDto) (i : ℕ)
      (m : Dict ℕ (InboundResponseHandle P))
      → get_message h.message ≡ Pheromones.MessageBody.request r
      → request_id r ≡ i
      → is_set (lookup i m) ≡ true
      → process P (record s { inbound_responses_map = m }) h ≡ (
        record s { inbound_responses_map = erase i m },
        logged debug "RECEIVED VALID RESPONSE" ∷ [],
      )
  unfolding process
  process-answered s h r i m holds same answered =
      rw (holds, process) (rw (same, answered, process))

  -- A request stops being sent once a response to it is in. With a client, a response with a
  -- status, generic or to a user call, at the front of the inbound queue leaves it and sends
  -- nothing; if a request with the id of the response stands at the front of the outbound queue,
  -- the next round takes it off, sends nothing, and forgets the response.
  pub response_ends_request :
      (s : Bridge P) (message : MessageDto) (rest : List MessageDto) (response : ResponseDto)
      {g : GenericResponseDto} (h : OutboundRequestHandle P) (hs : List (OutboundRequestHandle P))
      (r : RequestDto)
      → s.tcp_server.is_connected ≡ true
      → s.inbound_queue ≡ message ∷ rest
      → get_message message ≡ Pheromones.MessageBody.response response
      → Reports P response g
      → s.outbound_queue ≡ h ∷ hs
      → get_message h.message ≡ Pheromones.MessageBody.request r
      → request_id r ≡ response_id response
      → (s' : Bridge P) × (handle_front P s ≡ value (s', []))
        × (s'.inbound_queue ≡ rest)
        × ((s'' : Bridge P) × (outbound_round P s'
              ≡ value (s'', logged debug "RECEIVED VALID RESPONSE" ∷ []))
            × (s''.outbound_queue ≡ hs)
            × (lookup (response_id response) s''.inbound_responses_map ≡ none))
  unfolding accept
  response_ends_request s message rest response {g} h hs r connected q holds reports queue
        request_of same =
      let i = response_id response in
      let m = insert i (handle_of P response g) s.inbound_responses_map in
      (
        record s { inbound_queue = rest; inbound_responses_map = m },
        handle_front-value s message rest s.handlers (inbound_response (handle_of P response g)) []
            q (handle_message-Reports P s.handlers message response holds reports),
        refl,
        (
          record s { inbound_queue = rest; outbound_queue = hs; inbound_responses_map = erase i m },
          outbound_round-cons P (record s { inbound_queue = rest; inbound_responses_map = m }) h hs
                connected queue
              ∙ ap value (
                  process-answered (record s { inbound_queue = rest; outbound_queue = hs }) h r i m
                    request_of same
                    (rw (lookup-insert_self i (handle_of P response g) s.inbound_responses_map)
                      refl)),
          refl,
          lookup-erase_self i m,
        ),
      )
