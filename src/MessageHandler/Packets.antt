-- ===== src/MessageHandler/Packets.antt =====
-- src/MessageHandler.cpp with src/HiveMindHostApiRequestHandler.cpp: what a message does to the payloads that are
-- being collected, as a function of the packet in it.
use hive_mind_bridge.Prelude.{
  ◌≡◌, refl, Option, none, some, List, [], arith, Outcome, Outcome-bind, Outcome-fault,
}
use hive_mind_bridge.Pheromones.{Pheromones}
use hive_mind_bridge.Pheromones
use hive_mind_bridge.Effect.{Effect}
use hive_mind_bridge.Effect.Calls.{delivered, delivered-IsPlain}
use hive_mind_bridge.UserCallbackMap.Invariant.{IsConsistent}
use hive_mind_bridge.UserCallRequestHandler
use hive_mind_bridge.UserCallRequestHandler.Total.{KeepsMap, AsksPastEnd, handle_message-Outcome}
use hive_mind_bridge.HiveMindHostApiRequestHandler
use hive_mind_bridge.HiveMindHostApiRequestHandler.{HiveMindHostApiRequestHandler, handle_bytes}
use hive_mind_bridge.HiveMindHostApiResponseHandler
use hive_mind_bridge.HiveMindHostApiResponseHandler.{
  HiveMindHostApiResponseHandler, handle_neighbor, handle_neighbor_list,
}
use hive_mind_bridge.MessageHandler.{
  Handlers, Handled, handle_message, handle_request, handle_response, handle_user_call_response,
}

module _ (P : Pheromones) where
  open P use {
    MessageDto, BytesDto, RequestDto, ResponseDto, UserCallRequestDto, HiveMindHostApiRequestDto,
    get_message, get_request, get_response, host_api_request,
  }

  -- The packet in a message, if it holds one.
  unfoldable pub bytes_of : MessageDto → Option BytesDto
  bytes_of message = elim (get_message message) [
    | Pheromones.MessageBody.request r ↦ elim (get_request r) [
      | Pheromones.RequestBody.hive_mind_host_api hm ↦ elim (host_api_request hm) [
        | Pheromones.HiveMindHostApiRequestBody.bytes b ↦ some b
        | _ ↦ none
      ]
      | _ ↦ none
    ]
    | _ ↦ none
  ]

  -- What a packet does, if there is one.
  unfoldable pub receive :
      HiveMindHostApiRequestHandler
      → Option BytesDto
      → HiveMindHostApiRequestHandler × List (Effect P)
  receive h none = (h, [])
  receive h (some b) = handle_bytes P h b

  -- The payloads that are being collected, and the calls of the callback for bytes.
  abbrev pub Receives :
      Handlers P → Option BytesDto → Handlers P × Handled P × List (Effect P) → Type 0
  Receives s packet (s', handled, effects) =
      (s'.request_handler ≡ (receive s.request_handler packet).0)
      × (delivered P effects ≡ delivered P (receive s.request_handler packet).1)

  response-delivers :
      (h : HiveMindHostApiResponseHandler) (message : MessageDto)
      (response : P.HiveMindHostApiResponseDto)
      → delivered P (HiveMindHostApiResponseHandler.handle_message P h message response) ≡ []
  unfolding delivered HiveMindHostApiResponseHandler.handle_message handle_neighbor
      handle_neighbor_list
  response-delivers h message response = ground arith

  module _ (s : Handlers P) (message : MessageDto) where
    user_call-Receives :
        (r : RequestDto) (uc : UserCallRequestDto)
        → get_message message ≡ Pheromones.MessageBody.request r
        → get_request r ≡ Pheromones.RequestBody.user_call uc
        → IsConsistent P s.callback_map
        → Outcome (Receives s none) Unit (handle_message P s message)
    unfolding handle_message receive delivered
    user_call-Receives r uc holds e c =
        let answered = handle_message-Outcome P s.callback_map message r uc holds c in
        rw (holds, handle_message)
          (rw (e, handle_request)
            (Outcome-bind (KeepsMap P s.callback_map) (Receives s none) Unit
              (UserCallRequestHandler.handle_message P s.callback_map message uc) _
              (Outcome-fault (KeepsMap P s.callback_map) (AsksPastEnd P s.callback_map uc) Unit
                (UserCallRequestHandler.handle_message P s.callback_map message uc) (λ past. tt)
                answered)
              (λ (m, handle, effects) (kept, known, plain).
                (refl, delivered-IsPlain P effects plain))))

    host_api-Receives :
        (r : RequestDto) (hm : HiveMindHostApiRequestDto)
        (body : Pheromones.HiveMindHostApiRequestBody BytesDto P.GetNeighborRequestDto
          P.GetNeighborsListRequestDto)
        → get_message message ≡ Pheromones.MessageBody.request r
        → get_request r ≡ Pheromones.RequestBody.hive_mind_host_api hm
        → host_api_request hm ≡ body
        → Outcome (Receives s (bytes_of message)) Unit (handle_message P s message)
    unfolding handle_message receive bytes_of delivered HiveMindHostApiRequestHandler.handle_message
    host_api-Receives r hm (Pheromones.HiveMindHostApiRequestBody.bytes b) holds e api =
        rw (holds, bytes_of, handle_message)
          (rw (e, bytes_of, handle_request)
            (rw (api, bytes_of, HiveMindHostApiRequestHandler.handle_message) (refl, refl)))
    host_api-Receives r hm (Pheromones.HiveMindHostApiRequestBody.get_neighbor n) holds e api =
        rw (holds, bytes_of, handle_message)
          (rw (e, bytes_of, handle_request)
            (rw (api, bytes_of, HiveMindHostApiRequestHandler.handle_message) (refl, refl)))
    host_api-Receives r hm (Pheromones.HiveMindHostApiRequestBody.get_neighbors_list n) holds e
          api =
        rw (holds, bytes_of, handle_message)
          (rw (e, bytes_of, handle_request)
            (rw (api, bytes_of, HiveMindHostApiRequestHandler.handle_message) (refl, refl)))
    host_api-Receives r hm (Pheromones.HiveMindHostApiRequestBody.other n) holds e api =
        rw (holds, bytes_of, handle_message)
          (rw (e, bytes_of, handle_request)
            (rw (api, bytes_of, HiveMindHostApiRequestHandler.handle_message) (refl, refl)))

    request-Receives :
        (r : RequestDto)
        (body : Pheromones.RequestBody UserCallRequestDto P.HiveMindHostApiRequestDto)
        → get_message message ≡ Pheromones.MessageBody.request r
        → get_request r ≡ body
        → IsConsistent P s.callback_map
        → Outcome (Receives s (bytes_of message)) Unit (handle_message P s message)
    unfolding handle_message receive bytes_of delivered
    request-Receives r (Pheromones.RequestBody.user_call uc) holds e c =
        let nothing_carried : bytes_of message ≡ none =
          rw (holds, bytes_of, handle_message) (rw (e, bytes_of, handle_request) refl) in
        rw nothing_carried (user_call-Receives r uc holds e c)
    request-Receives r (Pheromones.RequestBody.hive_mind_host_api hm) holds e c =
        host_api-Receives r hm (host_api_request hm) holds e refl
    request-Receives r (Pheromones.RequestBody.other i) holds e c =
        rw (holds, bytes_of, handle_message) (rw (e, bytes_of, handle_request) (refl, refl))

    response-Receives :
        (r : ResponseDto)
        (body : Pheromones.ResponseBody P.GenericResponseDto P.UserCallResponseDto
          P.HiveMindHostApiResponseDto)
        → get_response r ≡ body
        → Outcome (Receives s none) Unit (handle_response P s message r)
    unfolding handle_response handle_user_call_response receive delivered
    response-Receives r (Pheromones.ResponseBody.generic g) e = rw (e, handle_response) (refl, refl)
    response-Receives r (Pheromones.ResponseBody.user_call uc) e =
        rw (e, handle_response) (ground arith)
    response-Receives r (Pheromones.ResponseBody.hive_mind_host_api hm) e =
        rw (e, handle_response) (refl, response-delivers s.response_handler message hm)
    response-Receives r (Pheromones.ResponseBody.other n) e = rw (e, handle_response) (refl, refl)

    message-Receives :
        (body : Pheromones.MessageBody RequestDto ResponseDto P.GreetingDto)
        → get_message message ≡ body
        → IsConsistent P s.callback_map
        → Outcome (Receives s (bytes_of message)) Unit (handle_message P s message)
    unfolding handle_message receive bytes_of delivered
    message-Receives (Pheromones.MessageBody.request r) holds c =
        request-Receives r (get_request r) holds refl c
    message-Receives (Pheromones.MessageBody.response r) holds c =
        rw (holds, bytes_of, handle_message) (response-Receives r (get_response r) refl)
    message-Receives (Pheromones.MessageBody.greeting g) holds c =
        rw (holds, bytes_of, handle_message) (refl, refl)
    message-Receives (Pheromones.MessageBody.other i) holds c =
        rw (holds, bytes_of, handle_message) (refl, refl)

    -- On a consistent map, a message that is handled does to the payloads what the packet in it does,
    -- and a message without a packet does nothing to them.
    pub handle_message-Receives :
        IsConsistent P s.callback_map
        → Outcome (Receives s (bytes_of message)) Unit (handle_message P s message)
    handle_message-Receives c = message-Receives (get_message message) refl c
