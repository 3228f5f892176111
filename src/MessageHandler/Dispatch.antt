-- ===== src/MessageHandler/Dispatch.antt =====
-- Each kind of message reaches its handler, and what the handler gives is what comes back.
use hive_mind_bridge.Prelude.{◌≡◌, List, [], arith, value}
use hive_mind_bridge.Pheromones.{Pheromones}
use hive_mind_bridge.Pheromones
use hive_mind_bridge.Effect.{Effect}
use hive_mind_bridge.UserCallbackMap.{UserCallbackMap}
use hive_mind_bridge.Handle.{InboundRequestHandle, InboundResponseHandle}
use hive_mind_bridge.HiveMindHostApiRequestHandler
use hive_mind_bridge.HiveMindHostApiRequestHandler.{handle_bytes}
use hive_mind_bridge.UserCallRequestHandler
use hive_mind_bridge.MessageHandler.{
  Handlers, nothing, inbound_request, inbound_response, handle_message,
}

module _ (P : Pheromones) where
  open P use {
    MessageDto, RequestDto, ResponseDto, UserCallRequestDto, HiveMindHostApiRequestDto, BytesDto,
    GenericResponseDto, UserCallResponseDto, FunctionCallResponseDto, get_message, get_request,
    host_api_request, get_response, response_id, get_status, get_details, user_call_response,
    function_call_response,
  }

  pub handle_message-user_call :
      (s : Handlers P) (message : MessageDto) (r : RequestDto) (uc : UserCallRequestDto)
      (m : UserCallbackMap P) (handle : InboundRequestHandle P) (effects : List (Effect P))
      → get_message message ≡ Pheromones.MessageBody.request r
      → get_request r ≡ Pheromones.RequestBody.user_call uc
      → UserCallRequestHandler.handle_message P s.callback_map message uc
        ≡ value (m, handle, effects)
      → handle_message P s message
        ≡ value (record s { callback_map = m }, inbound_request handle, effects)
  unfolding handle_message
  handle_message-user_call s message r uc m handle effects holds user answer = ground arith

  pub handle_message-bytes :
      (s : Handlers P) (message : MessageDto) (r : RequestDto) (hm : HiveMindHostApiRequestDto)
      (b : BytesDto)
      → get_message message ≡ Pheromones.MessageBody.request r
      → get_request r ≡ Pheromones.RequestBody.hive_mind_host_api hm
      → host_api_request hm ≡ Pheromones.HiveMindHostApiRequestBody.bytes b
      → let (h, effects) = handle_bytes P s.request_handler b in
        handle_message P s message ≡ value (record s { request_handler = h }, nothing, effects)
  unfolding handle_message HiveMindHostApiRequestHandler.handle_message
  handle_message-bytes s message r hm b holds api packet = ground arith

  -- The status that a response carries: a generic response, or a user call's generic response or
  -- function call response.
  pub data Reports (response : ResponseDto) : GenericResponseDto → Type 0 where
    plain :
        {g : GenericResponseDto}
        → get_response response ≡ Pheromones.ResponseBody.generic g
        → Reports response g
    user_call :
        {uc : UserCallResponseDto} {g : GenericResponseDto}
        → get_response response ≡ Pheromones.ResponseBody.user_call uc
        → user_call_response uc ≡ Pheromones.UserCallResponseBody.generic g
        → Reports response g
    call :
        {uc : UserCallResponseDto} {f : FunctionCallResponseDto}
        → get_response response ≡ Pheromones.ResponseBody.user_call uc
        → user_call_response uc ≡ Pheromones.UserCallResponseBody.function_call f
        → Reports response (function_call_response f)

  abbrev pub handle_of : ResponseDto → GenericResponseDto → InboundResponseHandle P
  handle_of response g = record {
    response_id = response_id response;
    response_status = get_status g;
    status_details = get_details g;
  }

  pub handle_message-Reports :
      (s : Handlers P) (message : MessageDto) (response : ResponseDto) {g : GenericResponseDto}
      → get_message message ≡ Pheromones.MessageBody.response response
      → Reports response g
      → handle_message P s message ≡ value (s, inbound_response (handle_of response g), [])
  unfolding handle_message
  handle_message-Reports s message response holds (plain e) = ground arith
  handle_message-Reports s message response holds (user_call e e') = ground arith
  handle_message-Reports s message response holds (call e e') = ground arith
