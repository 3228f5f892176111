-- ===== src/MessageHandler.antt =====
-- src/MessageHandler.cpp: a message goes to the handler of its kind.
pub mod Dispatch
pub mod Total
pub mod Packets
use hive_mind_bridge.Prelude.{ℕ, Option, none, some, List, [], ◌∷◌, Access, value, ◌>>=◌}
use hive_mind_bridge.Pheromones.{Pheromones}
use hive_mind_bridge.Pheromones
use hive_mind_bridge.Effect.{Effect, logged, info, warn}
use hive_mind_bridge.UserCallbackMap.{UserCallbackMap}
use hive_mind_bridge.Handle.{InboundRequestHandle, InboundResponseHandle}
use hive_mind_bridge.HiveMindHostApiRequestHandler
use hive_mind_bridge.HiveMindHostApiRequestHandler.{HiveMindHostApiRequestHandler}
use hive_mind_bridge.HiveMindHostApiResponseHandler
use hive_mind_bridge.HiveMindHostApiResponseHandler.{HiveMindHostApiResponseHandler}
use hive_mind_bridge.UserCallRequestHandler

module _ (P : Pheromones) where
  open P use {
    MessageDto, RequestDto, ResponseDto, UserCallRequestDto, UserCallResponseDto,
    HiveMindHostApiRequestDto, HiveMindHostApiResponseDto, GenericResponseDto, get_message,
    get_request, get_response, response_id, greeting_id, get_status, get_details,
    user_call_response, function_call_response,
  }

  -- The state of the handlers, and of the map that the user call handler reads.
  pub record Handlers : Type 0 where
    pub callback_map : UserCallbackMap P
    pub request_handler : HiveMindHostApiRequestHandler
    pub response_handler : HiveMindHostApiResponseHandler

  -- `std::variant<std::monostate, InboundRequestHandle, InboundResponseHandle>`
  pub data Handled : Type 0 where
    nothing : Handled
    inbound_request : InboundRequestHandle P → Handled
    inbound_response : InboundResponseHandle P → Handled

  abbrev generic_handle : ResponseDto → GenericResponseDto → Handled
  generic_handle response generic = inbound_response (record {
    response_id = response_id response;
    response_status = get_status generic;
    status_details = get_details generic;
  })

  -- The last lines of `handleMessage`.
  abbrev unknown : Handlers → Access (Handlers × Handled × List (Effect P))
  unknown s = value (s, nothing, logged warn "Cannot handle message : unknown message type %d" ∷ [])

  handle_request :
      Handlers → MessageDto → RequestDto → Access (Handlers × Handled × List (Effect P))
  handle_request s message request = elim (get_request request) [
    | Pheromones.RequestBody.user_call uc ↦ do
      (m, handle, effects) ← UserCallRequestHandler.handle_message P s.callback_map message uc
      value (record s { callback_map = m }, inbound_request handle, effects)
    | Pheromones.RequestBody.hive_mind_host_api hm ↦
        let (h, effects) =
          HiveMindHostApiRequestHandler.handle_message P s.request_handler message hm in
        value (record s { request_handler = h }, nothing, effects)
    | Pheromones.RequestBody.other i ↦ unknown s
  ]

  handle_user_call_response :
      Handlers → ResponseDto → UserCallResponseDto → Access (Handlers × Handled × List (Effect P))
  handle_user_call_response s response uc = elim (user_call_response uc) [
    | Pheromones.UserCallResponseBody.generic g ↦ value (s, generic_handle response g, [])
    | Pheromones.UserCallResponseBody.function_call f ↦
        value (s, generic_handle response (function_call_response f), [])
    | _ ↦ value (
      s,
      nothing,
      logged warn "Cannot handle user call response : unknown user call response type" ∷ [],
    )
  ]

  handle_response :
      Handlers → MessageDto → ResponseDto → Access (Handlers × Handled × List (Effect P))
  unfolding handle_user_call_response
  handle_response s message response = elim (get_response response) [
    | Pheromones.ResponseBody.generic g ↦ value (s, generic_handle response g, [])
    | Pheromones.ResponseBody.user_call uc ↦ handle_user_call_response s response uc
    | Pheromones.ResponseBody.hive_mind_host_api hm ↦
        value (
          s,
          nothing,
          HiveMindHostApiResponseHandler.handle_message P s.response_handler message hm,
        )
    | Pheromones.ResponseBody.other i ↦ unknown s
  ]

  unfoldable pub handle_message :
      Handlers → MessageDto → Access (Handlers × Handled × List (Effect P))
  unfolding handle_request handle_response
  handle_message s message = elim (get_message message) [
    | Pheromones.MessageBody.request r ↦ handle_request s message r
    | Pheromones.MessageBody.response r ↦ handle_response s message r
    | Pheromones.MessageBody.greeting g ↦
        value (s, nothing, logged info "Received greeting from %d" ∷ [])
    | Pheromones.MessageBody.other i ↦ unknown s
  ]

  unfoldable pub handle_greet : MessageDto → Option ℕ
  handle_greet message = elim (get_message message) [
    | Pheromones.MessageBody.greeting g ↦ some (greeting_id g)
    | _ ↦ none
  ]
