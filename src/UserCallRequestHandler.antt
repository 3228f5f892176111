-- ===== src/UserCallRequestHandler.antt =====
-- src/user-call/UserCallRequestHandler.cpp: requests of other agents about this host's functions. Each
-- gets an answer, and a call of a function starts a thread, whose result comes later.
pub mod Replies
pub mod Total
use hive_mind_bridge.Prelude.{
  ℕ, String, Option, none, some, List, [], ◌∷◌, map, Access, value, uncaught_exception, value_of,
  ◌>>=◌,
}
use hive_mind_bridge.Pheromones.{Pheromones}
use hive_mind_bridge.Pheromones
use hive_mind_bridge.Effect.{Effect, logged, warn}
use hive_mind_bridge.Callback.{
  CallbackReturn, CallOutcome, returned, threw_exception, threw_unknown,
  UserCallbackArgumentDescription,
}
use hive_mind_bridge.UserCallbackMap.{
  UserCallbackMap, get_callback, get_length, get_manifest_at, get_name_at,
}
use hive_mind_bridge.Handle.{
  set_response, set_callback_return_context, set_callback_name, set_message_source_id,
  set_message_destination_id, set_source_module, InboundRequestHandle, Future,
  default_request_handle, running, ready,
}

module _ (P : Pheromones) where
  open P use {
    MessageDto, RequestDto, UserCallRequestDto, UserCallResponseDto, FunctionListLengthResponseDto,
    FunctionDescriptionRequestDto, FunctionDescriptionResponseDto, FunctionDescriptionArgumentDto,
    FunctionCallRequestDto, FunctionCallResponseDto, FunctionCallArgumentDto, GenericResponseDto,
    GenericResponseStatusDto, host, status_ok, status_bad_request, status_unknown, message_dto,
    response_dto, generic_response_dto, user_call_response_dto, function_list_length_response_dto,
    function_description_argument_dto, function_description_dto, function_description_response_dto,
    function_call_response_dto, get_source_id, get_destination_id, get_message, request_id,
    user_call_source, user_call_request, get_index, get_function_name, get_arguments,
  }

  unfoldable pub handle_function_list_length_request :
      UserCallbackMap P → FunctionListLengthResponseDto
  handle_function_list_length_request m = function_list_length_response_dto (get_length P m)

  abbrev describe_argument : UserCallbackArgumentDescription P → FunctionDescriptionArgumentDto
  describe_argument arg = function_description_argument_dto arg.name arg.type

  unfoldable pub handle_function_description_request :
      UserCallbackMap P
      → FunctionDescriptionRequestDto
      → Access (UserCallbackMap P × FunctionDescriptionResponseDto)
  handle_function_description_request m request = do
    let index = get_index request
    (m', found) ← get_manifest_at P m index
    elim found [
      | some manifest ↦ do
        name ← get_name_at P m' index
        name ← value_of name
        value (
          m',
          function_description_response_dto (
              Pheromones.DescriptionBody.description
                (function_description_dto name (map describe_argument manifest))),
        )
      | none ↦ value (
        m',
        function_description_response_dto (
            Pheromones.DescriptionBody.generic
              (generic_response_dto status_bad_request "Index out of bounds.")),
      )
    ]

  unfoldable pub handle_function_call_request :
      UserCallbackMap P
      → FunctionCallRequestDto
      → InboundRequestHandle P
      → FunctionCallResponseDto × InboundRequestHandle P × List (Effect P)
  handle_function_call_request m request result =
      let function_name = get_function_name request in
      elim (get_callback P m function_name) [
        | some callback ↦ (
          function_call_response_dto status_ok "",
          set_callback_name P
              (set_callback_return_context P result (running (get_arguments request) function_name))
              function_name,
          [],
        )
        | none ↦ (
          function_call_response_dto status_bad_request "Unknown function.",
          result,
          logged warn "Function name \"%s\" was not registered as a callback" ∷ [],
        )
      ]

  -- The end of `handleMessage`: the response, addressed to where the request came from.
  abbrev respond :
      MessageDto
      → (request_id : ℕ) → UserCallResponseDto
      → InboundRequestHandle P
      → InboundRequestHandle P
  respond message id response result = set_response P result (
      message_dto (get_destination_id message) (get_source_id message) (
        Pheromones.MessageBody.response
          (response_dto id (Pheromones.ResponseBody.user_call response))))

  -- The branches of `handleMessage`, on the kind of request.
  handle_request :
      UserCallbackMap P
      → MessageDto
      → (request_id : ℕ) → UserCallRequestDto
      → Access (UserCallbackMap P × InboundRequestHandle P × List (Effect P))
  unfolding handle_function_list_length_request handle_function_description_request
      handle_function_call_request
  handle_request m message id request =
      let source_module = user_call_source request in
      let reply = user_call_response_dto host source_module in
      let result = default_request_handle P in
      elim (user_call_request request) [
        | Pheromones.UserCallRequestBody.function_list_length r ↦ value (
          m,
          respond message id
              (reply (
                Pheromones.UserCallResponseBody.function_list_length
                  (handle_function_list_length_request m)))
              result,
          [],
        )
        | Pheromones.UserCallRequestBody.function_description r ↦ do
          (m', response) ← handle_function_description_request m r
          value (
            m',
            respond message id
                (reply (Pheromones.UserCallResponseBody.function_description response)) result,
            [],
          )
        | Pheromones.UserCallRequestBody.function_call r ↦
            let (response, result', effects) = handle_function_call_request m r result in
            value (
              m,
              respond message id (reply (Pheromones.UserCallResponseBody.function_call response)) (
                  set_source_module P
                    (set_message_destination_id P
                      (set_message_source_id P result' (get_source_id message))
                      (get_destination_id message))
                    source_module),
              effects,
            )
        | Pheromones.UserCallRequestBody.other i ↦ value (
          m,
          respond message id
              (reply (
                Pheromones.UserCallResponseBody.generic
                  (generic_response_dto status_unknown "Unknown UserCallRequest")))
              result,
          [],
        )
      ]

  -- `std::get<RequestDTO>` throws on a message that holds no request.
  unfoldable pub handle_message :
      UserCallbackMap P
      → MessageDto
      → UserCallRequestDto
      → Access (UserCallbackMap P × InboundRequestHandle P × List (Effect P))
  unfolding handle_request
  handle_message m message request = elim (get_message message) [
    | Pheromones.MessageBody.request r ↦ handle_request m message (request_id r) request
    | _ ↦ uncaught_exception
  ]

  unfoldable pub caught : CallOutcome P → Option (CallbackReturn P) × List (Effect P)
  caught (returned r) = (r, [])
  caught threw_exception = (none, logged warn "Callback %s has thrown an exception: %s" ∷ [])
  caught threw_unknown = (none, logged warn "Callback %s has thrown an unknown exception" ∷ [])

  -- The thread of a call: the function is looked up again when the thread runs.
  unfoldable pub callback_wrapper :
      UserCallbackMap P
      → List FunctionCallArgumentDto
      → (function_name : String) → Option (CallbackReturn P) × List (Effect P)
  unfolding caught
  callback_wrapper m args function_name = elim (get_callback P m function_name) [
    | some callback ↦ caught (callback args)
    | none ↦ (none, logged warn "Function name \"%s\" was not registered as a callback" ∷ [])
  ]

  -- The thread of a running call ends, and its future is ready.
  unfoldable pub finish_call : UserCallbackMap P → Future P → Future P × List (Effect P)
  unfolding callback_wrapper
  finish_call m (running args function_name) =
      let (result, effects) = callback_wrapper m args function_name in (ready result, effects)
  finish_call m done = (done, [])
