-- ===== src/MessageUtils.antt =====
-- src/MessageUtils.cpp: the messages that the bridge makes. A text that goes through `c_str()` is
-- taken to hold no NUL.
use hive_mind_bridge.Prelude.{
  ℕ, ◌-◌, ◌%◌, ◌^◌, String, Bool, Option, none, some, List, [], ltb, if◌then◌else◌,
}
use hive_mind_bridge.Pheromones.{Pheromones}
use hive_mind_bridge.Pheromones

-- `rand() % UINT32_MAX`, on the number that `rand` drew
abbrev pub generate_random_id : ℕ → ℕ
generate_random_id drawn = drawn % (2 ^ 32 - 1)

module _ (P : Pheromones) where
  open P use {
    MessageDto, FunctionCallArgumentDto, FunctionDescriptionDto, GenericResponseStatusDto,
    UserCallTargetDto, UserCallRequestDto, UserCallResponseDto, HiveMindHostApiRequestDto,
    RequestDto, ResponseDto, GreetingDto, GenericResponseDto, HiveMindHostApiResponseDto, BytesDto,
    FunctionCallRequestDto, FunctionCallResponseDto, message_dto, request_dto, response_dto,
    greeting_dto, user_call_request_dto, user_call_response_dto, function_list_length_response_dto,
    function_description_response_dto, function_call_request_dto, function_call_response_dto,
    hive_mind_host_api_request_dto, bytes_dto, host, payload_max_size,
  }

  -- `MessageDTO(source, destination, request)` and the same for the other alternatives
  abbrev pub request_message : (source destination : ℕ) → RequestDto → MessageDto
  request_message s d r = message_dto s d (Pheromones.MessageBody.request r)

  abbrev pub response_message : (source destination : ℕ) → ResponseDto → MessageDto
  response_message s d r = message_dto s d (Pheromones.MessageBody.response r)

  abbrev pub user_call_response_message :
      (response_id source destination : ℕ) → UserCallResponseDto → MessageDto
  user_call_response_message id s d r =
      response_message s d (response_dto id (Pheromones.ResponseBody.user_call r))

  unfoldable pub create_response_message :
      (response_id msg_source_id msg_destination_id : ℕ)
      → (module_destination : UserCallTargetDto) → GenericResponseStatusDto
      → (ack_message : String) → MessageDto
  create_response_message id s d module_destination status ack_message =
      user_call_response_message id s d (
        user_call_response_dto host module_destination (
          Pheromones.UserCallResponseBody.function_call
            (function_call_response_dto status ack_message)))

  unfoldable pub create_function_list_length_response_message :
      (response_id msg_source_id msg_destination_id : ℕ)
      → (module_destination : UserCallTargetDto) → (length : ℕ) → MessageDto
  create_function_list_length_response_message id s d module_destination length =
      user_call_response_message id s d (
        user_call_response_dto host module_destination (
          Pheromones.UserCallResponseBody.function_list_length
            (function_list_length_response_dto length)))

  unfoldable pub create_function_description_response_message :
      (response_id msg_source_id msg_destination_id : ℕ)
      → (module_destination : UserCallTargetDto) → FunctionDescriptionDto
      → MessageDto
  create_function_description_response_message id s d module_destination description =
      user_call_response_message id s d (
        user_call_response_dto host module_destination (
          Pheromones.UserCallResponseBody.function_description (
            function_description_response_dto
              (Pheromones.DescriptionBody.description description))))

  unfoldable pub create_function_call_request :
      (msg_source_id msg_destination_id request_id : ℕ)
      → (module_destination : UserCallTargetDto) → (callback_name : String)
      → (args : List FunctionCallArgumentDto) → MessageDto
  create_function_call_request s d id module_destination callback_name args = request_message s d (
      request_dto id (
        Pheromones.RequestBody.user_call (
          user_call_request_dto host module_destination (
            Pheromones.UserCallRequestBody.function_call
              (function_call_request_dto callback_name args)))))

  -- The overload without arguments.
  unfoldable pub create_function_call_request_without_args :
      (msg_source_id msg_destination_id request_id : ℕ)
      → (module_destination : UserCallTargetDto) → (callback_name : String) → MessageDto
  unfolding create_function_call_request
  create_function_call_request_without_args s d id module_destination callback_name =
      create_function_call_request s d id module_destination callback_name []

  unfoldable pub create_bytes_message :
      (msg_source_id msg_destination_id request_id byte_req_id packet_number : ℕ)
      → (last_packet : Bool) → (payload : List ℕ) → (payload_length : ℕ) → Option MessageDto
  create_bytes_message s d id byte_req_id packet_number last_packet payload payload_length =
      if ltb payload_max_size payload_length
      then none
      else some (
          request_message s d (
            request_dto id (
              Pheromones.RequestBody.hive_mind_host_api (
                hive_mind_host_api_request_dto (
                  Pheromones.HiveMindHostApiRequestBody.bytes
                    (bytes_dto byte_req_id packet_number last_packet payload payload_length))))))

  unfoldable pub create_greet_message : MessageDto
  create_greet_message = message_dto 0 0 (Pheromones.MessageBody.greeting (greeting_dto 0))
