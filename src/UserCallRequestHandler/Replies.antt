-- ===== src/UserCallRequestHandler/Replies.antt =====
-- Every user call request gets one answer: to its sender, under its id, for the module it came from.
use hive_mind_bridge.Prelude.{
  ℕ, lt-eq-gt, ◌<◌, ◌≡◌, refl, ap, ◌⊎◌, inl, inr, String, true, false, some, List, [], ◌∷◌, map,
  arith, is_set, length, value, undefined_behaviour, Option-cases, get_elem?,
}
use hive_mind_bridge.Pheromones.{Pheromones}
use hive_mind_bridge.Pheromones
use hive_mind_bridge.Effect.{Effect, logged, warn}
use hive_mind_bridge.Callback.{UserCallbackFunctionWrapper}
use hive_mind_bridge.UserCallbackMap.{UserCallbackMap, get_callback}
use hive_mind_bridge.UserCallbackMap.Invariant.{IsConsistent}
use hive_mind_bridge.UserCallbackMap.Registry.{registry, get_at-registry, get_at_past}
use hive_mind_bridge.Handle.{InboundRequestHandle, default_request_handle, invalid, running}
use hive_mind_bridge.UserCallRequestHandler.{
  handle_message, handle_request, handle_function_description_request, handle_function_call_request,
}

module _ (P : Pheromones) where
  open P use {
    MessageDto, RequestDto, UserCallRequestDto, UserCallResponseDto, FunctionCallRequestDto,
    FunctionDescriptionRequestDto, FunctionCallArgumentDto, GenericResponseDto,
    FunctionCallResponseDto, FunctionListLengthResponseDto, FunctionDescriptionResponseDto,
    get_source_id, get_destination_id, get_message, get_response, request_id, response_id,
    user_call_source, user_call_request, user_call_response_dto, host, function_call_response_dto,
    function_list_length_response_dto, function_description_response_dto, generic_response_dto,
    function_description_dto, function_description_argument_dto, status_ok, status_bad_request,
    status_unknown, get_function_name, get_arguments, get_index,
  }

  abbrev pub Answer : Type 0
  Answer =
      Pheromones.UserCallResponseBody GenericResponseDto FunctionCallResponseDto
        FunctionListLengthResponseDto FunctionDescriptionResponseDto

  -- The message answers `message`, whose request has the id `id`: source and destination are swapped,
  -- and the response carries the id and the content.
  pub record Answers (message : MessageDto) (id : ℕ) (content : UserCallResponseDto)
      (response : MessageDto) : Type 0 where
    pub from : get_source_id response ≡ get_destination_id message
    pub to : get_destination_id response ≡ get_source_id message
    pub body :
        (r : P.ResponseDto) × (get_message response ≡ Pheromones.MessageBody.response r)
        × (response_id r ≡ id)
        × (get_response r ≡ Pheromones.ResponseBody.user_call content)

  reply : MessageDto → (id : ℕ) → UserCallResponseDto → MessageDto
  reply message id content = P.message_dto (get_destination_id message) (get_source_id message) (
      Pheromones.MessageBody.response
        (P.response_dto id (Pheromones.ResponseBody.user_call content)))

  reply-Answers :
      (message : MessageDto) (id : ℕ) (content : UserCallResponseDto)
      → Answers message id content (reply message id content)
  unfolding reply
  reply-Answers message id content = record {
    from = P.source_id_lem _ _ _;
    to = P.destination_id_lem _ _ _;
    body = (_, P.message_lem _ _ _, P.response_id_lem _ _, P.response_lem _ _);
  }

  module _ (m : UserCallbackMap P) (message : MessageDto) (r : RequestDto) (uc : UserCallRequestDto)
      (holds : get_message message ≡ Pheromones.MessageBody.request r) where
    abbrev content : (call_response : Answer) → UserCallResponseDto
    content = user_call_response_dto host (user_call_source uc)

    accepted : (call : FunctionCallRequestDto) → InboundRequestHandle P
    accepted call = record {
      callback_name = get_function_name call;
      response_message = reply message (request_id r) (
          content (
            Pheromones.UserCallResponseBody.function_call
              (function_call_response_dto status_ok "")));
      callback_return_context = running (get_arguments call) (get_function_name call);
      msg_source_id = get_source_id message;
      msg_destination_id = get_destination_id message;
      source_module = user_call_source uc;
    }

    refused : (call : FunctionCallRequestDto) → InboundRequestHandle P
    refused call = record (default_request_handle P) {
      response_message = reply message (request_id r) (
          content (
            Pheromones.UserCallResponseBody.function_call
              (function_call_response_dto status_bad_request "Unknown function.")));
      msg_source_id = get_source_id message;
      msg_destination_id = get_destination_id message;
      source_module = user_call_source uc;
    }

    -- On a message that holds a request, a call of a registered function is accepted, and the
    -- handle holds the running call with the arguments, the name and the addresses to return to; a
    -- call of any other function is refused, with a warning in the log, and its handle holds no
    -- call. Either way the response answers the message under the id of its request.
    pub handle_message-call :
        (call : FunctionCallRequestDto)
        → user_call_request uc ≡ Pheromones.UserCallRequestBody.function_call call
        → (handle : InboundRequestHandle P) × (effects : List (Effect P)) × (handle_message P m
              message uc
            ≡ value (m, handle, effects))
          × (((is_set (get_callback P m (get_function_name call)) ≡ true)
                × (handle.callback_return_context
                    ≡ running (get_arguments call) (get_function_name call))
                × (handle.msg_source_id ≡ get_source_id message)
                × (handle.msg_destination_id ≡ get_destination_id message)
                × (handle.source_module ≡ user_call_source uc)
                × (effects ≡ [])
                × Answers message
                    (request_id r)
                    (user_call_response_dto host (user_call_source uc) (
                      Pheromones.UserCallResponseBody.function_call
                        (function_call_response_dto status_ok "")))
                    handle.response_message)
              ⊎ ((is_set (get_callback P m (get_function_name call)) ≡ false)
                  × (handle.callback_return_context ≡ invalid)
                  × (effects
                      ≡ logged warn "Function name \"%s\" was not registered as a callback" ∷ [])
                  × Answers message
                      (request_id r)
                      (user_call_response_dto host (user_call_source uc) (
                        Pheromones.UserCallResponseBody.function_call
                          (function_call_response_dto status_bad_request "Unknown function.")))
                      handle.response_message))
    unfolding handle_message reply accepted refused
    handle_message-call call e = elim (Option-cases (get_callback P m (get_function_name call))) [
      | inl missing ↦ (
        refused call,
        logged warn "Function name \"%s\" was not registered as a callback" ∷ [],
        rw (holds, handle_message)
            (rw (e, handle_request) (rw (missing, handle_function_call_request) refl)),
        inr (ap is_set missing, refl, refl, reply-Answers message (request_id r) _),
      )
      | inr (f, found) ↦ (
        accepted call,
        [],
        rw (holds, handle_message)
            (rw (e, handle_request) (rw (found, handle_function_call_request) refl)),
        inl (ap is_set found, refl, refl, refl, refl, refl, reply-Answers message (request_id r) _),
      )
    ]

    -- On a consistent map and a message that holds a request, the description of an index below the
    -- length is that of the registry's entry there; an index past the length is a bad request; the
    -- length itself is an access past the end of the names. Where there is a response, it answers
    -- the message under the id of its request, and its handle holds no call.
    pub handle_message-description :
        (request : FunctionDescriptionRequestDto)
        → IsConsistent P m
        → user_call_request uc ≡ Pheromones.UserCallRequestBody.function_description request
        → let i = get_index request in
          let n = length m.callback_names in
          ((i < n)
            × (name : String) × (w : UserCallbackFunctionWrapper P) × (handle : InboundRequestHandle
                P)
            × (get_elem? (registry P m) i ≡ some (name, w))
            × (handle_message P m message uc ≡ value (m, handle, []))
            × (handle.callback_return_context ≡ invalid)
            × Answers message
                (request_id r)
                (user_call_response_dto host (user_call_source uc) (
                  Pheromones.UserCallResponseBody.function_description (
                    function_description_response_dto (
                      Pheromones.DescriptionBody.description (
                        function_description_dto name (
                          map
                            (λ arg. function_description_argument_dto arg.name arg.type)
                            w.manifest))))))
                handle.response_message)
          ⊎ (((n < i)
                × (handle : InboundRequestHandle P) × (handle_message P m message uc
                    ≡ value (m, handle, []))
                × (handle.callback_return_context ≡ invalid)
                × Answers message
                    (request_id r)
                    (user_call_response_dto host (user_call_source uc) (
                      Pheromones.UserCallResponseBody.function_description (
                        function_description_response_dto (
                          Pheromones.DescriptionBody.generic
                            (generic_response_dto status_bad_request "Index out of bounds.")))))
                    handle.response_message)
              ⊎ ((i ≡ n) × (handle_message P m message uc ≡ undefined_behaviour)))
    unfolding handle_message reply
    handle_message-description request c e =
        elim (lt-eq-gt (get_index request) (length m.callback_names)) [
          | inl h ↦
              let (name, w, entry, named, manifest) = get_at-registry P m (get_index request) c h in
              inl (
                h,
                name,
                w,
                record (default_request_handle P) {
                  response_message = reply message (request_id r) (
                      content (
                        Pheromones.UserCallResponseBody.function_description (
                          function_description_response_dto (
                            Pheromones.DescriptionBody.description (
                              function_description_dto name (
                                map (λ arg. function_description_argument_dto arg.name arg.type)
                                  w.manifest))))));
                },
                entry,
                rw (holds, handle_message)
                    (rw (e, handle_request)
                      (rw (manifest, handle_function_description_request)
                        (rw (named, handle_function_description_request)))),
                refl,
                reply-Answers message (request_id r) _,
              )
          | inr (inr h) ↦ elim (get_at_past P m (get_index request) (omega arith)) [
            | inr (same, _, _) ↦ absurd (omega arith)
            | inl (above, named, manifest) ↦ inr (
                inl (
                  h,
                  record (default_request_handle P) {
                    response_message = reply message (request_id r) (
                        content (
                          Pheromones.UserCallResponseBody.function_description (
                            function_description_response_dto (
                              Pheromones.DescriptionBody.generic (
                                generic_response_dto status_bad_request "Index out of bounds.")))));
                  },
                  rw (holds, handle_message)
                      (rw (e, handle_request) (rw (manifest, handle_function_description_request))),
                  refl,
                  reply-Answers message (request_id r) _,
                ))
          ]
          | inr (inl h) ↦ elim (get_at_past P m (get_index request) (omega arith)) [
            | inl (above, _, _) ↦ absurd (omega arith)
            | inr (same, named, manifest) ↦ inr (
                inr (
                  h,
                  rw (holds, handle_message)
                      (rw (e, handle_request) (rw (manifest, handle_function_description_request))),
                ))
          ]
        ]
