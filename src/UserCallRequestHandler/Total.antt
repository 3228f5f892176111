-- ===== src/UserCallRequestHandler/Total.antt =====
-- Every user call request is answered, but for one: the description of the index at the length. No
-- answer changes the callbacks, and a call that it starts is of a registered function.
use hive_mind_bridge.Prelude.{
  All, ℕ, ◌≡◌, refl, ◌⊎◌, inl, inr, true, is_set, List, [], length, value, undefined_behaviour,
  Outcome,
}
use hive_mind_bridge.Pheromones.{Pheromones}
use hive_mind_bridge.Pheromones
use hive_mind_bridge.Effect.Calls.{IsPlain}
use hive_mind_bridge.Effect.{Effect}
use hive_mind_bridge.UserCallbackMap.{UserCallbackMap, get_callback}
use hive_mind_bridge.UserCallbackMap.Invariant.{IsConsistent}
use hive_mind_bridge.Handle.{
  Future, InboundRequestHandle, default_request_handle, invalid, running, ready,
}
use hive_mind_bridge.UserCallRequestHandler.{
  handle_message, handle_request, handle_function_list_length_request,
}
use hive_mind_bridge.UserCallRequestHandler.Replies.{
  Answer, handle_message-call, handle_message-description,
}

module _ (P : Pheromones) where
  open P use {
    MessageDto, RequestDto, UserCallRequestDto, FunctionDescriptionRequestDto, get_message,
    user_call_request, get_index, get_function_name, get_arguments, message_dto, response_dto,
    request_id, get_source_id, get_destination_id, host, user_call_source, user_call_response_dto,
    generic_response_dto, status_unknown,
  }

  -- A running call is of a function that is registered.
  abbrev pub IsKnownCall : UserCallbackMap P → Future P → Type 0
  IsKnownCall m invalid = Unit
  IsKnownCall m (running args name) = is_set (get_callback P m name) ≡ true
  IsKnownCall m (ready r) = Unit

  abbrev pub KeepsMap :
      UserCallbackMap P → UserCallbackMap P × InboundRequestHandle P × List (Effect P) → Type 0
  KeepsMap m (m', handle, effects) =
      (m' ≡ m) × IsKnownCall m handle.callback_return_context × All (IsPlain P) effects

  -- The request asks for the description at the length.
  abbrev pub AsksPastEnd : UserCallbackMap P → UserCallRequestDto → Type 0
  AsksPastEnd m uc =
      (request : FunctionDescriptionRequestDto) × (user_call_request uc
        ≡ Pheromones.UserCallRequestBody.function_description request)
      × (get_index request ≡ length m.callback_names)

  abbrev pub IsAnswered : UserCallbackMap P → MessageDto → UserCallRequestDto → Type 0
  IsAnswered m message uc =
      (handle : InboundRequestHandle P) × (effects : List (Effect P)) × (handle_message P m message
          uc
        ≡ value (m, handle, effects))
      × IsKnownCall m handle.callback_return_context
      × All (IsPlain P) effects

  module _ (m : UserCallbackMap P) (message : MessageDto) (r : RequestDto) (uc : UserCallRequestDto)
      (holds : get_message message ≡ Pheromones.MessageBody.request r) (c : IsConsistent P m) where
    abbrev answer : Answer P → InboundRequestHandle P
    answer body = record (default_request_handle P) {
      response_message = message_dto (get_destination_id message) (get_source_id message) (
          Pheromones.MessageBody.response (
            response_dto (request_id r) (
              Pheromones.ResponseBody.user_call
                (user_call_response_dto host (user_call_source uc) body))));
    }

    length-IsAnswered :
        (request : P.FunctionListLengthRequestDto)
        → user_call_request uc ≡ Pheromones.UserCallRequestBody.function_list_length request
        → IsAnswered m message uc
    unfolding handle_message
    length-IsAnswered request e = (
      answer (
          Pheromones.UserCallResponseBody.function_list_length
            (handle_function_list_length_request P m)),
      [],
      rw (holds, handle_message) (rw (e, handle_request) refl),
      tt,
      tt,
    )

    other-IsAnswered :
        (i : ℕ)
        → user_call_request uc ≡ Pheromones.UserCallRequestBody.other i
        → IsAnswered m message uc
    unfolding handle_message
    other-IsAnswered i e = (
      answer (
          Pheromones.UserCallResponseBody.generic
            (generic_response_dto status_unknown "Unknown UserCallRequest")),
      [],
      rw (holds, handle_message) (rw (e, handle_request) refl),
      tt,
      tt,
    )

    call-IsAnswered :
        (call : P.FunctionCallRequestDto)
        → user_call_request uc ≡ Pheromones.UserCallRequestBody.function_call call
        → IsAnswered m message uc
    call-IsAnswered call e =
        let (handle, effects, handled, cases) = handle_message-call P m message r uc holds call e in
        elim cases [
          | inl (known, runs, _, _, _, none_sent, _) ↦
              (handle, effects, handled, rw runs known, rw none_sent tt)
          | inr (_, none_runs, one_logged, _) ↦
              (handle, effects, handled, rw none_runs tt, rw one_logged (tt, tt))
        ]

    description-IsAnswered :
        (request : FunctionDescriptionRequestDto)
        → user_call_request uc ≡ Pheromones.UserCallRequestBody.function_description request
        → IsAnswered m message uc
          ⊎ (AsksPastEnd m uc × (handle_message P m message uc ≡ undefined_behaviour))
    description-IsAnswered request e =
        elim (handle_message-description P m message r uc holds request c e) [
          | inl (_, _, _, handle, _, handled, none_runs, _) ↦
              inl (handle, [], handled, rw none_runs tt, tt)
          | inr (inl (_, handle, handled, none_runs, _)) ↦
              inl (handle, [], handled, rw none_runs tt, tt)
          | inr (inr (past, faults)) ↦ inr ((request, e, past), faults)
        ]

    answered :
        (body : Pheromones.UserCallRequestBody P.FunctionListLengthRequestDto
          FunctionDescriptionRequestDto P.FunctionCallRequestDto)
        → user_call_request uc ≡ body
        → IsAnswered m message uc
          ⊎ (AsksPastEnd m uc × (handle_message P m message uc ≡ undefined_behaviour))
    answered (Pheromones.UserCallRequestBody.function_list_length q) e = inl (length-IsAnswered q e)
    answered (Pheromones.UserCallRequestBody.function_description q) e = description-IsAnswered q e
    answered (Pheromones.UserCallRequestBody.function_call q) e = inl (call-IsAnswered q e)
    answered (Pheromones.UserCallRequestBody.other i) e = inl (other-IsAnswered i e)

    -- On a consistent map and a message that holds a request, the handler answers every request but
    -- that for the description at the length, where it reads past the names; no exception escapes. An
    -- answer leaves the map alone, calls no connection hook, and a call that it starts is of a
    -- registered function.
    pub handle_message-Outcome :
        Outcome (KeepsMap m) (AsksPastEnd m uc) (handle_message P m message uc)
    handle_message-Outcome = elim (answered (user_call_request uc) refl) [
      | inl (handle, effects, handled, known, silent) ↦ rw handled (refl, known, silent)
      | inr (past, faults) ↦ rw faults past
    ]
