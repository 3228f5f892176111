-- ===== src/MessageHandler/Total.antt =====
-- Every message is handled, but for the request whose description lies past the end of the names.
use hive_mind_bridge.Prelude.{
  All, ◌≡◌, refl, List, arith, Outcome, Outcome-bind, Outcome-fault, subst, sym,
}
use hive_mind_bridge.Pheromones.{Pheromones}
use hive_mind_bridge.Pheromones
use hive_mind_bridge.Effect.Calls.{IsSilent, All-IsSilent}
use hive_mind_bridge.Effect.{Effect}
use hive_mind_bridge.UserCallbackMap.{UserCallbackMap}
use hive_mind_bridge.UserCallbackMap.Invariant.{IsConsistent}
use hive_mind_bridge.UserCallRequestHandler
use hive_mind_bridge.HiveMindHostApiRequestHandler
use hive_mind_bridge.HiveMindHostApiResponseHandler
use hive_mind_bridge.UserCallRequestHandler.Total.{
  KeepsMap, IsKnownCall, AsksPastEnd, handle_message-Outcome,
}
use hive_mind_bridge.MessageHandler.{
  Handlers, Handled, nothing, inbound_request, inbound_response, handle_message, handle_request,
  handle_response, handle_user_call_response,
}

module _ (P : Pheromones) where
  open P use {
    MessageDto, RequestDto, ResponseDto, UserCallRequestDto, UserCallResponseDto, get_message,
    get_request, get_response, user_call_response,
  }

  -- A call that the handling started is of a registered function.
  abbrev pub StartsKnown : UserCallbackMap P → Handled P → Type 0
  StartsKnown m (nothing) = Unit
  StartsKnown m (inbound_request h) = IsKnownCall P m h.callback_return_context
  StartsKnown m (inbound_response h) = Unit

  -- The message asks for the description at the length.
  abbrev pub IsPastEnd : Handlers P → MessageDto → Type 0
  IsPastEnd s message =
      (r : RequestDto) × (uc : UserCallRequestDto) × (get_message message
        ≡ Pheromones.MessageBody.request r)
      × (get_request r ≡ Pheromones.RequestBody.user_call uc)
      × AsksPastEnd P s.callback_map uc

  abbrev pub IsKept : Handlers P → Handlers P × Handled P × List (Effect P) → Type 0
  IsKept s (s', handled, effects) =
      (s'.callback_map ≡ s.callback_map)
      × StartsKnown s.callback_map handled
      × All (IsSilent P) effects

  module _ (s : Handlers P) (message : MessageDto) (c : IsConsistent P s.callback_map) where
    user_call-Outcome :
        (F : Type 0) (r : RequestDto) (uc : UserCallRequestDto)
        → get_message message ≡ Pheromones.MessageBody.request r
        → get_request r ≡ Pheromones.RequestBody.user_call uc
        → (AsksPastEnd P s.callback_map uc → F)
        → Outcome (IsKept s) F (handle_message P s message)
    unfolding handle_message
    user_call-Outcome F r uc holds e k =
        let answered = handle_message-Outcome P s.callback_map message r uc holds c in
        rw (holds, handle_message)
          (rw (e, handle_request)
            (Outcome-bind (KeepsMap P s.callback_map) (IsKept s) F
              (UserCallRequestHandler.handle_message P s.callback_map message uc) _
              (Outcome-fault (KeepsMap P s.callback_map) (AsksPastEnd P s.callback_map uc) F
                (UserCallRequestHandler.handle_message P s.callback_map message uc) k answered)
              (λ (m, handle, effects) (kept, known, plain).
                (kept, known, All-IsSilent P effects plain))))

    request-Outcome :
        (r : RequestDto)
        (body : Pheromones.RequestBody UserCallRequestDto P.HiveMindHostApiRequestDto)
        → get_message message ≡ Pheromones.MessageBody.request r
        → get_request r ≡ body
        → Outcome (IsKept s) (IsPastEnd s message) (handle_message P s message)
    unfolding handle_message
    request-Outcome r (Pheromones.RequestBody.user_call uc) holds e =
        user_call-Outcome (IsPastEnd s message) r uc holds e (λ past. (r, uc, holds, e, past))
    request-Outcome r (Pheromones.RequestBody.hive_mind_host_api hm) holds e =
        rw (holds, handle_message)
          (rw (e, handle_request)
            (
              refl,
              tt,
              HiveMindHostApiRequestHandler.Silent.handle_message-IsSilent P s.request_handler
                  message hm,
            ))
    request-Outcome r (Pheromones.RequestBody.other i) holds e =
        rw (holds, handle_message) (rw (e, handle_request) (refl, tt, (tt, tt)))

    user_call_response-Outcome :
        (F : Type 0) (r : ResponseDto) (uc : UserCallResponseDto)
        → Outcome (IsKept s) F (handle_user_call_response P s r uc)
    unfolding handle_user_call_response
    user_call_response-Outcome F r uc = ground arith

    response-Outcome :
        (F : Type 0) (r : ResponseDto) → Outcome (IsKept s) F (handle_response P s message r)
    unfolding handle_response
    response-Outcome F r = go (get_response r) refl
      where
        go :
            (body : Pheromones.ResponseBody P.GenericResponseDto UserCallResponseDto
              P.HiveMindHostApiResponseDto)
            → get_response r ≡ body
            → Outcome (IsKept s) F (handle_response P s message r)
        go (Pheromones.ResponseBody.generic g) e = rw (e, handle_response) (refl, tt, tt)
        go (Pheromones.ResponseBody.user_call uc) e =
            rw (e, handle_response) (user_call_response-Outcome F r uc)
        go (Pheromones.ResponseBody.hive_mind_host_api hm) e =
            rw (e, handle_response)
              (
                refl,
                tt,
                HiveMindHostApiResponseHandler.Silent.handle_message-IsSilent P s.response_handler
                    message hm,
              )
        go (Pheromones.ResponseBody.other n) e = rw (e, handle_response) (refl, tt, (tt, tt))

    message-Outcome :
        (body : Pheromones.MessageBody RequestDto ResponseDto P.GreetingDto)
        → get_message message ≡ body
        → Outcome (IsKept s) (IsPastEnd s message) (handle_message P s message)
    unfolding handle_message
    message-Outcome (Pheromones.MessageBody.request r) holds =
        request-Outcome r (get_request r) holds refl
    message-Outcome (Pheromones.MessageBody.response r) holds =
        subst (λ a. Outcome (IsKept s) (IsPastEnd s message) a)
          (sym (rw (holds, handle_message) refl)) (response-Outcome (IsPastEnd s message) r)
    message-Outcome (Pheromones.MessageBody.greeting g) holds =
        rw (holds, handle_message) (refl, tt, (tt, tt))
    message-Outcome (Pheromones.MessageBody.other i) holds =
        rw (holds, handle_message) (refl, tt, (tt, tt))

    -- On a consistent map, a message is handled without a fault, unless it asks for the description at the
    -- length, where the handler reads past the names; no exception escapes. The handling leaves the map
    -- alone, calls no connection hook, and a call that it starts is of a registered function.
    pub handle_message-total : Outcome (IsKept s) (IsPastEnd s message) (handle_message P s message)
    handle_message-total = message-Outcome (get_message message) refl
