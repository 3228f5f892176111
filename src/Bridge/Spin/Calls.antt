-- ===== src/Bridge/Spin/Calls.antt =====
-- A call of a registered function, from the request of another agent to the return.
use hive_mind_bridge.Prelude.{
  ℕ, ◌≤◌, ◌≡◌, refl, ap, ◌∙◌, inl, inr, some, List, [], ◌∷◌, ◌++◌, arith, length, is_set, value,
  String,
}
use hive_mind_bridge.Pheromones.{Pheromones}
use hive_mind_bridge.Pheromones
use hive_mind_bridge.Effect.{Effect, serialized}
use hive_mind_bridge.Callback.{CallbackReturn, CallbackFunction, returned}
use hive_mind_bridge.UserCallbackMap.{UserCallbackMap, get_callback}
use hive_mind_bridge.Handle.{InboundRequestHandle, running, ready}
use hive_mind_bridge.UserCallRequestHandler.{finish_call, callback_wrapper, caught}
use hive_mind_bridge.UserCallRequestHandler.Replies.{Answers, handle_message-call}
use hive_mind_bridge.Bridge.{Bridge}
use hive_mind_bridge.Bridge.Spin.{sweep, handle_front}
use hive_mind_bridge.Bridge.Spin.Returns.{
  still_running, AllReturn, returned_calls, sweep_lem, still_running-append, returned_calls-append,
  AllReturn-append, AllReturn-cons,
}
use hive_mind_bridge.Bridge.Spin.Inbound.{handle_front-request}

module _ (P : Pheromones) where
  open P use {
    MessageDto, RequestDto, UserCallRequestDto, FunctionCallRequestDto, get_message, get_request,
    get_source_id, get_destination_id, request_id, user_call_source, user_call_request,
    get_function_name, get_arguments, function_call_arguments_max_length, user_call_response_dto,
    user_call_request_dto, function_call_request_dto, function_call_response_dto, status_ok, host,
  }

  abbrev pub finished : UserCallbackMap P → InboundRequestHandle P → InboundRequestHandle P
  finished m h = record h {
    callback_return_context = (finish_call P m h.callback_return_context).0;
  }

  pub finish_call-found :
      (m : UserCallbackMap P) (h : InboundRequestHandle P) (args : List P.FunctionCallArgumentDto)
      (name : String) (f : CallbackFunction P)
      → h.callback_return_context ≡ running args name
      → get_callback P m name ≡ some f
      → finish_call P m h.callback_return_context
        ≡ (ready (caught P (f args)).0, (caught P (f args)).1)
  unfolding finish_call callback_wrapper
  finish_call-found m h args name f runs found =
      rw (runs, finish_call) (rw (found, callback_wrapper) refl)

  finish_call-returned :
      (m : UserCallbackMap P) (h : InboundRequestHandle P) (args : List P.FunctionCallArgumentDto)
      (name : String) (f : CallbackFunction P) (ret : CallbackReturn P)
      → h.callback_return_context ≡ running args name
      → get_callback P m name ≡ some f
      → f args ≡ returned (some ret)
      → (finish_call P m h.callback_return_context).0 ≡ ready (some ret)
  unfolding finish_call callback_wrapper
  finish_call-returned m h args name f ret runs found result =
      rw (runs, finish_call) (rw (found, callback_wrapper) (rw (result, caught) refl))

  returned_calls-finished :
      (m : UserCallbackMap P) (h : InboundRequestHandle P) (ret : CallbackReturn P)
      (after : List (InboundRequestHandle P))
      → (finish_call P m h.callback_return_context).0 ≡ ready (some ret)
      → returned_calls P (finished m h ∷ after) ≡ (finished m h, ret) ∷ returned_calls P after
  returned_calls-finished m h ret after e = rw e refl

  still_running-finished :
      (m : UserCallbackMap P) (h : InboundRequestHandle P) (ret : CallbackReturn P)
      (after : List (InboundRequestHandle P))
      → (finish_call P m h.callback_return_context).0 ≡ ready (some ret)
      → still_running P (finished m h ∷ after) ≡ still_running P after
  still_running-finished m h ret after e = rw e refl

  abbrev pub return_body :
      (module_ : P.UserCallTargetDto)
      → CallbackReturn P
      → Pheromones.RequestBody UserCallRequestDto P.HiveMindHostApiRequestDto
  return_body module_ ret = Pheromones.RequestBody.user_call (
      user_call_request_dto host module_ (
        Pheromones.UserCallRequestBody.function_call
          (function_call_request_dto ret.return_function_name ret.args)))

  -- The message carries what a callback returned back to the sender of `message`.
  abbrev pub IsReturn : MessageDto → UserCallRequestDto → CallbackReturn P → MessageDto → Type 0
  IsReturn message uc ret answer =
      (get_source_id answer ≡ get_destination_id message)
      × (get_destination_id answer ≡ get_source_id message)
      × ((q : RequestDto) × (get_message answer ≡ Pheromones.MessageBody.request q)
          × (get_request q ≡ return_body (user_call_source uc) ret))

  -- A pass over the handles drops one and sends the return of its call, and does with the others
  -- what it does without it.
  abbrev pub IsReturned :
      (message : MessageDto)
      → (uc : UserCallRequestDto) → (ret : CallbackReturn P)
      → (before after kept : List (InboundRequestHandle P)) → (effects : List (Effect P)) → Type 0
  IsReturned message uc ret before after kept effects =
      (kept ≡ still_running P before ++ still_running P after)
      × ((first : List (Effect P)) × (answer : MessageDto) × (last : List (Effect P)) × (effects
            ≡ first ++ serialized answer ∷ last)
          × AllReturn P (returned_calls P before) first
          × IsReturn message uc ret answer
          × AllReturn P (returned_calls P after) last)

  sweep-finished :
      (rand : ℕ → ℕ) (drawn : ℕ) (m : UserCallbackMap P) (h : InboundRequestHandle P)
      (message : MessageDto) (uc : UserCallRequestDto) (ret : CallbackReturn P)
      (before after : List (InboundRequestHandle P))
      → (finish_call P m h.callback_return_context).0 ≡ ready (some ret)
      → length ret.args ≤ function_call_arguments_max_length
      → h.msg_source_id ≡ get_source_id message
      → h.msg_destination_id ≡ get_destination_id message
      → h.source_module ≡ user_call_source uc
      → let (drawn', kept, effects) = sweep P rand drawn (before ++ finished m h ∷ after) in
        IsReturned message uc ret before after kept effects
  sweep-finished rand drawn m h message uc ret before after done fits src dst origin =
      let (kept, all) = sweep_lem P rand drawn (before ++ finished m h ∷ after) in
      let (first, others, split, all_first, all_others) =
        AllReturn-append P (returned_calls P before) (returned_calls P (finished m h ∷ after)) _
          (rw (returned_calls-append P before (finished m h ∷ after)) at all) in
      let (effect, last, sent, returns, all_last) =
        AllReturn-cons P (finished m h, ret) (returned_calls P after) _
          (rw (returned_calls-finished m h ret after done) at all_others) in
      elim returns [
        | inr (long, _) ↦ absurd (omega arith)
        | inl (_, (answer, q, is_answer, from, to, holds, body)) ↦ (
          kept
              ∙ still_running-append P before (finished m h ∷ after)
              ∙ ap (λ x. still_running P before ++ x) (still_running-finished m h ret after done),
          (
            first,
            answer,
            last,
            split ∙ ap (λ x. first ++ x) sent ∙ ap (λ e. first ++ e ∷ last) is_answer,
            all_first,
            (from ∙ dst, to ∙ src, (q, holds, body ∙ ap (λ o. return_body o ret) origin)),
            all_last,
          ),
        )
      ]

  -- A function call comes back to its caller. A request at the front of the inbound queue to call a
  -- registered function, which returns values that fit in a message, is acknowledged with Ok to its
  -- sender; and its handle waits at the end of the inbound requests. Once the call is done, on the
  -- callbacks as they are then, the next pass over the inbound requests, whichever handles stand
  -- `before` and `after` this one, drops it and sends one message for it back to the sender: a call
  -- of the function that the callback named with the values that it returned, for the module that
  -- the request came from. Of the handles before and after, the pass keeps those whose calls still
  -- run, and answers those whose calls are done and return something, in the order of the handles;
  -- for values that are too many for a message, the answer is an error in the log.
  pub call_returns :
      (rand : ℕ → ℕ) (drawn : ℕ) (s : Bridge P) (message : MessageDto) (rest : List MessageDto)
      (r : RequestDto) (uc : UserCallRequestDto) (call : FunctionCallRequestDto)
      (f : CallbackFunction P) (ret : CallbackReturn P)
      (before after : List (InboundRequestHandle P))
      → s.inbound_queue ≡ message ∷ rest
      → get_message message ≡ Pheromones.MessageBody.request r
      → get_request r ≡ Pheromones.RequestBody.user_call uc
      → user_call_request uc ≡ Pheromones.UserCallRequestBody.function_call call
      → get_callback P s.handlers.callback_map (get_function_name call) ≡ some f
      → f (get_arguments call) ≡ returned (some ret)
      → length ret.args ≤ function_call_arguments_max_length
      → (s' : Bridge P) × (handle : InboundRequestHandle P) × (handle_front P s
          ≡ value (s', serialized handle.response_message ∷ []))
        × (s'.inbound_queue ≡ rest)
        × (s'.inbound_requests_queue ≡ s.inbound_requests_queue ++ handle ∷ [])
        × Answers P message
            (request_id r)
            (user_call_response_dto host (user_call_source uc) (
              Pheromones.UserCallResponseBody.function_call
                (function_call_response_dto status_ok "")))
            handle.response_message
        × (let (drawn', kept, effects) =
              sweep P rand drawn (before ++ finished s'.handlers.callback_map handle ∷ after) in
            IsReturned message uc ret before after kept effects)
  call_returns rand drawn s message rest r uc call f ret before after queue holds user is_call found
        result fits =
      let m = s.handlers.callback_map in
      let (handle, effects, handled, answered) =
        handle_message-call P m message r uc holds call is_call in
      elim answered [
        | inr (missing, _, _, _) ↦ absurd (ground (arith, ap is_set found))
        | inl (known, runs, src, dst, origin, silent, answers) ↦
            let done =
              finish_call-returned m handle (get_arguments call) (get_function_name call) f ret runs
                found result in
            let s' = record s {
              handlers = record s.handlers { callback_map = m };
              inbound_queue = rest;
              inbound_requests_queue = s.inbound_requests_queue ++ handle ∷ [];
            } in
            (
              s',
              handle,
              handle_front-request P s message rest r uc m handle effects queue holds user handled
                  ∙ ap (λ es. value (s', es ++ serialized handle.response_message ∷ [])) silent,
              refl,
              refl,
              answers,
              sweep-finished rand drawn m handle message uc ret before after done fits src dst
                  origin,
            )
      ]
