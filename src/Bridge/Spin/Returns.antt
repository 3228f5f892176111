-- ===== src/Bridge/Spin/Returns.antt =====
-- The loop of `spin` over the pending calls: what is done is answered and forgotten, the rest stays.
use hive_mind_bridge.Prelude.{
  ℕ, ◌≤◌, ◌<◌, ◌≡◌, refl, sym, ap, ◌∙◌, ◌⊎◌, inl, inr, Bool, true, false, none, some, List, [], ◌∷◌,
  ◌++◌, arith, ltb, length, if◌then◌else◌, String, Bool-cases,
}
use hive_mind_bridge.Pheromones.{Pheromones}
use hive_mind_bridge.Pheromones
use hive_mind_bridge.Effect.{Effect, logged, serialized, error}
use hive_mind_bridge.Callback.{CallbackReturn}
use hive_mind_bridge.Handle.{InboundRequestHandle, Future, invalid, running, ready}
use hive_mind_bridge.MessageUtils.{create_function_call_request, generate_random_id}
use hive_mind_bridge.Bridge.Spin.{send_return, sweep}

module _ (P : Pheromones) where
  open P use {
    MessageDto, RequestDto, get_message, get_source_id, get_destination_id, get_request,
    user_call_request_dto, function_call_request_dto, host, function_call_arguments_max_length,
  }

  abbrev pub still_runs : Future P → Bool
  still_runs invalid = false
  still_runs (running args name) = true
  still_runs (ready r) = false

  -- The handles whose calls still run, in their order.
  abbrev pub still_running : List (InboundRequestHandle P) → List (InboundRequestHandle P)
  still_running [] = []
  still_running (h ∷ hs) =
      let rest = still_running hs in if still_runs h.callback_return_context then h ∷ rest else rest

  -- The calls that are done and return something, in their order.
  abbrev pub returned_calls :
      List (InboundRequestHandle P) → List (InboundRequestHandle P × CallbackReturn P)
  returned_calls [] = []
  returned_calls (h ∷ hs) =
      let rest = returned_calls hs in
      elim h.callback_return_context [
        | ready r ↦ elim r [ none ↦ rest | some ret ↦ (h, ret) ∷ rest ]
        | _ ↦ rest
      ]

  -- The effect answers the call: a function call request for the caller's module, from the agent
  -- that was called to the caller, with the name and the values that the callback returned; or, where
  -- they are too many for a message, an error in the log.
  abbrev pub Returns : InboundRequestHandle P × CallbackReturn P → Effect P → Type 0
  Returns (h, ret) effect =
      ((length ret.args ≤ function_call_arguments_max_length)
        × ((message : MessageDto) × (r : RequestDto) × (effect ≡ serialized message)
            × (get_source_id message ≡ h.msg_destination_id)
            × (get_destination_id message ≡ h.msg_source_id)
            × (get_message message ≡ Pheromones.MessageBody.request r)
            × (get_request r
                ≡ Pheromones.RequestBody.user_call (
                    user_call_request_dto host h.source_module (
                      Pheromones.UserCallRequestBody.function_call
                        (function_call_request_dto ret.return_function_name ret.args))))))
      ⊎ ((function_call_arguments_max_length < length ret.args)
          × ((text : String) × (effect ≡ logged error text)))

  abbrev pub AllReturn : List (InboundRequestHandle P × CallbackReturn P) → List (Effect P) → Type 0
  AllReturn [] [] = Unit
  AllReturn [] (e ∷ es) = ⊥
  AllReturn (c ∷ cs) [] = ⊥
  AllReturn (c ∷ cs) (e ∷ es) = Returns c e × AllReturn cs es

  pub still_running-append :
      (xs ys : List (InboundRequestHandle P))
      → still_running (xs ++ ys) ≡ still_running xs ++ still_running ys
  still_running-append [] ys = refl
  still_running-append (x ∷ xs) ys = ground (arith, still_running-append xs ys)

  pub returned_calls-append :
      (xs ys : List (InboundRequestHandle P))
      → returned_calls (xs ++ ys) ≡ returned_calls xs ++ returned_calls ys
  returned_calls-append [] ys = refl
  returned_calls-append (x ∷ xs) ys = ground (arith, returned_calls-append xs ys)

  pub AllReturn-append :
      (cs ds : List (InboundRequestHandle P × CallbackReturn P)) (es : List (Effect P))
      → AllReturn (cs ++ ds) es
      → (first : List (Effect P)) × (second : List (Effect P)) × (es ≡ first ++ second)
        × AllReturn cs first
        × AllReturn ds second
  AllReturn-append [] ds es all = ([], es, refl, tt, all)
  AllReturn-append (c ∷ cs) ds [] all = absurd all
  AllReturn-append (c ∷ cs) ds (e ∷ es) (returns, all) =
      let (first, second, split, before, after) = AllReturn-append cs ds es all in
      (e ∷ first, second, ap (λ x. e ∷ x) split, (returns, before), after)

  pub AllReturn-cons :
      (c : InboundRequestHandle P × CallbackReturn P)
      (cs : List (InboundRequestHandle P × CallbackReturn P)) (es : List (Effect P))
      → AllReturn (c ∷ cs) es
      → (effect : Effect P) × (rest : List (Effect P)) × (es ≡ effect ∷ rest)
        × Returns c effect
        × AllReturn cs rest
  AllReturn-cons c cs [] all = absurd all
  AllReturn-cons c cs (e ∷ es) (returns, all) = (e, es, refl, returns, all)

  abbrev returned_message :
      (rand : ℕ → ℕ) → ℕ → InboundRequestHandle P → CallbackReturn P → MessageDto
  returned_message rand drawn h ret =
      create_function_call_request P h.msg_destination_id h.msg_source_id
        (generate_random_id (rand drawn)) h.source_module ret.return_function_name ret.args

  send_return-Returns :
      (rand : ℕ → ℕ) (drawn : ℕ) (h : InboundRequestHandle P) (ret : CallbackReturn P)
      → (effect : Effect P) × ((send_return P rand drawn h (some ret)).1 ≡ effect ∷ [])
        × Returns (h, ret) effect
  unfolding send_return create_function_call_request
  send_return-Returns rand drawn h ret =
      elim (Bool-cases (ltb function_call_arguments_max_length (length ret.args))) [
        | inl long ↦ (
          logged error
              "Return function contains too many arguments.The limit is currently set to %d arguments",
          rw long,
          inr (ground arith, (_, refl)),
        )
        | inr fits ↦ (
          serialized (returned_message rand drawn h ret),
          rw fits,
          inl (
            ground arith,
            (
              returned_message rand drawn h ret,
              _,
              refl,
              P.source_id_lem _ _ _,
              P.destination_id_lem _ _ _,
              P.message_lem _ _ _,
              P.request_lem _ _,
            ),
          ),
        )
      ]

  -- One pass drops the handles with no call, drops the calls that are done, and keeps the calls
  -- that still run. What it sends answers the calls that are done and return something, once each
  -- and in their order; for values that are too many for a message, the answer is an error in the
  -- log.
  pub sweep_lem :
      (rand : ℕ → ℕ) (drawn : ℕ) (hs : List (InboundRequestHandle P))
      → let (drawn', kept, effects) = sweep P rand drawn hs in
        (kept ≡ still_running hs) × AllReturn (returned_calls hs) effects
  unfolding sweep
  sweep_lem rand drawn [] = (refl, tt)
  sweep_lem rand drawn (h ∷ hs) = go h.callback_return_context (λ k. sweep_lem rand k hs)
    where
      go :
          (f : Future P)
          → ((k : ℕ)
              → ((sweep P rand k hs).1 ≡ still_running hs)
                × AllReturn (returned_calls hs) (sweep P rand k hs).2)
          → let h' = record h { callback_return_context = f } in
            let (drawn', kept, effects) = sweep P rand drawn (h' ∷ hs) in
            (kept ≡ still_running (h' ∷ hs)) × AllReturn (returned_calls (h' ∷ hs)) effects
      go invalid ih = ih drawn
      go (running args name) ih = (
        ap (◌∷◌ (record h { callback_return_context = running args name })) (ih drawn).0,
        (ih drawn).1,
      )
      go (ready none) ih = unfold send_return in ih drawn
      go (ready (some ret)) ih =
          let h' = record h { callback_return_context = ready (some ret) } in
          let (effect, sent, returns) = send_return-Returns rand drawn h' ret in
          let rest = ih (send_return P rand drawn h' (some ret)).0 in
          (rest.0, rw sent (returns, rest.1))

  running_again :
      (hs : List (InboundRequestHandle P)) → still_running (still_running hs) ≡ still_running hs
  running_again [] = refl
  running_again (h ∷ hs) = ground (arith, running_again hs)

  nothing_returned : (hs : List (InboundRequestHandle P)) → returned_calls (still_running hs) ≡ []
  nothing_returned [] = refl
  nothing_returned (h ∷ hs) = ground (arith, nothing_returned hs)

  AllReturn-nil : (es : List (Effect P)) → AllReturn [] es → es ≡ []
  AllReturn-nil [] a = refl
  AllReturn-nil (e ∷ es) a = absurd a

  -- No call is answered twice: a second pass, before another call is done, changes and sends nothing.
  pub sweep_twice :
      (rand : ℕ → ℕ) (drawn later : ℕ) (hs : List (InboundRequestHandle P))
      → let kept = (sweep P rand drawn hs).1 in
        ((sweep P rand later kept).1 ≡ kept) × ((sweep P rand later kept).2 ≡ [])
  sweep_twice rand drawn later hs =
      let first = (sweep_lem rand drawn hs).0 in
      let second = sweep_lem rand later (sweep P rand drawn hs).1 in
      (
        second.0 ∙ ap still_running first ∙ running_again hs ∙ sym first,
        AllReturn-nil _ (rw (ap returned_calls first ∙ nothing_returned hs) at second.1),
      )
