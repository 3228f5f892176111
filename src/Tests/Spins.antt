-- ===== src/Tests/Spins.antt =====
-- Rounds of `spin` and of the threads.
use hive_mind_bridge.Prelude.{
  ℕ, ◌+◌, ◌*◌, ◌≡◌, ◌⊎◌, refl, true, false, some, none, List, [], ◌∷◌, arith, replicate, nat_eq,
  lookup, value, ◌>>=◌,
}
use hive_mind_bridge.Pheromones
use hive_mind_bridge.Effect.{Effect, logged, serialized, debug}
use hive_mind_bridge.MessageUtils.{create_greet_message}
use hive_mind_bridge.Callback.{CallbackFunction, returned}
use hive_mind_bridge.Handle.{
  InboundRequestHandle, outbound_request_handle, running, ready, default_request_handle,
}
use hive_mind_bridge.UserCallbackMap.{get_callback}
use hive_mind_bridge.MessageHandler.{handle_greet}
use hive_mind_bridge.MessageHandler.Dispatch.{plain}
use hive_mind_bridge.ThreadSafeQueue.{empty, front, pop}
use hive_mind_bridge.ThreadSafeQueue.Interleaving.{push_all, front-pop_interleaved}
use hive_mind_bridge.BytesAccumulator.{push_bytes}
use hive_mind_bridge.BytesAccumulator.Append.{push_bytes-eq-take}
use hive_mind_bridge.Bridge.{Bridge}
use hive_mind_bridge.Bridge.Outbound.{outbound_round}
use hive_mind_bridge.Bridge.Spin.{Connection, sweep, handle_front, spin_disconnected}
use hive_mind_bridge.Bridge.Spin.Returns.{returned_calls, AllReturn, sweep_lem}
use hive_mind_bridge.Bridge.Spin.Connect.{spin_disconnected_lem}
use hive_mind_bridge.Bridge.Spin.KeepAlive.{spins, keep_alive_period}
use hive_mind_bridge.Bridge.Spin.Inbound.{response_ends_request}
use hive_mind_bridge.Bridge.Spin.Calls.{finished, IsReturned, call_returns}
use hive_mind_bridge.UserCallRequestHandler.Replies.{Answers}
use hive_mind_bridge.Tests.Sample.{sample, Message, UserCall, Target, Status}
use hive_mind_bridge.Tests.Transfers.{idle, fresh_request}

abbrev rand : ℕ → ℕ
rand n = n * 7 + 3

abbrev running_call : InboundRequestHandle sample
running_call = record (default_request_handle sample) {
  callback_return_context = running (7 ∷ []) "move";
}

abbrev done_call : InboundRequestHandle sample
done_call = record (default_request_handle sample) {
  callback_return_context = ready (some (record { args = 8 ∷ []; return_function_name = "moved" }));
}

abbrev calls : List (InboundRequestHandle sample)
calls = running_call ∷ done_call ∷ default_request_handle sample ∷ []

sweep_lem_example :
    let (drawn', kept, effects) = sweep sample rand 0 calls in
    (kept ≡ running_call ∷ []) × AllReturn sample (returned_calls sample calls) effects
sweep_lem_example = sweep_lem sample rand 0 calls

front-pop_interleaved_example :
    (x : ℕ) × (rest : List ℕ) × (1 ∷ 2 ∷ [] ≡ x ∷ rest)
    × (front (push_all (1 ∷ 2 ∷ []) (3 ∷ [])) ≡ value x)
    × ((pop (push_all (push_all (1 ∷ 2 ∷ []) (3 ∷ [])) (4 ∷ [])) >>= λ q'.
          value (push_all q' (5 ∷ [])))
        ≡ value (push_all rest (3 ∷ 4 ∷ 5 ∷ [])))
unfolding empty
front-pop_interleaved_example = front-pop_interleaved (1 ∷ 2 ∷ []) (3 ∷ []) (4 ∷ []) (5 ∷ []) refl

push_bytes-eq-take_example : push_bytes 2 0 (5 ∷ 6 ∷ 7 ∷ []) (4 ∷ []) ≡ 4 ∷ 5 ∷ 6 ∷ []
push_bytes-eq-take_example = push_bytes-eq-take 2 (5 ∷ 6 ∷ 7 ∷ []) (4 ∷ []) (omega arith)

abbrev offline : Bridge sample
offline = record idle { tcp_server = record idle.tcp_server { is_connected = false } }

abbrev greeted : Connection sample
greeted = record {
  listens = true;
  accepted = some 7;
  lost = false;
  greet_response = (12, 12, Pheromones.MessageBody.greeting 12);
}

spin_disconnected_lem_example :
    let s' = (spin_disconnected sample offline greeted).0 in
    (((fd : ℕ) × (greeted.accepted ≡ some fd))
      × ((id : ℕ) × (handle_greet sample greeted.greet_response ≡ some id)
          × (s'.inbound_thread ≡ true)
          × (s'.outbound_thread ≡ true)
          × (s'.swarm_agent_id ≡ id)
          × (s'.tcp_server.is_connected ≡ true)))
    ⊎ (((greeted.accepted ≡ none) ⊎ (handle_greet sample greeted.greet_response ≡ none))
        × (s'.inbound_thread ≡ false)
        × (s'.outbound_thread ≡ false)
        × (s'.swarm_agent_id ≡ 4)
        × (s'.tcp_server.is_connected ≡ false))
spin_disconnected_lem_example = spin_disconnected_lem sample offline greeted

-- A call still runs and one is done while the bridge spins.
abbrev waiting : Bridge sample
waiting = record idle { inbound_requests_queue = running_call ∷ done_call ∷ [] }

keep_alive_period_example :
    (u : Bridge sample) × (effects : List (Effect sample)) × (spins sample rand 6
        (λ k. greeted)
        waiting
      ≡ value (u, effects))
    × (u.outbound_queue
        ≡ replicate 3 (outbound_request_handle sample (create_greet_message sample)))
    × (u.tcp_server ≡ idle.tcp_server)
    × (u.keep_alive_counter ≡ 1)
keep_alive_period_example =
    keep_alive_period sample rand 2 3 (λ k. greeted) waiting (omega arith) (omega arith) refl refl
      refl refl

abbrev call_request : UserCall
call_request = (Target.buzz, Target.host, Pheromones.UserCallRequestBody.function_list_length 0)

abbrev list_length : Message
list_length =
    (9, 4, Pheromones.MessageBody.request (20, Pheromones.RequestBody.user_call call_request))

abbrev answer : Message
answer =
    (9, 4, Pheromones.MessageBody.response (10, Pheromones.ResponseBody.generic (Status.ok, "")))

abbrev asked : Bridge sample
asked = record idle {
  inbound_queue = answer ∷ list_length ∷ [];
  outbound_queue = fresh_request 10 ∷ [];
}

response_ends_request_example :
    (s' : Bridge sample) × (handle_front sample asked ≡ value (s', []))
    × (s'.inbound_queue ≡ list_length ∷ [])
    × ((s'' : Bridge sample) × (outbound_round sample s'
          ≡ value (s'', logged debug "RECEIVED VALID RESPONSE" ∷ []))
        × (s''.outbound_queue ≡ [])
        × (lookup 10 s''.inbound_responses_map ≡ none))
response_ends_request_example =
    response_ends_request sample asked answer (list_length ∷ [])
      (10, Pheromones.ResponseBody.generic (Status.ok, "")) (fresh_request 10) []
      (
        10,
        Pheromones.RequestBody.hive_mind_host_api
            (Pheromones.HiveMindHostApiRequestBody.get_neighbor 3),
      )
      refl refl refl (plain refl) refl refl refl

abbrev length_message : Message
length_message = (
  4,
  9,
  Pheromones.MessageBody.response (
    20,
    Pheromones.ResponseBody.user_call
        (Target.host, Target.buzz, Pheromones.UserCallResponseBody.function_list_length 0),
  ),
)

abbrev asked_length : Bridge sample
asked_length = record idle { inbound_queue = list_length ∷ answer ∷ [] }

abbrev length_answer : InboundRequestHandle sample
length_answer = record (default_request_handle sample) { response_message = length_message }

abbrev echo : CallbackFunction sample
echo args = returned (some (record { args = args; return_function_name = "moved" }))

abbrev echo_request : UserCall
echo_request =
    (Target.buzz, Target.host, Pheromones.UserCallRequestBody.function_call ("echo", 7 ∷ []))

abbrev echo_message : Message
echo_message =
    (9, 4, Pheromones.MessageBody.request (21, Pheromones.RequestBody.user_call echo_request))

abbrev called : Bridge sample
called = record idle {
  inbound_queue = echo_message ∷ answer ∷ [];
  handlers = record idle.handlers {
    callback_map = record {
      callbacks = ("echo", record { function = echo; manifest = [] }) ∷ [];
      callback_names = "echo" ∷ [];
    };
  };
}

call_returns_example :
    (s' : Bridge sample) × (handle : InboundRequestHandle sample) × (handle_front sample called
      ≡ value (s', serialized handle.response_message ∷ []))
    × (s'.inbound_queue ≡ answer ∷ [])
    × (s'.inbound_requests_queue ≡ handle ∷ [])
    × Answers sample echo_message 21
        (Target.host, Target.buzz, Pheromones.UserCallResponseBody.function_call (Status.ok, ""))
        handle.response_message
    × (let (drawn', kept, effects) = sweep sample rand 5 (
          done_call
          ∷ finished sample s'.handlers.callback_map handle
          ∷ running_call
          ∷ done_call
          ∷ []) in
        IsReturned sample echo_message echo_request
          (record { args = 7 ∷ []; return_function_name = "moved" })
          (done_call ∷ [])
          (running_call ∷ done_call ∷ [])
          kept
          effects)
unfolding get_callback lookup
call_returns_example =
    call_returns sample rand 5 called echo_message (answer ∷ [])
      (21, Pheromones.RequestBody.user_call echo_request) echo_request ("echo", 7 ∷ []) echo
      (record { args = 7 ∷ []; return_function_name = "moved" }) (done_call ∷ [])
      (running_call ∷ done_call ∷ []) refl refl refl refl refl refl (omega arith)
