-- ===== src/Tests/Runs.antt =====
-- Runs of the threads, from a new bridge with one registered function.
use hive_mind_bridge.Prelude.{
  ℕ, ◌+◌, ◌*◌, ◌≡◌, refl, true, false, some, List, [], ◌∷◌, ◌++◌, arith, nat_eq, lookup, insert,
  value, Outcome,
}
use hive_mind_bridge.Pheromones
use hive_mind_bridge.Effect.{descriptor, Effect, serialized}
use hive_mind_bridge.MessageHandler
use hive_mind_bridge.UserCallRequestHandler
use hive_mind_bridge.MessageHandler.Total.{IsPastEnd}
use hive_mind_bridge.Callback.{CallbackFunction, returned}
use hive_mind_bridge.Handle.{default_request_handle, InboundRequestHandle, running, ready}
use hive_mind_bridge.TcpServer.{TcpServer}
use hive_mind_bridge.UserCallbackMap.{register_callback, get_callback}
use hive_mind_bridge.UserCallRequestHandler.{finish_call, caught}
use hive_mind_bridge.Bridge.{Bridge, new_bridge}
use hive_mind_bridge.Bridge.Outbound.{inbound_round, outbound_round, process}
use hive_mind_bridge.Bridge.Spin.{Connection, handle_front, spin_disconnected}
use hive_mind_bridge.Bridge.Requests.{register_custom_action}
use hive_mind_bridge.Bridge.System.{Run, here, next, registers, connects, receives, handles, sends}
use hive_mind_bridge.Bridge.System.Invariant.{IsSound, new_bridge-IsSound}
use hive_mind_bridge.MessageHandler.Total.{IsKept, handle_message-total}
use hive_mind_bridge.Bridge.Outbound.Delivery.{mark_sent}
use hive_mind_bridge.Bridge.System.Progress.{rounds_made}
use hive_mind_bridge.Bridge.System.Queue.{rounds_of}
use hive_mind_bridge.Bridge.System.Reach.{Run-IsSound}
use hive_mind_bridge.Bridge.System.Reached.{run_faults, run_calls_registered}
use hive_mind_bridge.Bridge.System.Progress.{run_sends, run_processes, SomeStep, Takes, Serializes}
use hive_mind_bridge.Tests.Sample.{sample, Message, Request, UserCall, Target, Status}
use hive_mind_bridge.Tests.Transfers.{idle, fresh_request}

abbrev pub rand : ℕ → ℕ
rand n = n * 7 + 3

abbrev pub server : TcpServer
server = record {
  server_fd = descriptor 3;
  client_fd = descriptor 7;
  port = 5555;
  is_connected = false;
  connect_hook = some 1;
  disconnect_hook = some 2;
}

abbrev pub move : CallbackFunction sample
move args = returned (some (record { args = args; return_function_name = "moved" }))

abbrev pub greeted : Connection sample
greeted = record {
  listens = true;
  accepted = some 7;
  lost = false;
  greet_response = (12, 12, Pheromones.MessageBody.greeting 12);
}

abbrev call : UserCall
call = (Target.buzz, Target.host, Pheromones.UserCallRequestBody.function_call ("move", 7 ∷ []))

abbrev pub message : Message
message = (9, 12, Pheromones.MessageBody.request (20, Pheromones.RequestBody.user_call call))

abbrev pub created : Bridge sample
created = new_bridge sample server 2

abbrev registered : Bridge sample
registered = (register_custom_action sample created "move" move []).0

abbrev connected : Bridge sample
connected = (spin_disconnected sample registered greeted).0

abbrev received : Bridge sample
received = (inbound_round sample connected false (some message)).0

-- The call that the message starts, with its response.
abbrev running_call : InboundRequestHandle sample
running_call = record (default_request_handle sample) {
  callback_name = "move";
  callback_return_context = running (7 ∷ []) "move";
  response_message = (
    12,
    9,
    Pheromones.MessageBody.response (
      20,
      Pheromones.ResponseBody.user_call
          (Target.host, Target.buzz, Pheromones.UserCallResponseBody.function_call (Status.ok, "")),
    ),
  );
  msg_source_id = 9;
  msg_destination_id = 12;
  source_module = Target.buzz;
}

abbrev pub called : Bridge sample
called = record connected { inbound_requests_queue = running_call ∷ [] }

abbrev called_effects : List (Effect sample)
called_effects = serialized running_call.response_message ∷ []

pub handled : handle_front sample received ≡ value (called, called_effects)
unfolding handle_front inbound_round spin_disconnected register_custom_action new_bridge
    register_callback get_callback lookup insert MessageHandler.handle_message
    UserCallRequestHandler.handle_message
handled = refl

abbrev pub run_effects : List (Effect sample)
run_effects =
    []
    ++ []
    ++ (spin_disconnected sample registered greeted).1
    ++ (inbound_round sample connected false (some message)).1
    ++ called_effects

unfoldable pub run : Run sample rand created run_effects called
unfolding spin_disconnected register_custom_action new_bridge
run =
    next
      (next (next (next here (registers created "move" move [])) (connects registered greeted refl))
        (receives connected false (some message) refl))
      (handles received handled)

pub called-IsSound : IsSound sample called
called-IsSound = Run-IsSound sample rand run (new_bridge-IsSound sample server 2 refl)

Run-IsSound_example : IsSound sample called
Run-IsSound_example = Run-IsSound sample rand run (new_bridge-IsSound sample server 2 refl)

run_faults_example :
    Outcome (λ x. Unit) ⊥ (outbound_round sample called)
    × Outcome
        (λ x. Unit)
        ((m : Message) × (rest : List Message) × (called.inbound_queue ≡ m ∷ rest)
          × IsPastEnd sample called.handlers m)
        (handle_front sample called)
run_faults_example = run_faults sample rand server 2 refl run

run_calls_registered_example :
    (f : CallbackFunction sample) × (get_callback sample called.handlers.callback_map "move"
      ≡ some f)
    × (finish_call sample called.handlers.callback_map running_call.callback_return_context
        ≡ (ready (caught sample (f (7 ∷ []))).0, (caught sample (f (7 ∷ []))).1))
run_calls_registered_example =
    run_calls_registered sample rand server 2 refl run [] [] running_call (7 ∷ []) "move" refl refl

handle_message-total_example :
    Outcome
      (IsKept sample called.handlers)
      (IsPastEnd sample called.handlers message)
      (MessageHandler.handle_message sample called.handlers message)
handle_message-total_example =
    handle_message-total sample called.handlers message called-IsSound.consistent

abbrev pub queued : Bridge sample
queued = record idle { outbound_queue = fresh_request 10 ∷ fresh_request 11 ∷ [] }

abbrev sent_once : Bridge sample
sent_once =
    (process sample (record queued { outbound_queue = fresh_request 11 ∷ [] }) (fresh_request 10)).0

abbrev pub sent_twice : Bridge sample
sent_twice =
    (process sample (record sent_once { outbound_queue = mark_sent sample (fresh_request 10) ∷ [] })
      (fresh_request 11)).0

abbrev pub rounds_effects : List (Effect sample)
rounds_effects =
    []
    ++ (process sample (record queued { outbound_queue = fresh_request 11 ∷ [] })
        (fresh_request 10)).1
    ++ (process sample
        (record sent_once { outbound_queue = mark_sent sample (fresh_request 10) ∷ [] })
        (fresh_request 11)).1

unfoldable pub rounds : Run sample rand queued rounds_effects sent_twice
unfolding outbound_round process lookup
rounds = next (next here (sends queued refl refl)) (sends sent_once refl refl)

run_processes_example : SomeStep sample rand (Takes sample rand (fresh_request 11)) rounds
unfolding rounds_made rounds rounds_of outbound_round process lookup
run_processes_example =
    run_processes sample rand queued (fresh_request 11) (fresh_request 10 ∷ []) [] refl rounds
      (omega arith)

abbrev neighbor_asked : Request
neighbor_asked = (
  11,
  Pheromones.RequestBody.hive_mind_host_api (Pheromones.HiveMindHostApiRequestBody.get_neighbor 3),
)

run_sends_example :
    SomeStep sample rand (Serializes sample rand (fresh_request 11) neighbor_asked) rounds
unfolding rounds_made rounds rounds_of outbound_round process lookup
run_sends_example =
    run_sends sample rand queued (fresh_request 11) neighbor_asked refl refl (fresh_request 10 ∷ [])
      [] refl rounds (omega arith)
