-- ===== src/Tests/Payloads.antt =====
-- A payload of three bytes in two packets, and a packet of another stream between them.
use hive_mind_bridge.Prelude.{
  ℕ, ◌+◌, ◌*◌, ◌≡◌, refl, inr, false, some, none, List, [], ◌∷◌, ◌++◌, arith, value, Dict, lookup,
  insert, erase, nat_eq,
}
use hive_mind_bridge.Pheromones
use hive_mind_bridge.Effect.{Effect, bytes_received, logged, error}
use hive_mind_bridge.Effect.Calls.{delivered}
use hive_mind_bridge.BytesAccumulator.{BytesAccumulator, new_accumulator}
use hive_mind_bridge.HiveMindHostApiRequestHandler
use hive_mind_bridge.HiveMindHostApiRequestHandler.{handle_bytes}
use hive_mind_bridge.HiveMindHostApiRequestHandler.Streams.{stream}
use hive_mind_bridge.HiveMindHostApiRequestHandler.Reassembly.{foreign, middle, last}
use hive_mind_bridge.UserCallbackMap.Invariant.{new_callback_map-IsConsistent}
use hive_mind_bridge.MessageHandler
use hive_mind_bridge.TcpServer.{lose_if}
use hive_mind_bridge.MessageHandler.Packets.{bytes_of}
use hive_mind_bridge.Bridge.{Bridge}
use hive_mind_bridge.Bridge.Outbound.{inbound_round}
use hive_mind_bridge.Bridge.Requests.{on_bytes_received}
use hive_mind_bridge.Bridge.Spin.{handle_front}
use hive_mind_bridge.Bridge.System.{Run, here, next, receives, handles, sets_bytes}
use hive_mind_bridge.Bridge.System.Inbox
use hive_mind_bridge.Bridge.System.Invariant.{IsSound}
use hive_mind_bridge.Bridge.System.Payloads.{
  Input, callback, collect, packets, inputs, all_inputs, collect_all, Run-Collects, packet,
}
use hive_mind_bridge.Bridge.System.Delivery.{Contains, run_delivers}
use hive_mind_bridge.Tests.Sample.{Packet, Message, sample}
use hive_mind_bridge.Tests.Transfers.{listening, first, other, second}

abbrev rand : ℕ → ℕ
rand n = n * 7 + 3

abbrev message_of : Packet → Message
message_of p = (
  4,
  9,
  Pheromones.MessageBody.request (
    1,
    Pheromones.RequestBody.hive_mind_host_api (Pheromones.HiveMindHostApiRequestBody.bytes p),
  ),
)

-- The receiver with messages queued and payloads begun.
abbrev held : List Message → Dict ℕ BytesAccumulator → Bridge sample
held queue begun = record listening {
  inbound_queue = queue;
  handlers = record listening.handlers {
    request_handler = record listening.handlers.request_handler { bytes_accumulator_map = begun };
  };
}

abbrev one : List Message
one = message_of first ∷ []

abbrev two : List Message
two = message_of first ∷ message_of other ∷ []

abbrev three : List Message
three = message_of first ∷ message_of other ∷ message_of second ∷ []

abbrev begun : BytesAccumulator
begun = record { bytes = 1 ∷ 2 ∷ []; last_packet_number = 0 }

abbrev after_first : Bridge sample
after_first = held (message_of other ∷ message_of second ∷ []) ((5, begun) ∷ [])

abbrev after_other : Bridge sample
after_other = held (message_of second ∷ []) ((5, begun) ∷ (6, new_accumulator) ∷ [])

abbrev after_second : Bridge sample
after_second = held [] ((6, new_accumulator) ∷ [])

abbrev refused : List (Effect sample)
refused = logged error "A packet was skipped." ∷ []

abbrev given : List (Effect sample)
given = bytes_received 1 (1 ∷ 2 ∷ 3 ∷ []) 3 ∷ []

handles_first : handle_front sample (held three []) ≡ value (after_first, [])
unfolding handle_front MessageHandler.handle_message HiveMindHostApiRequestHandler.handle_message
    handle_bytes lookup insert
handles_first = refl

handles_other : handle_front sample after_first ≡ value (after_other, refused)
unfolding handle_front MessageHandler.handle_message HiveMindHostApiRequestHandler.handle_message
    handle_bytes lookup insert
handles_other = refl

handles_second : handle_front sample after_other ≡ value (after_second, given)
unfolding handle_front MessageHandler.handle_message HiveMindHostApiRequestHandler.handle_message
    handle_bytes lookup insert erase
handles_second = refl

abbrev effects : List (Effect sample)
effects = [] ++ [] ++ [] ++ [] ++ [] ++ [] ++ refused ++ given ++ []

-- The callback is set first, and another one at the end.
abbrev deaf : Bridge sample
deaf = record listening {
  handlers = record listening.handlers {
    request_handler = record listening.handlers.request_handler { bytes_received_callback = none };
  };
}

abbrev done : Bridge sample
done = (on_bytes_received sample after_second (some 2)).0

sound : IsSound sample deaf
sound = record {
  consistent = new_callback_map-IsConsistent sample;
  known = tt;
  served = inr (refl, refl);
  timely = tt;
  counter = omega arith;
}

run : Run sample rand deaf effects done
unfolding inbound_round lose_if on_bytes_received HiveMindHostApiRequestHandler.on_bytes_received
run =
    next
      (next
        (next
          (next
            (next
              (next
                (next (next here (sets_bytes deaf (some 1)))
                  (receives listening false (some (message_of first)) refl))
                (receives (held one []) false (some (message_of other)) refl))
              (receives (held two []) false (some (message_of second)) refl))
            (handles (held three []) handles_first))
          (handles after_first handles_other))
        (handles after_other handles_second))
      (sets_bytes after_second (some 2))

-- What is handled and set in the run.
abbrev handled : List (Input sample)
handled = callback (some 1) ∷ packet first ∷ packet other ∷ packet second ∷ callback (some 2) ∷ []

Run-Collects_example :
    (done.handlers.request_handler ≡ (collect_all sample deaf.handlers.request_handler handled).0)
    × (delivered sample effects
        ≡ delivered sample (collect_all sample deaf.handlers.request_handler handled).1)
unfolding run all_inputs inputs packets bytes_of lose_if inbound_round Inbox.first
Run-Collects_example = Run-Collects sample rand run sound

run_delivers_example :
    Contains sample (delivered sample effects) (bytes_received 1 (1 ∷ 2 ∷ 3 ∷ []) 3)
    × (stream after_second.handlers.request_handler 5 ≡ new_accumulator)
unfolding run all_inputs inputs packets bytes_of lose_if inbound_round Inbox.first lookup insert
    erase collect_all collect handle_bytes HiveMindHostApiRequestHandler.on_bytes_received
run_delivers_example =
    run_delivers sample rand run 5 1 (callback (some 1) ∷ []) (callback (some 2) ∷ []) sound refl
      refl refl
      (middle first refl refl refl refl
        (foreign other (omega arith) (last second refl refl refl refl)))
