-- ===== src/Tests/Transfers.antt =====
-- Payloads of six and of eight bytes, in packets of four.
use hive_mind_bridge.Prelude.{
  map, length, ℕ, ◌+◌, ◌*◌, ◌%◌, ◌^◌, ◌≡◌, ◌≢◌, refl, true, false, some, none, List, [], ◌∷◌, ◌++◌,
  arith, nat_eq, lookup, value,
}
use hive_mind_bridge.Effect.{descriptor, Effect, bytes_received, logged, serialized, error}
use hive_mind_bridge.BytesAccumulator.{new_accumulator}
use hive_mind_bridge.Handle.{OutboundRequestHandle, outbound_request_handle}
use hive_mind_bridge.Pheromones
use hive_mind_bridge.HiveMindHostApiRequestHandler.{HiveMindHostApiRequestHandler, handle_bytes}
use hive_mind_bridge.HiveMindHostApiRequestHandler.Streams.{stream, handle_bytes-skipped}
use hive_mind_bridge.HiveMindHostApiRequestHandler.Reassembly.{
  foreign, middle, last, handle_stream, handle_stream_delivers,
}
use hive_mind_bridge.Bridge.{Bridge}
use hive_mind_bridge.Bridge.SendBytes.{send_bytes}
use hive_mind_bridge.Bridge.SendBytes.Messages.{queued_bytes}
use hive_mind_bridge.Bridge.SendBytes.RoundTrip.{send_bytes_delivers, send_bytes_truncates}
use hive_mind_bridge.Bridge.Outbound.Delivery.{
  outbound_rounds, mark_sent, outbound_rounds_send, outbound_rounds_drain,
}
use hive_mind_bridge.Bridge.Transfer.{messages_of, receive_all, handle_fronts, transfer_delivers}
use hive_mind_bridge.Tests.Sample.{Packet, sample, Message}

abbrev rand : ℕ → ℕ
rand n = n * 7 + 3

abbrev pub idle : Bridge sample
idle = record {
  tcp_server = record {
    server_fd = descriptor 3;
    client_fd = descriptor 7;
    port = 5555;
    is_connected = true;
    connect_hook = none;
    disconnect_hook = none;
  };
  handlers = record {
    callback_map = record { callbacks = []; callback_names = [] };
    request_handler = record { bytes_accumulator_map = []; bytes_received_callback = none };
    response_handler = record {
      neighbor_list_update_callback = none;
      neighbor_update_callback = none;
    };
  };
  inbound_queue = [];
  inbound_thread = true;
  outbound_queue = [];
  outbound_thread = true;
  inbound_requests_queue = [];
  inbound_responses_map = [];
  swarm_agent_id = 4;
  keep_alive_nb_spin = 2;
  keep_alive_counter = 1;
  drawn = 0;
}

abbrev alone : Bridge sample
alone = record idle { tcp_server = record idle.tcp_server { is_connected = false } }

abbrev receiver : HiveMindHostApiRequestHandler
receiver = record { bytes_accumulator_map = []; bytes_received_callback = some 1 }

abbrev six : List ℕ
six = 1 ∷ 2 ∷ 3 ∷ 4 ∷ 5 ∷ 6 ∷ []

abbrev eight : List ℕ
eight = six ++ 7 ∷ 8 ∷ []

send_bytes_delivers_example :
    let (s', success, effects) = send_bytes sample rand idle 9 six 6 in
    (success ≡ true)
    × ((new : List (OutboundRequestHandle sample)) × (s'.outbound_queue ≡ new)
        × ((handle_stream sample 3 receiver (queued_bytes sample new)).1
            ≡ bytes_received 1 six 6 ∷ []))
unfolding lookup
send_bytes_delivers_example =
    send_bytes_delivers sample rand idle 9 six 6 (omega arith) (omega arith) (omega arith)
      (omega arith) (omega arith) refl receiver 1 refl refl (omega arith)

send_bytes_truncates_example :
    let (s', success, effects) = send_bytes sample rand idle 9 eight 8 in
    (success ≡ true)
    × ((new : List (OutboundRequestHandle sample)) × (s'.outbound_queue ≡ new)
        × ((handle_stream sample 3 receiver (queued_bytes sample new)).1
            ≡ bytes_received 1 (1 ∷ 2 ∷ 3 ∷ 4 ∷ []) 4 ∷ []))
unfolding lookup
send_bytes_truncates_example =
    send_bytes_truncates sample rand idle 9 eight 8 (omega arith) (omega arith) (omega arith)
      (omega arith) (omega arith) refl receiver 1 refl refl refl

abbrev pub first : Packet
first = record { id = 5; number = 0; is_last = false; payload = 1 ∷ 2 ∷ []; payload_length = 2 }

abbrev pub other : Packet
other = record { id = 6; number = 8; is_last = true; payload = 9 ∷ []; payload_length = 1 }

abbrev pub second : Packet
second = record { id = 5; number = 1; is_last = true; payload = 3 ∷ []; payload_length = 1 }

handle_stream_delivers_example :
    let (h', effects) = handle_stream sample 5 receiver (first ∷ other ∷ second ∷ []) in
    (effects ≡ bytes_received 1 (1 ∷ 2 ∷ 3 ∷ []) 3 ∷ []) × (stream h' 5 ≡ new_accumulator)
unfolding lookup
handle_stream_delivers_example = handle_stream_delivers sample 5 1 receiver refl refl (
    middle first refl refl refl refl
      (foreign other (omega arith) (last second refl refl refl refl)))

handle_bytes-skipped_example :
    let (h', effects) = handle_bytes sample receiver second in
    (effects ≡ logged error "A packet was skipped." ∷ [])
    × (stream h' 5 ≡ stream receiver 5)
    × (h'.bytes_received_callback ≡ some 1)
unfolding lookup
handle_bytes-skipped_example = handle_bytes-skipped sample receiver second 1 refl out_of_order
  where
    out_of_order : second.number ≢ ((stream receiver 5).last_packet_number + 1) % 2 ^ 32
    out_of_order = omega arith

-- A request that the bridge sends.
abbrev pub request_of : (id : ℕ) → Message
request_of id = (
  4,
  9,
  Pheromones.MessageBody.request (
    id,
    Pheromones.RequestBody.hive_mind_host_api
        (Pheromones.HiveMindHostApiRequestBody.get_neighbor 3),
  ),
)

abbrev pub fresh_request : (id : ℕ) → OutboundRequestHandle sample
fresh_request id = outbound_request_handle sample (request_of id)

abbrev busy : Bridge sample
busy = record idle { outbound_queue = fresh_request 10 ∷ fresh_request 11 ∷ [] }

outbound_rounds_send_example :
    outbound_rounds sample 2 busy
    ≡ value (
      record busy {
        outbound_queue =
            mark_sent sample (fresh_request 10) ∷ mark_sent sample (fresh_request 11) ∷ [];
      },
      serialized (request_of 10) ∷ serialized (request_of 11) ∷ [],
    )
unfolding lookup
outbound_rounds_send_example =
    outbound_rounds_send sample (fresh_request 10 ∷ fresh_request 11 ∷ []) [] busy refl refl
      ((refl, (_, refl, refl)), ((refl, (_, refl, refl)), tt))

outbound_rounds_drain_example :
    (s' : Bridge sample) × (effects : List (Effect sample)) × (outbound_rounds sample 30 busy
      ≡ value (s', effects))
    × (s'.outbound_queue ≡ [])
outbound_rounds_drain_example = outbound_rounds_drain sample 30 busy refl (omega arith)

abbrev pub listening : Bridge sample
listening = record idle {
  handlers = record idle.handlers { request_handler = receiver };
  swarm_agent_id = 9;
}

transfer_delivers_example :
    (new : List (OutboundRequestHandle sample)) × (sent : Bridge sample) × (received : Bridge
      sample)
    × (outbound_rounds sample (length new) (send_bytes sample rand idle 9 six 6).0
        ≡ value (sent, map (λ h. serialized h.message) new))
    × (handle_fronts sample (length new) (receive_all sample listening (messages_of sample new))
        ≡ value (received, bytes_received 1 six 6 ∷ []))
    × (received.inbound_queue ≡ [])
    × (stream received.handlers.request_handler 3 ≡ new_accumulator)
unfolding lookup
transfer_delivers_example =
    transfer_delivers sample rand idle listening 9 six 6 1 (omega arith) (omega arith) (omega arith)
      (omega arith) (omega arith) (omega arith) refl refl refl refl refl refl refl
