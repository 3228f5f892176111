-- ===== src/Bridge/Transfer.antt =====
-- A payload on its way from one bridge to another: `sendBytes` and the outbound thread of the sender,
-- the inbound thread and `spin` of the receiver.
use hive_mind_bridge.Prelude.{
  All, ℕ, zero, suc, ◌%◌, ◌^◌, ◌≤◌, ◌<◌, ◌≡◌, ◌≢◌, refl, sym, ap, ◌∙◌, true, false, some, List, [],
  ◌∷◌, ◌++◌, map, length, take, append_assoc, append-nil, arith, lookup, nat_eq, ==_refl, Access,
  value, ◌>>=◌,
}
use hive_mind_bridge.Pheromones.{Pheromones}
use hive_mind_bridge.Effect.{Effect, serialized, bytes_received}
use hive_mind_bridge.BytesAccumulator.{new_accumulator}
use hive_mind_bridge.MessageUtils.{generate_random_id}
use hive_mind_bridge.Handle.{OutboundRequestHandle}
use hive_mind_bridge.HiveMindHostApiRequestHandler.{HiveMindHostApiRequestHandler, handle_bytes}
use hive_mind_bridge.HiveMindHostApiRequestHandler.Streams.{stream}
use hive_mind_bridge.HiveMindHostApiRequestHandler.Reassembly.{
  handle_stream, handle_stream_delivers,
}
use hive_mind_bridge.MessageHandler.{nothing}
use hive_mind_bridge.MessageHandler.Dispatch.{handle_message-bytes}
use hive_mind_bridge.Bridge.{Bridge}
use hive_mind_bridge.Bridge.SendBytes.{send_bytes}
use hive_mind_bridge.Bridge.SendBytes.Messages.{IsPacket, queued_bytes}
use hive_mind_bridge.MessageHandler.Packets.{bytes_of}
use hive_mind_bridge.Bridge.SendBytes.RoundTrip.{send_bytes_lem, carried_all}
use hive_mind_bridge.Bridge.Outbound.{inbound_round}
use hive_mind_bridge.TcpServer.{lose_if}
use hive_mind_bridge.Bridge.Outbound.Delivery.{
  outbound_rounds, IsUnsent, mark_sent, outbound_rounds_send,
}
use hive_mind_bridge.Bridge.Spin.{accept, handle_front}
use hive_mind_bridge.Bridge.Spin.Inbound.{handle_front-value}

module _ (P : Pheromones) where
  open P use {MessageDto, BytesDto, payload_max_size, get_packet_id}

  abbrev pub messages_of : List (OutboundRequestHandle P) → List MessageDto
  messages_of = map (λ h. h.message)

  -- The inbound thread, on messages that arrive one after the other.
  pub receive_all : Bridge P → List MessageDto → Bridge P
  receive_all r [] = r
  receive_all r (m ∷ ms) = receive_all (inbound_round P r false (some m)).0 ms

  -- The part of `spin` that handles a message, again and again.
  unfoldable pub handle_fronts : ℕ → Bridge P → Access (Bridge P × List (Effect P))
  handle_fronts zero r = value (r, [])
  handle_fronts (suc n) r = do
    (r', effects) ← handle_front P r
    (r'', later) ← handle_fronts n r'
    value (r'', effects ++ later)

  receive_all-append :
      (ms : List MessageDto) (r : Bridge P)
      → r.tcp_server.is_connected ≡ true
      → receive_all r ms ≡ record r { inbound_queue = r.inbound_queue ++ ms }
  unfolding receive_all
  receive_all-append [] r c =
      ap (λ q. record r { inbound_queue = q }) (sym (append-nil r.inbound_queue))
  receive_all-append (m ∷ ms) r c =
      ap (λ t. receive_all t ms) (arrive r m c)
      ∙ receive_all-append ms (record r { inbound_queue = r.inbound_queue ++ m ∷ [] }) c
      ∙ ap (λ q. record r { inbound_queue = q }) (append_assoc r.inbound_queue (m ∷ []) ms)
    where
      arrive :
          (r : Bridge P) (m : MessageDto)
          → r.tcp_server.is_connected ≡ true
          → (inbound_round P r false (some m)).0
            ≡ record r { inbound_queue = r.inbound_queue ++ m ∷ [] }
      arrive r m c = unfold inbound_round lose_if in ground arith

  -- The receiver after the packets `bs`.
  abbrev after_packets : (id : ℕ) → Bridge P → List MessageDto → List BytesDto → Bridge P
  after_packets id r rest bs = record r {
    inbound_queue = rest;
    handlers = record r.handlers {
      request_handler = (handle_stream P id r.handlers.request_handler bs).0;
    };
  }

  module _ (id : ℕ) (h : OutboundRequestHandle P) (is_packet : IsPacket P id h) where
    packet : BytesDto
    packet = is_packet.1.2.2.0

    bytes_of-packet : bytes_of P h.message ≡ some packet
    unfolding bytes_of packet
    bytes_of-packet =
        let (fresh, (q, holds, (hm, api, (b, bytes, own)))) = is_packet in
        rw (holds, bytes_of) (rw (api, bytes_of) (rw (bytes, bytes_of)))

    handle_front-packet :
        (r : Bridge P) (rest : List MessageDto)
        → r.inbound_queue ≡ h.message ∷ rest
        → let (h', effects) = handle_bytes P r.handlers.request_handler packet in
          handle_front P r
          ≡ value (
            record r {
              inbound_queue = rest;
              handlers = record r.handlers { request_handler = h' };
            },
            effects,
          )
    unfolding accept packet
    handle_front-packet r rest queue =
        let (fresh, (q, holds, (hm, api, (b, bytes, own)))) = is_packet in
        let (h', effects) = handle_bytes P r.handlers.request_handler b in
        handle_front-value P r h.message rest (record r.handlers { request_handler = h' }) nothing
          effects queue (handle_message-bytes P r.handlers h.message q hm b holds api bytes)
        ∙ ap
            (λ es. value (
              record r {
                inbound_queue = rest;
                handlers = record r.handlers { request_handler = h' };
              },
              es,
            ))
            (append-nil effects)

    queued_bytes-packet :
        (hs : List (OutboundRequestHandle P)) → queued_bytes P (h ∷ hs) ≡ packet ∷ queued_bytes P hs
    unfolding queued_bytes
    queued_bytes-packet hs = rw (bytes_of-packet, queued_bytes) refl

    packet_own : get_packet_id packet ≡ id
    unfolding packet
    packet_own = is_packet.1.2.2.2

    handle_stream-packet :
        (s : HiveMindHostApiRequestHandler) (bs : List BytesDto)
        → let (s', effects) = handle_bytes P s packet in
          let (s'', later) = handle_stream P id s' bs in
          handle_stream P id s (packet ∷ bs) ≡ (s'', effects ++ later)
    unfolding handle_stream
    handle_stream-packet s bs = rw (packet_own, ==_refl id) refl

  handle_fronts-packets :
      (id : ℕ) (hs : List (OutboundRequestHandle P)) (r : Bridge P)
      → r.inbound_queue ≡ messages_of hs
      → All (IsPacket P id) hs
      → let bs = queued_bytes P hs in
        handle_fronts (length hs) r
        ≡ value (after_packets id r [] bs, (handle_stream P id r.handlers.request_handler bs).1)
  unfolding handle_fronts
  handle_fronts-packets id [] r queue a =
      unfold queued_bytes handle_stream in
      ap (λ q. value (record r { inbound_queue = q }, [])) queue
  handle_fronts-packets id (h ∷ hs) r queue (is_packet, a) =
      let h' = (handle_bytes P r.handlers.request_handler (packet id h is_packet)).0 in
      let r' = record r {
        inbound_queue = messages_of hs;
        handlers = record r.handlers { request_handler = h' };
      } in
      rw (handle_front-packet id h is_packet r (messages_of hs) queue, handle_fronts)
        (rw (handle_fronts-packets id hs r' refl a, handle_fronts)
          (rw
            (
              queued_bytes-packet id h is_packet hs,
              handle_stream-packet id h is_packet r.handlers.request_handler (queued_bytes P hs),
            )
            refl))

  All-IsUnsent :
      (id : ℕ) (hs : List (OutboundRequestHandle P)) (s : Bridge P)
      → s.inbound_responses_map ≡ []
      → All (IsPacket P id) hs
      → All (IsUnsent P s) hs
  All-IsUnsent id [] s e a = tt
  All-IsUnsent id (h ∷ hs) s e ((fresh, (q, holds, _)), a) =
      ((fresh, (q, holds, rw e (unfold lookup in refl))), All-IsUnsent id hs s e a)

  -- A payload goes from one bridge to another. The sender has a client, nothing to send and no
  -- responses; the receiver has a client, no message, a callback, and no stream under the id that
  -- the sender draws; the packet size is positive and below 256; the payload is not empty, its size
  -- fits in 16 bits and is no multiple of the packet size. Then `sendBytes` queues requests that as
  -- many rounds of the outbound thread send, once each and in order; if the inbound thread of the
  -- receiver gets them in that order, then handling as many messages calls the callback once, with
  -- the payload, and leaves the inbound queue and the stream empty.
  pub transfer_delivers :
      (rand : ℕ → ℕ) (s r : Bridge P) (destination_id : ℕ) (payload : List ℕ) (size callback : ℕ)
      → 0 < payload_max_size
      → payload_max_size < 2 ^ 8
      → 0 < size
      → size < 2 ^ 16
      → size ≤ length payload
      → size % payload_max_size ≢ 0
      → s.tcp_server.is_connected ≡ true
      → s.outbound_queue ≡ []
      → s.inbound_responses_map ≡ []
      → r.tcp_server.is_connected ≡ true
      → r.inbound_queue ≡ []
      → r.handlers.request_handler.bytes_received_callback ≡ some callback
      → stream r.handlers.request_handler (generate_random_id (rand s.drawn)) ≡ new_accumulator
      → let whole = take size payload in
        (new : List (OutboundRequestHandle P)) × (sent : Bridge P) × (received : Bridge P)
        × (outbound_rounds P (length new) (send_bytes P rand s destination_id payload size).0
            ≡ value (sent, map (λ h. serialized h.message) new))
        × (handle_fronts (length new) (receive_all r (messages_of new))
            ≡ value (received, bytes_received callback whole (length whole) ∷ []))
        × (received.inbound_queue ≡ [])
        × (stream received.handlers.request_handler (generate_random_id (rand s.drawn))
            ≡ new_accumulator)
  transfer_delivers rand s r destination_id payload size callback max_pos max_byte size_pos size_u16
        enough partial connected idle quiet listening ready set fresh =
      let id = generate_random_id (rand s.drawn) in
      let (new, queue, ok, effects, c, packets, server, responses) =
        send_bytes_lem P rand s destination_id payload size max_pos max_byte size_pos size_u16
          enough connected in
      let s' = (send_bytes P rand s destination_id payload size).0 in
      let (delivered, empty) =
        handle_stream_delivers P id callback r.handlers.request_handler set fresh c in
      (
        new,
        record s' { outbound_queue = map (mark_sent P) new },
        after_packets id r [] (queued_bytes P new),
        outbound_rounds_send P new [] s' (ap (λ t. t.is_connected) server ∙ connected)
            (queue ∙ ap (λ q. q ++ new) idle ∙ sym (append-nil new))
            (All-IsUnsent id new s' (responses ∙ quiet) packets),
        ap (handle_fronts (length new)) (
              receive_all-append (messages_of new) r listening
              ∙ ap (λ q. record r { inbound_queue = q ++ messages_of new }) ready)
            ∙ handle_fronts-packets id new (record r { inbound_queue = messages_of new }) refl
                packets
            ∙ ap (λ es. value (after_packets id r [] (queued_bytes P new), es))
                (delivered
                  ∙ ap
                      (λ k. bytes_received callback (take k payload) (length (take k payload)) ∷ [])
                      (carried_all P size max_pos size_pos partial)),
        refl,
        empty,
      )
