-- ===== src/Bridge/SendBytes/RoundTrip.antt =====
-- What `sendBytes` queues on one host, handled in that order by `handleBytes` on another.
use hive_mind_bridge.Prelude.{
  All, ℕ, zero, suc, ◌+◌, ◌-◌, ◌*◌, ◌%◌, ◌^◌, ◌≤◌, ◌<◌, ◌≡◌, ◌≢◌, refl, ap, subst, ◌∙◌, true, false,
  some, List, [], ◌∷◌, ◌++◌, arith, length, take,
}
use native.Mathlib.Nat.{mod-eq_of_lt, mod_self, add-mul-mod_self_right}
use native.Mathlib.Decide.{dec_lt}
use hive_mind_bridge.Pheromones.{Pheromones}
use hive_mind_bridge.Effect.{bytes_received, logged, error}
use hive_mind_bridge.BytesAccumulator.{new_accumulator}
use hive_mind_bridge.MessageUtils.{generate_random_id}
use hive_mind_bridge.Handle.{OutboundRequestHandle}
use hive_mind_bridge.HiveMindHostApiRequestHandler.{HiveMindHostApiRequestHandler}
use hive_mind_bridge.HiveMindHostApiRequestHandler.Streams.{stream}
use hive_mind_bridge.HiveMindHostApiRequestHandler.Reassembly.{
  Carries, handle_stream, handle_stream_delivers,
}
use hive_mind_bridge.Bridge.{Bridge, queue_and_send, random_id}
use hive_mind_bridge.Bridge.SendBytes.{nb_packets, send_packets, send_bytes}
use hive_mind_bridge.Bridge.SendBytes.Messages.{
  IsPacket, ceil_bounds, queued_bytes, carried, create_bytes_message_lem, packet_size-le,
}
use hive_mind_bridge.Bridge.SendBytes.Packets.{send_packets-Sent, Sent}

module _ (P : Pheromones) where
  open P use {payload_max_size}

  module _ (size : ℕ) (max_pos : 0 < payload_max_size) (size_pos : 0 < size) where
    abbrev last_start : ℕ
    last_start = (nb_packets P size - 1) * payload_max_size

    size-mod : size % payload_max_size ≡ (size - last_start) % payload_max_size
    size-mod =
        ap (λ t. t % payload_max_size) split
        ∙ add-mul-mod_self_right (size - last_start) (nb_packets P size - 1) payload_max_size
      where
        split : size ≡ size - last_start + last_start
        split = omega (arith, ceil_bounds size payload_max_size max_pos size_pos)

    last_rest : size - last_start ≤ payload_max_size
    last_rest = go (nb_packets P size) (ceil_bounds size payload_max_size max_pos size_pos)
      where
        go :
            (n : ℕ)
            → (0 < n) × ((n - 1) * payload_max_size < size) × (size ≤ n * payload_max_size)
            → size - (n - 1) * payload_max_size ≤ payload_max_size
        go zero (p, q, r) = absurd (omega arith)
        go (suc n) (p, q, r) = let e : suc n - 1 ≡ n = omega arith in rw e (omega arith)

    -- The packets carry everything unless the last one is full.
    pub carried_all : size % payload_max_size ≢ 0 → carried P size ≡ size
    carried_all h = elim (dec_lt (size - last_start) payload_max_size) [
      | yes short ↦
          omega (arith, mod-eq_of_lt short, ceil_bounds size payload_max_size max_pos size_pos)
      | no full ↦ absurd (h (size-mod ∙ full_rest full ∙ mod_self payload_max_size))
    ]
      where
        full_rest :
            ¬ (size - last_start < payload_max_size)
            → (size - last_start) % payload_max_size ≡ payload_max_size % payload_max_size
        full_rest full = ap (λ t. t % payload_max_size) (omega (arith, last_rest))

    -- A full last packet goes out empty.
    pub carried_short : size % payload_max_size ≡ 0 → carried P size ≡ size - payload_max_size
    carried_short h = elim (dec_lt (size - last_start) payload_max_size) [
      | yes short ↦ absurd (
          omega (
            arith,
            mod-eq_of_lt short,
            size-mod,
            ceil_bounds size payload_max_size max_pos size_pos,
          ))
      | no full ↦
          omega (arith, size-mod, last_rest, ceil_bounds size payload_max_size max_pos size_pos)
    ]

  module _ (rand : ℕ → ℕ) (s : Bridge P) (destination_id : ℕ) (payload : List ℕ) (size : ℕ)
      (max_pos : 0 < payload_max_size) (max_byte : payload_max_size < 2 ^ 8) (size_pos : 0 < size)
      (size_u16 : size < 2 ^ 16) (enough : size ≤ length payload)
      (connected : s.tcp_server.is_connected ≡ true) where
    abbrev id : ℕ
    id = generate_random_id (rand s.drawn)

    -- With a client, `sendBytes` succeeds, adds to the queue the packets of one stream, and leaves the
    -- server and the responses as they were.
    pub send_bytes_lem :
        let (s', success, effects) = send_bytes P rand s destination_id payload size in
        (new : List (OutboundRequestHandle P)) × (s'.outbound_queue ≡ s.outbound_queue ++ new)
        × (success ≡ true)
        × (effects ≡ [])
        × Carries P id 0 (queued_bytes P new) (take (carried P size) payload)
        × All (IsPacket P id) new
        × (s'.tcp_server ≡ s.tcp_server)
        × (s'.inbound_responses_map ≡ s.inbound_responses_map)
    unfolding send_bytes random_id Sent
    send_bytes_lem =
        let (new, queue, ok, quiet, c, packets, server, responses) = sent in
        (new, queue, ok, quiet, rw (zero_mul, sub_zero) at c, packets, server, responses)
      where
        n : ℕ
        n = nb_packets P size

        bounds : (0 < n) × ((n - 1) * payload_max_size < size) × (size ≤ n * payload_max_size)
        bounds = ceil_bounds size payload_max_size max_pos size_pos

        drawn : Bridge P
        drawn = (random_id P rand s).0

        sent :
            Sent P rand id destination_id size n payload max_pos max_byte size_u16 enough bounds.1 0
              drawn
              (send_packets P rand n 0 n id destination_id size payload drawn)
        sent =
            subst
              (λ t.
                Sent P rand id destination_id size n payload max_pos max_byte size_u16 enough
                  bounds.1 0 drawn (send_packets P rand t 0 n id destination_id size payload drawn))
              (omega (arith, bounds.0))
              (send_packets-Sent P rand id destination_id size n payload max_pos max_byte size_u16
                enough bounds.1 (n - 1) 0 drawn (omega (arith, bounds.0)) connected)

        zero_mul : 0 * payload_max_size ≡ 0
        zero_mul = omega arith

        sub_zero : carried P size - 0 ≡ carried P size
        sub_zero = omega arith

    module _ (h : HiveMindHostApiRequestHandler) (callback : ℕ)
        (set : h.bytes_received_callback ≡ some callback)
        (fresh : stream h id ≡ new_accumulator) where
      -- A payload that is not empty and whose size, of 16 bits, is no multiple of the packet size,
      -- positive and below 256, arrives: with a client `sendBytes` succeeds and queues packets
      -- that, handled in their order by a handler with a callback and no stream of that id, make
      -- one call of the callback, with the payload.
      pub send_bytes_delivers :
          size % payload_max_size ≢ 0
          → let (s', success, effects) = send_bytes P rand s destination_id payload size in
            (success ≡ true)
            × ((new : List (OutboundRequestHandle P)) × (s'.outbound_queue
                  ≡ s.outbound_queue ++ new)
                × ((handle_stream P id h (queued_bytes P new)).1
                    ≡ bytes_received callback (take size payload) (length (take size payload))
                      ∷ []))
      send_bytes_delivers partial =
          let (new, queue, ok, quiet, c, _, _, _) = send_bytes_lem in
          let whole = carried_all size max_pos size_pos partial in
          (ok, (new, queue, rw (← whole) (handle_stream_delivers P id callback h set fresh c).0))

      -- A payload that fills its packets exactly loses the last of them. With a client, a packet
      -- size that is positive and below 256, and a size of 16 bits that is a positive multiple of
      -- it, `sendBytes` reports success and queues packets that, handled in their order by a
      -- handler with a callback and no stream of that id, make one call of the callback, with the
      -- payload but for its last `PAYLOAD_MAX_SIZE` bytes.
      pub send_bytes_truncates :
          size % payload_max_size ≡ 0
          → let (s', success, effects) = send_bytes P rand s destination_id payload size in
            let received = take (size - payload_max_size) payload in
            (success ≡ true)
            × ((new : List (OutboundRequestHandle P)) × (s'.outbound_queue
                  ≡ s.outbound_queue ++ new)
                × ((handle_stream P id h (queued_bytes P new)).1
                    ≡ bytes_received callback received (length received) ∷ []))
      send_bytes_truncates full =
          let (new, queue, ok, quiet, c, _, _, _) = send_bytes_lem in
          let short = carried_short size max_pos size_pos full in
          (ok, (new, queue, rw (← short) (handle_stream_delivers P id callback h set fresh c).0))

  queue_and_send-disconnected :
      (s : Bridge P) (message : P.MessageDto)
      → s.tcp_server.is_connected ≡ false
      → queue_and_send P s message ≡ (s, false)
  unfolding queue_and_send
  queue_and_send-disconnected s message down = ground arith

  -- Without a client and with a packet size that is positive, `sendBytes` of a payload that is not
  -- empty fails at its first packet, with the queue as it was and an error in the log.
  pub send_bytes_disconnected :
      (rand : ℕ → ℕ) (s : Bridge P) (destination_id : ℕ) (payload : List ℕ) (size : ℕ)
      → 0 < payload_max_size
      → 0 < size
      → s.tcp_server.is_connected ≡ false
      → let (s', success, effects) = send_bytes P rand s destination_id payload size in
        (success ≡ false)
        × (s'.outbound_queue ≡ s.outbound_queue)
        × (effects ≡ logged error "Sending bytes failed" ∷ [])
  unfolding send_bytes
  send_bytes_disconnected rand s destination_id payload size max_pos size_pos down =
      go (nb_packets P size) (ceil_bounds size payload_max_size max_pos size_pos).0
    where
      drawn : Bridge P
      drawn = (random_id P rand s).0

      req : ℕ
      req = (random_id P rand s).1

      go :
          (n : ℕ)
          → 0 < n
          → let r = send_packets P rand n 0 n req destination_id size payload drawn in
            (r.1 ≡ false)
            × (r.0.outbound_queue ≡ s.outbound_queue)
            × (r.2 ≡ logged error "Sending bytes failed" ∷ [])
      go zero p = absurd (omega arith)
      go (suc n) p =
          unfold send_packets random_id in
          rw
            (
              create_bytes_message_lem P s.swarm_agent_id destination_id _ req 0 _ _ _
                  (packet_size-le P size 0 _ max_pos),
              send_packets,
            )
            (rw
              (
                queue_and_send-disconnected (record s { drawn = s.drawn + 1 + 1 }) _ down,
                send_packets,
              )
              (
                refl,
                ap (λ r. r.0.outbound_queue)
                    (queue_and_send-disconnected (record s { drawn = s.drawn + 1 + 1 }) _ down),
                refl,
              ))
