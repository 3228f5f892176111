-- ===== src/Bridge/SendBytes/Packets.antt =====
-- The packets that `sendBytes` queues, and what they carry.
use hive_mind_bridge.Prelude.{
  All, ℕ, zero, suc, ◌+◌, ◌-◌, ◌*◌, ◌%◌, ◌^◌, ◌≤◌, ◌<◌, ◌≡◌, refl, sym, ap, ap₂, ◌∙◌, Bool, true,
  false, List, [], ◌∷◌, ◌++◌, arith, ◌==◌, ==_iff, ne→==_false, length, take, drop, length-drop,
  take-add, drop-drop, append_assoc,
}
use native.Mathlib.Nat.{mod-le, mod-lt, mod-eq_of_lt}
use hive_mind_bridge.Pheromones.{Pheromones}
use hive_mind_bridge.Effect.{Effect}
use hive_mind_bridge.MessageUtils.{generate_random_id}
use hive_mind_bridge.Handle.{OutboundRequestHandle, outbound_request_handle}
use hive_mind_bridge.HiveMindHostApiRequestHandler.Reassembly.{Carries, middle, last}
use hive_mind_bridge.Bridge.{Bridge, random_id}
use hive_mind_bridge.Bridge.SendBytes.{packet_size, send_packets}
use hive_mind_bridge.Bridge.SendBytes.Messages.{
  bytes_message, packet_size-le, payload_of, queue_and_send-connected, create_bytes_message_lem,
  queued_bytes-message, IsPacket, queued_bytes, IsConnected,
}

module _ (P : Pheromones) where
  open P use {
    MessageDto, BytesDto, RequestDto, HiveMindHostApiRequestDto, get_packet_id, payload_max_size,
    get_message, get_request, host_api_request, bytes_dto, get_payload, get_payload_length,
    request_dto, hive_mind_host_api_request_dto,
  }

  module _ (rand : ℕ → ℕ) (id dest size n : ℕ) (payload : List ℕ) (max_pos : 0 < payload_max_size)
      (max_byte : payload_max_size < 2 ^ 8) (size_u16 : size < 2 ^ 16)
      (enough : size ≤ length payload) (last_before : (n - 1) * payload_max_size < size) where
    abbrev pub total : ℕ
    total = (n - 1) * payload_max_size + (size - (n - 1) * payload_max_size) % payload_max_size

    -- Packet `k`, and the bridge after it is queued.
    abbrev dto : ℕ → Bool → BytesDto
    dto k l = bytes_dto id k l (drop (k * payload_max_size) payload) (packet_size P size k l)

    abbrev handle : ℕ → Bool → Bridge P → OutboundRequestHandle P
    handle k l s = outbound_request_handle P (
        bytes_message P s.swarm_agent_id dest (generate_random_id (rand s.drawn)) id k l
          (drop (k * payload_max_size) payload) (packet_size P size k l))

    abbrev queued : ℕ → Bool → Bridge P → Bridge P
    queued k l s = record s {
      outbound_queue = s.outbound_queue ++ handle k l s ∷ [];
      drawn = s.drawn + 1;
    }

    start_before : (k : ℕ) → k ≤ n - 1 → k * payload_max_size < size
    start_before k h = grind arith

    packet_fits : (k : ℕ) (l : Bool) → packet_size P size k l ≤ payload_max_size
    packet_fits k l = packet_size-le P size k l max_pos

    send_packets-step :
        (rounds k : ℕ) (l : Bool) (s : Bridge P)
        → (k == n - 1) ≡ l
        → k ≤ n - 1
        → IsConnected P s
        → send_packets P rand (suc rounds) k n id dest size payload s
          ≡ send_packets P rand rounds (k + 1) n id dest size payload (queued k l s)
    unfolding send_packets random_id
    send_packets-step rounds k l s e before c =
        let start : k * payload_max_size % 65536 ≡ k * payload_max_size =
          mod-eq_of_lt (omega (arith, start_before k before)) in
        let pushed =
          queue_and_send-connected P (record s { drawn = s.drawn + 1 }) (handle k l s).message c in
        rw
          (
            e,
            start,
            create_bytes_message_lem P s.swarm_agent_id dest (generate_random_id (rand s.drawn)) id
                k l (drop (k * payload_max_size) payload) (packet_size P size k l)
                (packet_fits k l),
            send_packets,
          )
          (rw (pushed, send_packets) (rw pushed))

    -- What the loop leaves behind when it starts at packet `k`.
    unfoldable pub Sent : (k : ℕ) → Bridge P → Bridge P × Bool × List (Effect P) → Type 0
    Sent k s (s', success, effects) =
        (new : List (OutboundRequestHandle P)) × (s'.outbound_queue ≡ s.outbound_queue ++ new)
        × (success ≡ true)
        × (effects ≡ [])
        × Carries P id k (queued_bytes P new)
            (take (total - k * payload_max_size) (drop (k * payload_max_size) payload))
        × All (IsPacket P id) new
        × (s'.tcp_server ≡ s.tcp_server)
        × (s'.inbound_responses_map ≡ s.inbound_responses_map)

    handle-IsPacket : (k : ℕ) (l : Bool) (s : Bridge P) → IsPacket P id (handle k l s)
    handle-IsPacket k l s = (
      refl,
      (
        _,
        P.message_lem _ _ _,
        (_, P.request_lem _ _, (_, P.host_api_request_lem _, P.packet_id_lem id k l _ _)),
      ),
    )

    -- The bytes of packet `k`.
    carries-packet :
        (k : ℕ) (l : Bool)
        → k ≤ n - 1
        → packet_size P size k l ≤ size - k * payload_max_size
        → take (get_payload_length (dto k l)) (get_payload (dto k l))
          ≡ take (packet_size P size k l) (drop (k * payload_max_size) payload)
    carries-packet k l before rest =
        payload_of P id k l _ _ (packet_fits k l)
          (omega (arith, length-drop (k * payload_max_size) payload))

    Sent-last : (k : ℕ) (s : Bridge P) → k ≡ n - 1 → Sent k s (queued k true s, true, [])
    unfolding Sent queued_bytes
    Sent-last k s e = (
      handle k true s ∷ [],
      refl,
      refl,
      refl,
      rw
          (queued_bytes-message P s.swarm_agent_id dest (generate_random_id (rand s.drawn)) id k
            true _ _ [])
          (last (dto k true) (P.packet_id_lem id k true _ _) (P.packet_number_lem id k true _ _)
            (P.last_packet_lem id k true _ _)
            (ap (λ t. take t (drop (k * payload_max_size) payload)) size_lem
              ∙ sym (
                  carries-packet k true (omega arith)
                    (omega (arith, mod-le (size - k * payload_max_size) payload_max_size))))),
      (handle-IsPacket k true s, tt),
      refl,
      refl,
    )
      where
        size_lem : total - k * payload_max_size ≡ packet_size P size k true
        size_lem = omega (
          arith,
          ap (λ (t : ℕ). t * payload_max_size) e,
          ap (λ (t : ℕ). (size - t * payload_max_size) % payload_max_size) e,
          mod-lt (size - k * payload_max_size) max_pos,
        )

    split_payload :
        (k : ℕ)
        → k < n - 1
        → take (total - k * payload_max_size) (drop (k * payload_max_size) payload)
          ≡ take (get_payload_length (dto k false)) (get_payload (dto k false))
            ++ take (total - (k + 1) * payload_max_size) (drop ((k + 1) * payload_max_size) payload)
    split_payload k before =
        ap (λ t. take t ys) split
        ∙ take-add payload_max_size (total - (k + 1) * payload_max_size) ys
        ∙ ap₂ ◌++◌ front back
      where
        ys : List ℕ
        ys = drop (k * payload_max_size) payload

        mono : (k + 1) * payload_max_size ≤ (n - 1) * payload_max_size
        mono = grind arith

        split :
            total - k * payload_max_size ≡ payload_max_size + (total - (k + 1) * payload_max_size)
        split = omega (arith, mono)

        full : packet_size P size k false ≡ payload_max_size
        full = omega arith

        front :
            take payload_max_size ys
            ≡ take (get_payload_length (dto k false)) (get_payload (dto k false))
        front =
            sym (
              carries-packet k false (omega arith) (omega (arith, mono)) ∙ ap (λ t. take t ys) full)

        back :
            take (total - (k + 1) * payload_max_size) (drop payload_max_size ys)
            ≡ take (total - (k + 1) * payload_max_size) (drop ((k + 1) * payload_max_size) payload)
        back = ap (take (total - (k + 1) * payload_max_size)) (
            drop-drop (k * payload_max_size) payload_max_size payload
            ∙ ap (λ t. drop t payload) (omega arith))

    Sent-middle :
        (k : ℕ) (s : Bridge P) (r : Bridge P × Bool × List (Effect P))
        → k < n - 1
        → Sent (k + 1) (queued k false s) r
        → Sent k s r
    unfolding Sent queued_bytes
    Sent-middle k s (s', success, effects) before
          (new, queue, ok, quiet, c, packets, server, responses) =
        (
          handle k false s ∷ new,
          queue ∙ append_assoc s.outbound_queue (handle k false s ∷ []) new,
          ok,
          quiet,
          rw
              (queued_bytes-message P s.swarm_agent_id dest (generate_random_id (rand s.drawn)) id k
                false _ _ new)
              (middle (dto k false) (P.packet_id_lem id k false _ _)
                (P.packet_number_lem id k false _ _) (P.last_packet_lem id k false _ _)
                (split_payload k before) (rw (mod-eq_of_lt small) c)),
          (handle-IsPacket k false s, packets),
          server,
          responses,
        )
      where
        small : k + 1 < 4294967296
        small = grind arith

    pub send_packets-Sent :
        (rounds k : ℕ) (s : Bridge P)
        → k + suc rounds ≡ n
        → IsConnected P s
        → Sent k s (send_packets P rand (suc rounds) k n id dest size payload s)
    send_packets-Sent zero k s e c =
        rw (send_packets-step zero k true s ((==_iff k (n - 1)).1 (omega arith)) (omega arith) c)
          (unfold send_packets in Sent-last k s (omega arith))
    send_packets-Sent (suc rounds) k s e c =
        rw
          (send_packets-step (suc rounds) k false s (ne→==_false k (n - 1) (omega arith))
            (omega arith) c)
          (Sent-middle k s _ (omega arith)
            (send_packets-Sent rounds (k + 1) (queued k false s) (omega arith) c))
