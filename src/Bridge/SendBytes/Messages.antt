-- ===== src/Bridge/SendBytes/Messages.antt =====
-- The messages of packets, and the bytes that they carry in all.
use hive_mind_bridge.Prelude.{
  ℕ, zero, suc, ◌+◌, ◌-◌, ◌*◌, ◌/◌, ◌%◌, ◌^◌, ◌≤◌, ◌<◌, ◌≡◌, Bool, true, false, none, some, List,
  [], ◌∷◌, ◌++◌, arith, length, take, le→ltb,
}
use native.Mathlib.Nat.{mod-le, mod-lt, div-add-mod}
use hive_mind_bridge.Pheromones.{Pheromones}
use hive_mind_bridge.Pheromones
use hive_mind_bridge.MessageHandler.Packets.{bytes_of}
use hive_mind_bridge.MessageUtils.{create_bytes_message, request_message}
use hive_mind_bridge.Handle.{OutboundRequestHandle, OutboundRequestState, outbound_request_handle}
use hive_mind_bridge.Bridge.{Bridge, queue_and_send}
use hive_mind_bridge.Bridge.SendBytes.{nb_packets, packet_size}

-- Rounding up: the last packet starts before the end of the payload, and reaches it.
pub ceil_bounds :
    (size m : ℕ)
    → 0 < m
    → 0 < size
    → let n = (size + m - 1) / m in (0 < n) × ((n - 1) * m < size) × (size ≤ n * m)
ceil_bounds size m hm hs =
    go ((size + m - 1) / m) ((size + m - 1) % m) (omega arith)
      (omega (arith, div-add-mod (size + m - 1) m))
  where
    go :
        (n r : ℕ)
        → r < m
        → m * n + r ≡ size + m - 1
        → (0 < n) × ((n - 1) * m < size) × (size ≤ n * m)
    go zero r hr e = absurd (omega arith)
    go (suc n) r hr e =
        (omega arith, let e' : suc n - 1 ≡ n = omega arith in rw e' (omega arith), omega arith)

module _ (P : Pheromones) where
  open P use {
    MessageDto, BytesDto, RequestDto, HiveMindHostApiRequestDto, get_packet_id, payload_max_size,
    get_message, get_request, host_api_request, bytes_dto, get_payload, get_payload_length,
    request_dto, hive_mind_host_api_request_dto,
  }

  -- A request that was not sent yet and holds a packet of stream `id`.
  abbrev pub IsPacket : (id : ℕ) → OutboundRequestHandle P → Type 0
  IsPacket id h =
      (h.state ≡ OutboundRequestState.ready)
      × ((r : RequestDto) × (get_message h.message ≡ Pheromones.MessageBody.request r)
          × ((hm : HiveMindHostApiRequestDto) × (get_request r
                ≡ Pheromones.RequestBody.hive_mind_host_api hm)
              × ((b : BytesDto) × (host_api_request hm
                    ≡ Pheromones.HiveMindHostApiRequestBody.bytes b)
                  × (get_packet_id b ≡ id))))

  -- The packets among queued messages, in their order.
  unfoldable pub queued_bytes : List (OutboundRequestHandle P) → List BytesDto
  queued_bytes [] = []
  queued_bytes (h ∷ hs) =
      let rest = queued_bytes hs in elim (bytes_of P h.message) [ none ↦ rest | some b ↦ b ∷ rest ]

  abbrev pub IsConnected : Bridge P → Type 0
  IsConnected s = s.tcp_server.is_connected ≡ true

  pub queue_and_send-connected :
      (s : Bridge P) (message : MessageDto)
      → IsConnected s
      → queue_and_send P s message ≡ (
        record s { outbound_queue = s.outbound_queue ++ outbound_request_handle P message ∷ [] },
        true,
      )
  unfolding queue_and_send
  queue_and_send-connected s message c = ground arith

  abbrev pub bytes_message : (s d rid id k : ℕ) → Bool → List ℕ → ℕ → MessageDto
  bytes_message s d rid id k l p n = request_message P s d (
      request_dto rid (
        Pheromones.RequestBody.hive_mind_host_api (
          hive_mind_host_api_request_dto
            (Pheromones.HiveMindHostApiRequestBody.bytes (bytes_dto id k l p n)))))

  pub create_bytes_message_lem :
      (s d rid id k : ℕ) (l : Bool) (p : List ℕ) (n : ℕ)
      → n ≤ payload_max_size
      → create_bytes_message P s d rid id k l p n ≡ some (bytes_message s d rid id k l p n)
  unfolding create_bytes_message
  create_bytes_message_lem s d rid id k l p n h = rw (le→ltb payload_max_size n h)

  bytes_of-bytes_message :
      (s d rid id k : ℕ) (l : Bool) (p : List ℕ) (n : ℕ)
      → bytes_of P (bytes_message s d rid id k l p n) ≡ some (bytes_dto id k l p n)
  unfolding bytes_of
  bytes_of-bytes_message s d rid id k l p n =
      rw (P.message_lem, bytes_of)
        (rw (P.request_lem, bytes_of) (rw (P.host_api_request_lem, bytes_of)))

  pub queued_bytes-message :
      (s d rid id k : ℕ) (l : Bool) (p : List ℕ) (n : ℕ) (hs : List (OutboundRequestHandle P))
      → queued_bytes (outbound_request_handle P (bytes_message s d rid id k l p n) ∷ hs)
        ≡ bytes_dto id k l p n ∷ queued_bytes hs
  unfolding queued_bytes
  queued_bytes-message s d rid id k l p n hs =
      rw (bytes_of-bytes_message s d rid id k l p n, queued_bytes)

  -- No packet is too large for a message.
  pub packet_size-le :
      (size k : ℕ) (l : Bool) → 0 < payload_max_size → packet_size P size k l ≤ payload_max_size
  packet_size-le size k true max_pos = omega (
    arith,
    mod-le ((size - k * payload_max_size) % payload_max_size) (2 ^ 8),
    mod-lt (size - k * payload_max_size) max_pos,
  )
  packet_size-le size k false max_pos = mod-le payload_max_size (2 ^ 8)

  -- A packet built from the rest of the payload carries its first `n` bytes.
  pub payload_of :
      (id k : ℕ) (l : Bool) (p : List ℕ) (n : ℕ)
      → n ≤ payload_max_size
      → n ≤ length p
      → take (get_payload_length (bytes_dto id k l p n)) (get_payload (bytes_dto id k l p n))
        ≡ take n p
  payload_of id k l p n fits enough =
      rw (P.payload_length_lem id k l p n fits) (P.payload_lem id k l p n fits enough)

  -- The bytes that the packets carry in all: the last packet has the remainder of its rest of the
  -- payload, and so nothing where the rest is a full packet.
  abbrev pub carried : (payload_size : ℕ) → ℕ
  carried payload_size =
      let last_start = (nb_packets P payload_size - 1) * payload_max_size in
      last_start + (payload_size - last_start) % payload_max_size
