-- ===== src/Bridge/SendBytes.antt =====
-- `HiveMindBridgeImpl::sendBytes`: a payload goes out as numbered packets.
pub mod Messages
pub mod Packets
pub mod RoundTrip
use hive_mind_bridge.Prelude.{
  ℕ, zero, suc, ◌+◌, ◌-◌, ◌*◌, ◌/◌, ◌%◌, ◌^◌, Bool, true, false, Option, none, some, List, [], ◌∷◌,
  ◌==◌, if◌then◌else◌, drop,
}
use hive_mind_bridge.Pheromones.{Pheromones}
use hive_mind_bridge.Effect.{Effect, logged, error}
use hive_mind_bridge.MessageUtils.{create_bytes_message}
use hive_mind_bridge.Bridge.{Bridge, queue_and_send, random_id}

module _ (P : Pheromones) where
  open P use {payload_max_size}

  -- `std::ceil((float)payloadSize / PAYLOAD_MAX_SIZE)`. Numbers of 16 bits are exact in a `float`,
  -- and the rounding of their quotient is too small to pass the next whole number.
  abbrev pub nb_packets : (payload_size : ℕ) → ℕ
  nb_packets payload_size = (payload_size + payload_max_size - 1) / payload_max_size

  -- `packetSize`, a uint8_t
  abbrev pub packet_size : (payload_size packet_number : ℕ) → (is_last_packet : Bool) → ℕ
  packet_size payload_size packet_number is_last_packet =
      if is_last_packet
      then (payload_size - packet_number * payload_max_size) % payload_max_size % 2 ^ 8
      else payload_max_size % 2 ^ 8

module _ (P : Pheromones) (rand : ℕ → ℕ) where
  open P use {payload_max_size}

  -- The loop of `sendBytes` from packet `packet_number`, with `rounds` to go.
  unfoldable pub send_packets :
      (rounds : ℕ)
      → (packet_number : ℕ) → (nb_packets bytes_req_id destination_id payload_size : ℕ)
      → (payload : List ℕ) → Bridge P
      → Bridge P × Bool × List (Effect P)
  send_packets zero packet_number n id destination_id payload_size payload s = (s, true, [])
  send_packets (suc rounds) packet_number n id destination_id payload_size payload s =
      let is_last_packet = packet_number == n - 1 in
      let start = packet_number * payload_max_size % 2 ^ 16 in
      let (s', request_id) = random_id P rand s in
      elim (create_bytes_message P s.swarm_agent_id destination_id request_id id packet_number
        is_last_packet (drop start payload)
        (packet_size P payload_size packet_number is_last_packet)) [
          | none ↦ (s', false, logged error "Bytes message creation failed" ∷ [])
          | some message ↦
              let (s'', queued) = queue_and_send P s' message in
              elim queued [
                | true ↦
                    send_packets rounds (packet_number + 1) n id destination_id payload_size payload
                      s''
                | false ↦ (s'', false, logged error "Sending bytes failed" ∷ [])
              ]
        ]

  unfoldable pub send_bytes :
      Bridge P
      → (destination_id : ℕ) → (payload : List ℕ) → (payload_size : ℕ)
      → Bridge P × Bool × List (Effect P)
  send_bytes s destination_id payload payload_size =
      let n = nb_packets P payload_size in
      let (s', bytes_req_id) = random_id P rand s in
      send_packets n 0 n bytes_req_id destination_id payload_size payload s'
