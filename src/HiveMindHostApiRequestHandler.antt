-- ===== src/HiveMindHostApiRequestHandler.antt =====
-- src/HiveMindHostApiRequestHandler.cpp: payloads of bytes arrive in numbered packets; the user's
-- callback gets each payload when its last packet is in.
pub mod Silent
pub mod Streams
pub mod Reassembly
use hive_mind_bridge.Prelude.{
  ℕ, String, Bool, not, Option, none, some, List, [], ◌∷◌, Dict, lookup, insert, erase,
  if◌then◌else◌, length, nat_eq, is_set,
}
use hive_mind_bridge.Pheromones.{Pheromones}
use hive_mind_bridge.Pheromones
use hive_mind_bridge.Effect.{Effect, logged, bytes_received, warn, error}
use hive_mind_bridge.BytesAccumulator.{BytesAccumulator, new_accumulator, append_bytes, get_bytes}

pub record HiveMindHostApiRequestHandler : Type 0 where
  pub bytes_accumulator_map : Dict ℕ BytesAccumulator
  -- an empty `std::function` is `none`
  pub bytes_received_callback : Option ℕ

abbrev pub new_request_handler : HiveMindHostApiRequestHandler
new_request_handler = record { bytes_accumulator_map = []; bytes_received_callback = none }

unfoldable pub on_bytes_received :
    HiveMindHostApiRequestHandler → (callback : Option ℕ) → HiveMindHostApiRequestHandler × Bool
on_bytes_received h callback =
    (record h { bytes_received_callback = callback }, is_set h.bytes_received_callback)

-- `emplace`, for an id that is new
create_accumulator : ℕ → Dict ℕ BytesAccumulator → Dict ℕ BytesAccumulator
create_accumulator id accumulators =
    if is_set (lookup id accumulators) then accumulators else insert id new_accumulator accumulators

-- `m_bytesAccumulatorMap[id]`, which makes an entry where there is none
abbrev pub accumulator : ℕ → Dict ℕ BytesAccumulator → BytesAccumulator
accumulator id accumulators = elim (lookup id accumulators) [ none ↦ new_accumulator | some a ↦ a ]

module _ (P : Pheromones) where
  open P use {
    MessageDto, HiveMindHostApiRequestDto, BytesDto, host_api_request, get_packet_id,
    get_packet_number, is_last_packet, get_payload, get_payload_length,
  }

  -- The end of `handleBytes`, after `appendBytes`.
  finish_bytes :
      HiveMindHostApiRequestHandler
      → (callback : ℕ) → BytesDto
      → BytesAccumulator × Bool
      → HiveMindHostApiRequestHandler × List (Effect P)
  finish_bytes h callback b (a, success) =
      let id = get_packet_id b in
      let stored = insert id a h.bytes_accumulator_map in
      if not success
      then (record h { bytes_accumulator_map = stored }, logged error "A packet was skipped." ∷ [])
      else if is_last_packet b
      then (
        record h { bytes_accumulator_map = erase id stored },
        bytes_received callback (get_bytes a) (length (get_bytes a)) ∷ [],
      )
      else (record h { bytes_accumulator_map = stored }, [])

  -- `handleBytes` behind its test of the callback
  accept_bytes :
      Option ℕ
      → HiveMindHostApiRequestHandler
      → BytesDto
      → HiveMindHostApiRequestHandler × List (Effect P)
  unfolding finish_bytes create_accumulator append_bytes
  accept_bytes none h b = (h, logged warn "No callback was defined to handle incoming bytes." ∷ [])
  accept_bytes (some callback) h b =
      let id = get_packet_id b in
      let created = create_accumulator id h.bytes_accumulator_map in
      finish_bytes (record h { bytes_accumulator_map = created }) callback b
        (append_bytes (accumulator id created) (get_payload b) (get_payload_length b)
          (get_packet_number b))

  unfoldable pub handle_bytes :
      HiveMindHostApiRequestHandler → BytesDto → HiveMindHostApiRequestHandler × List (Effect P)
  unfolding accept_bytes
  handle_bytes h b = accept_bytes h.bytes_received_callback h b

  unfoldable pub handle_message :
      HiveMindHostApiRequestHandler
      → MessageDto
      → HiveMindHostApiRequestDto
      → HiveMindHostApiRequestHandler × List (Effect P)
  handle_message h message request = elim (host_api_request request) [
    | Pheromones.HiveMindHostApiRequestBody.bytes b ↦ handle_bytes h b
    | _ ↦ (h, logged warn "Unsupported HiveMindHostApi request." ∷ [])
  ]
