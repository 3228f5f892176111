-- ===== src/HiveMindHostApiRequestHandler/Reassembly.antt =====
-- Payloads come out whole: the packets of one stream, in order, among packets of other streams.
use hive_mind_bridge.Prelude.{
  ℕ, ◌+◌, ◌%◌, ◌^◌, ◌≡◌, ◌≢◌, refl, sym, ap, ◌∙◌, true, false, some, List, [], ◌∷◌, ◌++◌, arith,
  ◌==◌, if◌then◌else◌, ==_refl, ne→==_false, length, take, append_assoc,
}
use hive_mind_bridge.Pheromones.{Pheromones}
use hive_mind_bridge.Effect.{Effect, bytes_received}
use hive_mind_bridge.BytesAccumulator.{new_accumulator}
use hive_mind_bridge.HiveMindHostApiRequestHandler.{HiveMindHostApiRequestHandler, handle_bytes}
use hive_mind_bridge.HiveMindHostApiRequestHandler.Streams.{
  stream, handle_bytes-middle, handle_bytes-last, handle_bytes-other,
}

module _ (P : Pheromones) where
  open P use {
    BytesDto, get_packet_id, get_packet_number, is_last_packet, get_payload, get_payload_length,
  }

  -- The packets are handled one after the other; what the packets of stream `id` do is reported.
  unfoldable pub handle_stream :
      (id : ℕ)
      → HiveMindHostApiRequestHandler
      → List BytesDto
      → HiveMindHostApiRequestHandler × List (Effect P)
  handle_stream id h [] = (h, [])
  handle_stream id h (b ∷ bs) =
      let (h', effects) = handle_bytes P h b in
      let (h'', later) = handle_stream id h' bs in
      (h'', if get_packet_id b == id then effects ++ later else later)

  -- The sequence holds the rest of stream `id` from packet `next` on, in order, and it carries
  -- `payload`; packets of other streams may stand anywhere.
  pub data Carries (id : ℕ) : (next : ℕ) → List BytesDto → (payload : List ℕ) → Type 0 where
    foreign :
        {next : ℕ} {bs : List BytesDto} {payload : List ℕ} (b : BytesDto)
        → get_packet_id b ≢ id
        → Carries id next bs payload
        → Carries id next (b ∷ bs) payload
    middle :
        {next : ℕ} {bs : List BytesDto} {rest : List ℕ} {payload : List ℕ} (b : BytesDto)
        → get_packet_id b ≡ id
        → get_packet_number b ≡ next
        → is_last_packet b ≡ false
        → payload ≡ take (get_payload_length b) (get_payload b) ++ rest
        → Carries id ((next + 1) % 2 ^ 32) bs rest
        → Carries id next (b ∷ bs) payload
    last :
        {next : ℕ} {payload : List ℕ} (b : BytesDto)
        → get_packet_id b ≡ id
        → get_packet_number b ≡ next
        → is_last_packet b ≡ true
        → payload ≡ take (get_payload_length b) (get_payload b)
        → Carries id next (b ∷ []) payload

  module _ (h : HiveMindHostApiRequestHandler) (b : BytesDto) (id callback : ℕ)
      (set : h.bytes_received_callback ≡ some callback) (own : get_packet_id b ≡ id)
      (in_order : get_packet_number b ≡ ((stream h id).last_packet_number + 1) % 2 ^ 32) where
    is_next : get_packet_number b ≡ ((stream h (get_packet_id b)).last_packet_number + 1) % 2 ^ 32
    is_next = rw own in_order

    after_middle :
        is_last_packet b ≡ false
        → let (h', effects) = handle_bytes P h b in
          (effects ≡ [])
          × (stream h' id ≡ record {
            bytes = (stream h id).bytes ++ take (get_payload_length b) (get_payload b);
            last_packet_number = get_packet_number b;
          })
          × (h'.bytes_received_callback ≡ some callback)
    after_middle l = rw (← own) (handle_bytes-middle P h b callback set is_next l)

    after_last :
        is_last_packet b ≡ true
        → let whole = (stream h id).bytes ++ take (get_payload_length b) (get_payload b) in
          let (h', effects) = handle_bytes P h b in
          (effects ≡ bytes_received callback whole (length whole) ∷ [])
          × (stream h' id ≡ new_accumulator)
          × (h'.bytes_received_callback ≡ some callback)
    after_last l = rw (← own) (handle_bytes-last P h b callback set is_next l)

  pub handle_stream-Carries :
      (id callback : ℕ) {next : ℕ} {bs : List BytesDto} {payload : List ℕ}
      (h : HiveMindHostApiRequestHandler)
      → h.bytes_received_callback ≡ some callback
      → next ≡ ((stream h id).last_packet_number + 1) % 2 ^ 32
      → Carries id next bs payload
      → let whole = (stream h id).bytes ++ payload in
        let (h', effects) = handle_stream id h bs in
        (effects ≡ bytes_received callback whole (length whole) ∷ [])
        × (stream h' id ≡ new_accumulator)
  unfolding handle_stream
  handle_stream-Carries id callback {payload} h set n (foreign {bs} b other c) =
      let kept = handle_bytes-other P h b id other in
      let same : stream (handle_bytes P h b).0 id ≡ stream h id = ground (arith, kept.0) in
      let r =
        handle_stream-Carries id callback (handle_bytes P h b).0 (kept.1 ∙ set) (rw same n) c in
      rw (ne→==_false (get_packet_id b) id other) (rw (r.0, same), r.1)
  handle_stream-Carries id callback {payload} h set n (middle {bs} {rest} b own k l p c) =
      let (quiet, grown, set') = after_middle h b id callback set own (k ∙ n) l in
      let r =
        handle_stream-Carries id callback (handle_bytes P h b).0 set'
          (rw grown (ap (λ t. (t + 1) % 2 ^ 32) (sym k))) c in
      rw (own, ==_refl id, quiet)
        (
          rw (r.0, grown, p)
              (rw (
                append_assoc (stream h id).bytes (take (get_payload_length b) (get_payload b))
                  rest)),
          r.1,
        )
  handle_stream-Carries id callback h set n (last b own k l p) =
      let (reported, fresh, set') = after_last h b id callback set own (k ∙ n) l in
      rw (own, ==_refl id, reported, p) (refl, fresh)

  -- With a callback set and a stream that is fresh, a payload whose packets all arrive, in order
  -- and among any packets of other streams, is handed to the callback once, whole and with its
  -- length, when its last packet is in; the stream is then fresh again.
  pub handle_stream_delivers :
      (id callback : ℕ) {bs : List BytesDto} {payload : List ℕ} (h : HiveMindHostApiRequestHandler)
      → h.bytes_received_callback ≡ some callback
      → stream h id ≡ new_accumulator
      → Carries id 0 bs payload
      → let (h', effects) = handle_stream id h bs in
        (effects ≡ bytes_received callback payload (length payload) ∷ [])
        × (stream h' id ≡ new_accumulator)
  handle_stream_delivers id callback {payload} h set fresh c =
      let r = handle_stream-Carries id callback h set (rw fresh refl) c in
      (rw r.0 (rw fresh refl), r.1)
