-- ===== src/HiveMindHostApiRequestHandler/Streams.antt =====
-- One packet of `handleBytes`, and sequences of packets, seen from the accumulator of one stream.
use hive_mind_bridge.Prelude.{
  ℕ, ◌+◌, ◌%◌, ◌^◌, ◌≤◌, ◌≡◌, ◌≢◌, refl, ap, ◌∙◌, Bool, true, false, Option, none, some, List, [],
  ◌∷◌, ◌++◌, arith, lookup, insert, erase, lookup-insert, lookup-erase, lookup-insert_self,
  lookup-erase_self, nat_eq, Dict, ==_refl, length, take,
}
use native.Mathlib.Nat.{le_trans}
use hive_mind_bridge.Pheromones.{Pheromones}
use hive_mind_bridge.Effect.{logged, bytes_received, error}
use hive_mind_bridge.BytesAccumulator.{BytesAccumulator, new_accumulator, append_bytes}
use hive_mind_bridge.BytesAccumulator.Append.{push_bytes-eq-take}
use hive_mind_bridge.HiveMindHostApiRequestHandler.{
  HiveMindHostApiRequestHandler, accumulator, create_accumulator, finish_bytes, accept_bytes,
  handle_bytes,
}

-- The bytes collected so far for a packet id.
abbrev pub stream : HiveMindHostApiRequestHandler → ℕ → BytesAccumulator
stream h id = accumulator id h.bytes_accumulator_map

module _ (id : ℕ) (m : Dict ℕ BytesAccumulator) where
  accumulator-create : accumulator id (create_accumulator id m) ≡ accumulator id m
  unfolding create_accumulator
  accumulator-create = ground (arith, lookup-insert_self id new_accumulator m)

  accumulator-insert : (a : BytesAccumulator) → accumulator id (insert id a m) ≡ a
  accumulator-insert a = ground (arith, lookup-insert_self id a m)

  accumulator-erase : accumulator id (erase id m) ≡ new_accumulator
  accumulator-erase = ground (arith, lookup-erase_self id m)

  module _ (j : ℕ) (other : id ≢ j) where
    lookup-create_ne : lookup j (create_accumulator id m) ≡ lookup j m
    unfolding create_accumulator
    lookup-create_ne = ground (arith, lookup-insert id j new_accumulator m)

    lookup-insert_ne : (a : BytesAccumulator) → lookup j (insert id a m) ≡ lookup j m
    lookup-insert_ne a = ground (arith, lookup-insert id j a m)

    lookup-erase_ne : lookup j (erase id m) ≡ lookup j m
    lookup-erase_ne = ground (arith, lookup-erase id j m)

append_bytes-next :
    (a : BytesAccumulator) (bytes : List ℕ) (n k : ℕ)
    → n ≤ length bytes
    → k ≡ (a.last_packet_number + 1) % 2 ^ 32
    → append_bytes a bytes n k
      ≡ (record { bytes = a.bytes ++ take n bytes; last_packet_number = k }, true)
unfolding append_bytes
append_bytes-next a bytes n k h e = rw (← e, ==_refl k) (rw (push_bytes-eq-take n bytes a.bytes h))

append_bytes-skipped :
    (a : BytesAccumulator) (bytes : List ℕ) (n k : ℕ)
    → ¬ (k ≡ (a.last_packet_number + 1) % 2 ^ 32)
    → append_bytes a bytes n k ≡ (a, false)
unfolding append_bytes
append_bytes-skipped a bytes n k h = ground arith

module _ (P : Pheromones) where
  open P use {
    BytesDto, get_packet_id, get_packet_number, is_last_packet, get_payload, get_payload_length,
  }

  abbrev pub IsNext : HiveMindHostApiRequestHandler → BytesDto → Type 0
  IsNext h b = get_packet_number b ≡ ((stream h (get_packet_id b)).last_packet_number + 1) % 2 ^ 32

  -- The bytes of the packet's stream, with the packet's own at the end.
  abbrev pub extended : HiveMindHostApiRequestHandler → BytesDto → List ℕ
  extended h b = (stream h (get_packet_id b)).bytes ++ take (get_payload_length b) (get_payload b)

  module _ (h : HiveMindHostApiRequestHandler) (b : BytesDto) (callback : ℕ)
      (set : h.bytes_received_callback ≡ some callback) where
    created : HiveMindHostApiRequestHandler
    created = record h {
      bytes_accumulator_map = create_accumulator (get_packet_id b) h.bytes_accumulator_map;
    }

    handle_bytes_lem :
        handle_bytes P h b
        ≡ finish_bytes P created callback b (
            append_bytes
              (stream h (get_packet_id b))
              (get_payload b)
              (get_payload_length b)
              (get_packet_number b))
    unfolding handle_bytes accept_bytes created
    handle_bytes_lem =
        ap (λ c. accept_bytes P c h b) set
        ∙ ap
            (λ a.
              finish_bytes P created callback b
                (append_bytes a (get_payload b) (get_payload_length b) (get_packet_number b)))
            (accumulator-create (get_packet_id b) h.bytes_accumulator_map)

    fits : get_payload_length b ≤ length (get_payload b)
    fits = le_trans (P.payload_length_le b) (P.length_payload_lem b)

    -- A packet in the middle of its stream is added to the stream, and nothing is reported.
    pub handle_bytes-middle :
        IsNext h b
        → is_last_packet b ≡ false
        → let (h', effects) = handle_bytes P h b in
          (effects ≡ [])
          × (stream h' (get_packet_id b)
              ≡ record { bytes = extended h b; last_packet_number = get_packet_number b })
          × (h'.bytes_received_callback ≡ some callback)
    unfolding finish_bytes created
    handle_bytes-middle n l =
        rw (handle_bytes_lem, append_bytes-next (stream h (get_packet_id b)) _ _ _ fits n, l)
          (refl, accumulator-insert _ _ _, set)

    -- The last packet hands the whole stream to the callback, and the stream starts afresh.
    pub handle_bytes-last :
        IsNext h b
        → is_last_packet b ≡ true
        → let (h', effects) = handle_bytes P h b in
          (effects ≡ bytes_received callback (extended h b) (length (extended h b)) ∷ [])
          × (stream h' (get_packet_id b) ≡ new_accumulator)
          × (h'.bytes_received_callback ≡ some callback)
    unfolding finish_bytes created
    handle_bytes-last n l =
        rw (handle_bytes_lem, append_bytes-next (stream h (get_packet_id b)) _ _ _ fits n, l)
          (refl, accumulator-erase _ _, set)

    -- With a callback set, a packet out of order is refused with an error in the log, its stream
    -- stays as it was, and so does the callback.
    pub handle_bytes-skipped :
        ¬ IsNext h b
        → let (h', effects) = handle_bytes P h b in
          (effects ≡ logged error "A packet was skipped." ∷ [])
          × (stream h' (get_packet_id b) ≡ stream h (get_packet_id b))
          × (h'.bytes_received_callback ≡ some callback)
    unfolding finish_bytes created
    handle_bytes-skipped n =
        rw (handle_bytes_lem, append_bytes-skipped (stream h (get_packet_id b)) _ _ _ n)
          (refl, accumulator-insert _ _ _, set)

  finish_bytes-other :
      (h : HiveMindHostApiRequestHandler) (callback : ℕ) (b : BytesDto)
      (r : BytesAccumulator × Bool) (j : ℕ)
      → get_packet_id b ≢ j
      → let h' = (finish_bytes P h callback b r).0 in
        (lookup j h'.bytes_accumulator_map ≡ lookup j h.bytes_accumulator_map)
        × (h'.bytes_received_callback ≡ h.bytes_received_callback)
  unfolding finish_bytes
  finish_bytes-other h callback b (a, success) j other =
      let id = get_packet_id b in
      let m = h.bytes_accumulator_map in
      ground (arith, lookup-insert_ne id m j other a, lookup-erase_ne id (insert id a m) j other)

  -- No packet touches the stream of another packet id, or the callback, whatever becomes of the
  -- packet.
  pub handle_bytes-other :
      (h : HiveMindHostApiRequestHandler) (b : BytesDto) (j : ℕ)
      → get_packet_id b ≢ j
      → let h' = (handle_bytes P h b).0 in
        (lookup j h'.bytes_accumulator_map ≡ lookup j h.bytes_accumulator_map)
        × (h'.bytes_received_callback ≡ h.bytes_received_callback)
  unfolding handle_bytes accept_bytes
  handle_bytes-other h b j other = go h.bytes_received_callback
    where
      m : Dict ℕ BytesAccumulator
      m = create_accumulator (get_packet_id b) h.bytes_accumulator_map

      go :
          (c : Option ℕ)
          → let h' = (accept_bytes P c h b).0 in
            (lookup j h'.bytes_accumulator_map ≡ lookup j h.bytes_accumulator_map)
            × (h'.bytes_received_callback ≡ h.bytes_received_callback)
      go none = (refl, refl)
      go (some callback) =
          let kept =
            finish_bytes-other (record h { bytes_accumulator_map = m }) callback b
              (append_bytes (accumulator (get_packet_id b) m) (get_payload b) (get_payload_length b)
                (get_packet_number b))
              j other in
          (kept.0 ∙ lookup-create_ne (get_packet_id b) h.bytes_accumulator_map j other, kept.1)
