-- ===== src/Bridge/System/Delivery.antt =====
-- A payload whose packets are handled in a run reaches the callback for bytes.
use hive_mind_bridge.Prelude.{
  ℕ, ◌≡◌, refl, sym, ap, ◌∙◌, ◌⊎◌, some, Bool-cases, inl, inr, List, [], ◌∷◌, ◌++◌, append_assoc,
  map, length, ◌==◌, nat_eq,
}
use hive_mind_bridge.Pheromones.{Pheromones}
use hive_mind_bridge.Effect.{Effect, bytes_received}
use hive_mind_bridge.Effect.Calls.{delivered, delivered-append}
use hive_mind_bridge.BytesAccumulator.{new_accumulator}
use hive_mind_bridge.HiveMindHostApiRequestHandler.{HiveMindHostApiRequestHandler, handle_bytes}
use hive_mind_bridge.HiveMindHostApiRequestHandler.Streams.{stream}
use hive_mind_bridge.HiveMindHostApiRequestHandler.Reassembly.{
  Carries, handle_stream, handle_stream_delivers,
}
use hive_mind_bridge.Bridge.{Bridge}
use hive_mind_bridge.Bridge.System.{Run}
use hive_mind_bridge.Bridge.System.Invariant.{IsSound}
use hive_mind_bridge.Bridge.System.Payloads.{
  Input, collect_all-append, packet, collect, collect_all, all_inputs, Run-Collects,
}

module _ (P : Pheromones) where
  open P use {BytesDto, get_packet_id}

  -- The call is among the calls.
  abbrev pub Contains : List (Effect P) → Effect P → Type 0
  Contains calls call =
      (before : List (Effect P)) × (after : List (Effect P)) × (calls ≡ before ++ call ∷ after)

  Contains-append :
      (es fs : List (Effect P)) (call : Effect P) → Contains fs call → Contains (es ++ fs) call
  Contains-append es fs call (before, after, e) =
      (es ++ before, after, ap (λ x. es ++ x) e ∙ sym (append_assoc es before (call ∷ after)))

  append-Contains :
      (es fs : List (Effect P)) (call : Effect P) → Contains es call → Contains (es ++ fs) call
  append-Contains es fs call (before, after, e) =
      (before, after ++ fs, ap (λ x. x ++ fs) e ∙ append_assoc before (call ∷ after) fs)

  found_first :
      (es fs : List (Effect P)) (c : ℕ) (payload : List ℕ) (n : ℕ)
      → es ++ fs ≡ bytes_received c payload n ∷ []
      → (es ≡ []) ⊎ Contains (delivered P es) (bytes_received c payload n)
  unfolding delivered
  found_first [] fs c payload n e = inl refl
  found_first (x ∷ es) fs c payload n e =
      let same : x ≡ bytes_received c payload n = cc in inr ([], delivered P es, rw same refl)

  collect_stream-handler :
      (id : ℕ) (h : HiveMindHostApiRequestHandler) (bs : List BytesDto)
      → (collect_all P h (map packet bs)).0 ≡ (handle_stream P id h bs).0
  unfolding collect_all collect handle_stream
  collect_stream-handler id h [] = refl
  collect_stream-handler id h (b ∷ bs) = collect_stream-handler id (handle_bytes P h b).0 bs

  -- What a stream reports is among what all packets report.
  collect_stream-effects :
      (id c : ℕ) (payload : List ℕ) (n : ℕ) (h : HiveMindHostApiRequestHandler) (bs : List BytesDto)
      → (handle_stream P id h bs).1 ≡ bytes_received c payload n ∷ []
      → Contains (delivered P (collect_all P h (map packet bs)).1) (bytes_received c payload n)
  unfolding collect_all collect handle_stream
  collect_stream-effects id c payload n h [] e = cc
  collect_stream-effects id c payload n h (b ∷ bs) e =
      let h' = (handle_bytes P h b).0 in
      let es = (handle_bytes P h b).1 in
      let later = (collect_all P h' (map packet bs)).1 in
      let rest = (handle_stream P id h' bs).1 in
      let earlier : rest ≡ bytes_received c payload n ∷ []
          → Contains (delivered P es ++ delivered P later) (bytes_received c payload n) =
        λ k.
          Contains-append (delivered P es) (delivered P later) (bytes_received c payload n)
            (collect_stream-effects id c payload n h' bs k) in
      rw (delivered-append P es later) (elim (Bool-cases (get_packet_id b == id)) [
        | inr other ↦ earlier (rw other at e)
        | inl own ↦ elim (found_first es rest c payload n (rw own at e)) [
          | inl none_yet ↦ earlier (rw (own, none_yet) at e)
          | inr found ↦
              append-Contains (delivered P es) (delivered P later) (bytes_received c payload n)
                found
        ]
      ])

  module _ (rand : ℕ → ℕ) {s u : Bridge P} {effects : List (Effect P)}
      (r : Run P rand s effects u) where
    -- In a run of a sound bridge, whatever is handled and set before and after: if then a callback is
    -- set and no payload of stream `id` begun, and the packets that are handled next carry a payload
    -- in stream `id`, in order and among any packets of other streams, then that callback is called
    -- with the payload, whole and with its length, and with these packets the stream is fresh again.
    pub run_delivers :
        (id callback : ℕ) (before after : List (Input P)) {bs : List BytesDto} {payload : List ℕ}
        → let h = (collect_all P s.handlers.request_handler before).0 in
          IsSound P s
          → h.bytes_received_callback ≡ some callback
          → stream h id ≡ new_accumulator
          → all_inputs P rand r ≡ before ++ (map packet bs ++ after)
          → Carries P id 0 bs payload
          → Contains (delivered P effects) (bytes_received callback payload (length payload))
            × (stream (collect_all P h (map packet bs)).0 id ≡ new_accumulator)
    run_delivers id callback before after {bs} {payload} sound set fresh handled carries =
        let h = (collect_all P s.handlers.request_handler before).0 in
        let earlier = (collect_all P s.handlers.request_handler before).1 in
        let now = (collect_all P h (map packet bs)).1 in
        let later = (collect_all P (collect_all P h (map packet bs)).0 after).1 in
        let call = bytes_received callback payload (length payload) in
        let (reported, done) = handle_stream_delivers P id callback h set fresh carries in
        (
          rw
              (
                (Run-Collects P rand r sound).1,
                handled,
                collect_all-append P s.handlers.request_handler before (map packet bs ++ after),
                collect_all-append P h (map packet bs) after,
                delivered-append P earlier (now ++ later),
                delivered-append P now later,
              )
              (Contains-append (delivered P earlier) (delivered P now ++ delivered P later) call (
                append-Contains (delivered P now) (delivered P later) call
                  (collect_stream-effects id callback payload (length payload) h bs reported))),
          ap (λ x. stream x id) (collect_stream-handler id h bs) ∙ done,
        )
