-- ===== src/HiveMindBridge/Answers.antt =====
-- What the methods of include/hivemind-bridge/IHiveMindBridge.h return.
use hive_mind_bridge.Prelude.{
  ℕ, zero, suc, ◌+◌, ◌-◌, ◌*◌, ◌/◌, ◌%◌, ◌^◌, ◌<◌, ◌≡◌, refl, sym, ap, ◌∙◌, Bool, true, Bool-cases,
  inl, inr, String, Option, none, some, List, [], value, is_set, arith, ◌==◌, drop, Access,
  undefined_behaviour, uncaught_exception, ◌>>=◌, string_eq,
}
use hive_mind_bridge.Pheromones.{Pheromones}
use hive_mind_bridge.Effect.{Effect}
use hive_mind_bridge.UserCallbackMap.{
  get_callback, register_callback, register_callback_without_manifest,
}
use hive_mind_bridge.HiveMindHostApiRequestHandler
use hive_mind_bridge.HiveMindHostApiResponseHandler
use hive_mind_bridge.Bridge
use hive_mind_bridge.Bridge.{Bridge, random_id}
use hive_mind_bridge.Bridge.Requests
use hive_mind_bridge.Bridge.Spin.{Connection, spin}
use hive_mind_bridge.Callback.{CallbackFunction, CallbackArgsManifest}
use native.Mathlib.Nat.{div-add-mod}
use hive_mind_bridge.Bridge.SendBytes.{send_packets, send_bytes, packet_size, nb_packets}
use hive_mind_bridge.Bridge.SendBytes.Messages.{
  create_bytes_message_lem, packet_size-le, queue_and_send-connected, bytes_message,
}
use hive_mind_bridge.Bridge.SendBytes.RoundTrip.{send_bytes_disconnected}
use hive_mind_bridge.Bridge.System.Silent.{queue_and_send-server}
use hive_mind_bridge.HiveMindBridge.Interface.{Call, perform}

module _ (P : Pheromones) where
  -- What the methods are to answer, read off the documentation of the interface: whether a callback
  -- was overwritten, or whether the sending succeeded, for which a client has to be there.
  unfoldable pub promised : Bridge P → Call P → Option Bool
  promised s (Call.on_bytes_received callback) =
      some (is_set s.handlers.request_handler.bytes_received_callback)
  promised s (Call.on_neighbor_list_updated callback) =
      some (is_set s.handlers.response_handler.neighbor_list_update_callback)
  promised s (Call.on_neighbor_updated callback) =
      some (is_set s.handlers.response_handler.neighbor_update_callback)
  promised s (Call.register_custom_action name callback manifest) =
      some (is_set (get_callback P s.handlers.callback_map name))
  promised s (Call.register_custom_action_without_manifest name callback) =
      some (is_set (get_callback P s.handlers.callback_map name))
  promised s (Call.queue_and_send message) = some s.tcp_server.is_connected
  promised s (Call.send_bytes destination_id payload payload_size) =
      some (elim payload_size [ zero ↦ true | suc n ↦ s.tcp_server.is_connected ])
  promised s (Call.send_neighbor_update_request neighbor_id) = some s.tcp_server.is_connected
  promised s (Call.send_neighbor_list_update_request) = some s.tcp_server.is_connected
  promised s _ = none

module _ (P : Pheromones) (rand : ℕ → ℕ) where
  open P use {payload_max_size}

  send_packets-connected :
      (rounds k n id dest size : ℕ) (payload : List ℕ) (t : Bridge P)
      → 0 < payload_max_size
      → t.tcp_server.is_connected ≡ true
      → (send_packets P rand rounds k n id dest size payload t).1 ≡ true
  unfolding send_packets random_id
  send_packets-connected zero k n id dest size payload t max_pos up = refl
  send_packets-connected (suc rounds) k n id dest size payload t max_pos up =
      let last = k == n - 1 in
      let t' = (random_id P rand t).0 in
      let rest = drop (k * payload_max_size % 2 ^ 16) payload in
      let m =
        bytes_message P t.swarm_agent_id dest (random_id P rand t).1 id k last rest
          (packet_size P size k last) in
      let u = (Bridge.queue_and_send P t' m).0 in
      rw
        (
          create_bytes_message_lem P t.swarm_agent_id dest (random_id P rand t).1 id k last rest
              (packet_size P size k last) (packet_size-le P size k last max_pos),
          send_packets,
        )
        (rw (ap (λ x. x.1) (queue_and_send-connected P t' m up), send_packets)
          (send_packets-connected rounds (k + 1) n id dest size payload u max_pos
            (ap (λ x. x.is_connected) (queue_and_send-server P t' m) ∙ up)))

  send_bytes-answer :
      (s : Bridge P) (dest : ℕ) (payload : List ℕ) (size : ℕ)
      → 0 < payload_max_size
      → 0 < size
      → (send_bytes P rand s dest payload size).1 ≡ s.tcp_server.is_connected
  unfolding send_bytes random_id
  send_bytes-answer s dest payload size max_pos size_pos =
      elim (Bool-cases s.tcp_server.is_connected) [
        | inl up ↦
            send_packets-connected (nb_packets P size) 0 (nb_packets P size) (random_id P rand s).1
              dest size payload (random_id P rand s).0 max_pos up
            ∙ sym up
        | inr down ↦
            (send_bytes_disconnected P rand s dest payload size max_pos size_pos down).0 ∙ sym down
      ]

  abbrev IsPromised : Bridge P → Call P → Bridge P × Option Bool × List (Effect P) → Type 0
  IsPromised s c (s', answer, effects) = answer ≡ promised P s c

  queue_and_send-answer :
      (s : Bridge P) (message : P.MessageDto)
      → (Bridge.queue_and_send P s message).1 ≡ s.tcp_server.is_connected
  unfolding Bridge.queue_and_send
  queue_and_send-answer s message = ground arith

  -- An empty payload has no packet.
  nb_packets-zero : 0 < payload_max_size → nb_packets P 0 ≡ 0
  nb_packets-zero max_pos =
      go ((0 + payload_max_size - 1) / payload_max_size)
        (omega (arith, div-add-mod (0 + payload_max_size - 1) payload_max_size))
    where
      go : (q : ℕ) → payload_max_size * q < payload_max_size → q ≡ 0
      go zero h = refl
      go (suc q) h = absurd (omega arith)

  send_bytes-promised :
      (s : Bridge P) (dest : ℕ) (payload : List ℕ) (size : ℕ)
      → 0 < payload_max_size
      → (send_bytes P rand s dest payload size).1
        ≡ elim size [ zero ↦ true | suc n ↦ s.tcp_server.is_connected ]
  unfolding send_bytes send_packets
  send_bytes-promised s dest payload zero max_pos = rw (nb_packets-zero max_pos, send_packets) refl
  send_bytes-promised s dest payload (suc size) max_pos =
      send_bytes-answer s dest payload (suc size) max_pos (omega arith)

  register-promised :
      (s : Bridge P) (name : String) (f : CallbackFunction P) (a : CallbackArgsManifest P)
      → (Requests.register_custom_action P s name f a).1
        ≡ is_set (get_callback P s.handlers.callback_map name)
  unfolding Requests.register_custom_action register_callback get_callback
  register-promised s name f a = ground arith

  -- If the method returns, its answer is the promised one.
  abbrev Keeps : Bridge P → Call P → Access (Bridge P × Option Bool × List (Effect P)) → Type 0
  Keeps s c (value x) = IsPromised s c x
  Keeps s c undefined_behaviour = Unit
  Keeps s c uncaught_exception = Unit

  spin-promised :
      (s : Bridge P) (k : Connection P) → Keeps s (Call.spin k) (perform P rand s (Call.spin k))
  unfolding promised perform
  spin-promised s k = go (spin P rand s k)
    where
      go :
          (a : Access (Bridge P × List (Effect P)))
          → Keeps s (Call.spin k) (a >>= λ x. value (x.0, none, x.1))
      go (value x) = refl
      go undefined_behaviour = tt
      go uncaught_exception = tt

  -- With a packet size that is positive, a method that returns answers whether a callback of the kind
  -- was set before, or a function of that name registered before; or, where a message or a payload that
  -- is not empty is to be sent, whether there is a client. An empty payload is sent without one, and a
  -- method without a result answers nothing.
  pub perform-IsPromised :
      (s u : Bridge P) (c : Call P) (answer : Option Bool) (effects : List (Effect P))
      → 0 < payload_max_size
      → perform P rand s c ≡ value (u, answer, effects)
      → answer ≡ promised P s c
  unfolding promised perform Requests.on_bytes_received Requests.on_neighbor_list_updated
      Requests.on_neighbor_updated Requests.register_custom_action_without_manifest
      Requests.register_custom_action register_callback_without_manifest
      Requests.send_neighbor_update_request Requests.send_neighbor_list_update_request
      Requests.send_host_api_request random_id HiveMindHostApiRequestHandler.on_bytes_received
      HiveMindHostApiResponseHandler.on_neighbor_list_updated
      HiveMindHostApiResponseHandler.on_neighbor_updated
  perform-IsPromised s u c answer effects max_pos e = rw e at (go c)
    where
      go : (c : Call P) → Keeps s c (perform P rand s c)
      go (Call.spin k) = spin-promised s k
      go (Call.on_connect hook) = refl
      go (Call.on_disconnect hook) = refl
      go (Call.on_bytes_received callback) = refl
      go (Call.on_neighbor_list_updated callback) = refl
      go (Call.on_neighbor_updated callback) = refl
      go (Call.register_custom_action name f a) = ap some (register-promised s name f a)
      go (Call.register_custom_action_without_manifest name f) =
          ap some (register-promised s name f [])
      go (Call.queue_and_send message) = ap some (queue_and_send-answer s message)
      go (Call.send_bytes dest payload size) =
          ap some (send_bytes-promised s dest payload size max_pos)
      go (Call.send_neighbor_update_request id) = ap some (queue_and_send-answer _ _)
      go (Call.send_neighbor_list_update_request) = ap some (queue_and_send-answer _ _)
