-- ===== src/Bridge/System/Passes.antt =====
-- `spin` and `sendBytes` are runs of the steps: what holds of every run holds however their steps
-- interleave with those of the other threads.
use hive_mind_bridge.Prelude.{
  ℕ, zero, suc, ◌+◌, ◌-◌, ◌*◌, ◌%◌, ◌^◌, if◌then◌else◌, ◌≡◌, refl, ap, subst, Bool, true, false,
  Bool-cases, inl, inr, Option, none, some, List, [], ◌∷◌, append-nil, value, Access,
  undefined_behaviour, uncaught_exception, Outcome, ◌>>=◌, ◌==◌, drop,
}
use hive_mind_bridge.Pheromones.{Pheromones}
use hive_mind_bridge.Effect.{Effect, logged, error}
use hive_mind_bridge.MessageUtils.{create_bytes_message}
use hive_mind_bridge.MessageHandler.Total.{IsPastEnd}
use hive_mind_bridge.Bridge.{Bridge, queue_and_send, random_id, is_tcp_client_connected}
use hive_mind_bridge.Bridge.SendBytes.{send_packets, send_bytes, packet_size, nb_packets}
use hive_mind_bridge.Bridge.Spin.{
  Connection, handle_front, spin_connected, spin_disconnected, keep_alive, spin,
}
use hive_mind_bridge.Bridge.System.{
  Step, connects, handles, sweeps, keeps_alive, draws, queues, reports, Run, here, next,
}
use hive_mind_bridge.Bridge.System.Invariant.{IsSound}
use hive_mind_bridge.Bridge.System.Reach.{handle_front-Outcome}

module _ (P : Pheromones) (rand : ℕ → ℕ) where
  abbrev pub AsksPastEnd : Bridge P → Type 0
  AsksPastEnd s =
      (message : P.MessageDto) × (rest : List P.MessageDto) × (s.inbound_queue ≡ message ∷ rest)
      × IsPastEnd P s.handlers message

  abbrev Passes : Bridge P → Bridge P × List (Effect P) → Type 0
  Passes s (s', effects) = Run P rand s effects s'

  -- A step that sends nothing, after a run.
  quiet :
      {s t u : Bridge P} {effects : List (Effect P)}
      → Run P rand s effects t
      → Step P rand t [] u
      → Run P rand s effects u
  quiet {s} {t} {u} {effects} r st =
      subst (λ es. Run P rand s es u) (append-nil effects) (next r st)

  spin_connected-Run :
      (s : Bridge P) → IsSound P s → Outcome (Passes s) (AsksPastEnd s) (spin_connected P rand s)
  unfolding spin_connected
  spin_connected-Run s h = go (handle_front P s) refl (handle_front-Outcome P s h)
    where
      go :
          (a : Access (Bridge P × List (Effect P)))
          → handle_front P s ≡ a
          → Outcome (λ x. IsSound P x.0) (AsksPastEnd s) a
          → Outcome (Passes s) (AsksPastEnd s) (spin_connected P rand s)
      go (value (t, es)) e k = rw (e, spin_connected) (next (next here (handles s e)) (sweeps t))
      go undefined_behaviour e k = rw (e, spin_connected) k
      go uncaught_exception e k = absurd k

  spin-up :
      (s : Bridge P) (c : Connection P)
      → s.tcp_server.is_connected ≡ true
      → spin P rand s c ≡ (spin_connected P rand s >>= λ x. value (keep_alive P x.0, x.1))
  unfolding spin is_tcp_client_connected
  spin-up s c up =
      ap
        (λ b. (if b then spin_connected P rand s else value (spin_disconnected P s c)) >>= λ x.
          value (keep_alive P x.0, x.1))
        up

  spin-down :
      (s : Bridge P) (c : Connection P)
      → s.tcp_server.is_connected ≡ false
      → spin P rand s c
        ≡ value (keep_alive P (spin_disconnected P s c).0, (spin_disconnected P s c).1)
  unfolding spin is_tcp_client_connected
  spin-down s c down =
      ap
        (λ b. (if b then spin_connected P rand s else value (spin_disconnected P s c)) >>= λ x.
          value (keep_alive P x.0, x.1))
        down

  -- A spin of a sound bridge is a run of the steps, unless it handles a request that asks for the
  -- description at the length; no exception escapes.
  pub spin-Run :
      (s : Bridge P) (c : Connection P)
      → IsSound P s
      → Outcome
          (λ (s', effects). Run P rand s effects s')
          ((message : P.MessageDto) × (rest : List P.MessageDto) × (s.inbound_queue
              ≡ message ∷ rest)
            × IsPastEnd P s.handlers message)
          (spin P rand s c)
  spin-Run s c h = elim (Bool-cases s.tcp_server.is_connected) [
    | inr down ↦ rw (spin-down s c down) (quiet (next here (connects s c down)) (keeps_alive _))
    | inl up ↦ rw (spin-up s c up) (go (spin_connected P rand s) (spin_connected-Run s h))
  ]
    where
      go :
          (a : Access (Bridge P × List (Effect P)))
          → Outcome (Passes s) (AsksPastEnd s) a
          → Outcome (Passes s) (AsksPastEnd s) (a >>= λ x. value (keep_alive P x.0, x.1))
      go (value (t, es)) k = quiet k (keeps_alive t)
      go undefined_behaviour k = k
      go uncaught_exception k = k

  send_packets-Run :
      (rounds k n id dest size : ℕ) (payload : List ℕ) (s t : Bridge P)
      → Run P rand s [] t
      → let (u, success, effects) = send_packets P rand rounds k n id dest size payload t in
        Run P rand s effects u
  unfolding send_packets random_id
  send_packets-Run zero k n id dest size payload s t r = r
  send_packets-Run (suc rounds) k n id dest size payload s t r =
      created
        (create_bytes_message P t.swarm_agent_id dest (random_id P rand t).1 id k last
          (drop (k * P.payload_max_size % 2 ^ 16) payload) (packet_size P size k last))
        refl (λ u run. send_packets-Run rounds (k + 1) n id dest size payload s u run)
    where
      Rest : Type 0
      Rest =
          (u : Bridge P)
          → Run P rand s [] u
          → Run P rand s (send_packets P rand rounds (k + 1) n id dest size payload u).2
              (send_packets P rand rounds (k + 1) n id dest size payload u).0

      last : Bool
      last = k == n - 1

      drawn : Bridge P
      drawn = (random_id P rand t).0

      after_draw : Run P rand s [] drawn
      after_draw = next r (draws t)

      queued :
          (m : P.MessageDto) (q : Bridge P × Bool)
          → queue_and_send P drawn m ≡ q
          → Run P rand s [] q.0
      queued m q e =
          subst (λ u. Run P rand s [] u) (ap (λ x. x.0) e) (next after_draw (queues drawn m))

      sent :
          (m : P.MessageDto) (q : Bridge P × Bool)
          → queue_and_send P drawn m ≡ q
          → Rest
          → let (u, success, effects) = elim q.1 as (λ x. Bridge P × Bool × List (Effect P)) [
            | true ↦ send_packets P rand rounds (k + 1) n id dest size payload q.0
            | false ↦ (q.0, false, logged error "Sending bytes failed" ∷ [])
          ] in
            Run P rand s effects u
      sent m (u, true) e rest = rest u (queued m (u, true) e)
      sent m (u, false) e rest =
          next (queued m (u, false) e) (reports u error "Sending bytes failed")

      created :
          (o : Option P.MessageDto)
          → create_bytes_message P t.swarm_agent_id dest
              (random_id P rand t).1
              id
              k
              last
              (drop (k * P.payload_max_size % 2 ^ 16) payload)
              (packet_size P size k last)
            ≡ o
          → Rest
          → let (u, success, effects) =
              send_packets P rand (suc rounds) k n id dest size payload t in
            Run P rand s effects u
      created none e rest =
          rw (e, send_packets)
            (next after_draw (reports drawn error "Bytes message creation failed"))
      created (some m) e rest = rw (e, send_packets) (sent m (queue_and_send P drawn m) refl rest)

  -- `sendBytes` is a run of the steps, in which each packet draws an id and is queued.
  pub send_bytes-Run :
      (s : Bridge P) (destination_id : ℕ) (payload : List ℕ) (size : ℕ)
      → let (s', success, effects) = send_bytes P rand s destination_id payload size in
        Run P rand s effects s'
  unfolding send_bytes random_id
  send_bytes-Run s destination_id payload size =
      send_packets-Run (nb_packets P size) 0 (nb_packets P size) (random_id P rand s).1
        destination_id size payload s (random_id P rand s).0 (next here (draws s))
