-- ===== src/Bridge/Spin/KeepAlive.antt =====
-- The greetings that keep the connection alive, over many calls of `spin`.
use hive_mind_bridge.Prelude.{
  ℕ, zero, suc, ◌+◌, ◌-◌, ◌^◌, ◌<◌, ◌≡◌, refl, sym, ap, ◌∙◌, true, append_assoc, append-nil, ◌*◌,
  replicate, List, [], ◌∷◌, ◌++◌, arith, nat_eq, Access, value, ◌>>=◌, if◌then◌else◌,
}
use hive_mind_bridge.Pheromones.{Pheromones}
use hive_mind_bridge.MessageUtils.{create_greet_message}
use hive_mind_bridge.Handle.{InboundRequestHandle, OutboundRequestHandle, outbound_request_handle}
use hive_mind_bridge.Bridge.{Bridge, is_tcp_client_connected}
use hive_mind_bridge.Effect.{Effect}
use hive_mind_bridge.Bridge.Spin.{
  Connection, keep_alive, spin, spin_connected, spin_disconnected, sweep,
}
use hive_mind_bridge.Bridge.Spin.Inbound.{handle_front-empty}

module _ (P : Pheromones) where
  keep_alive_times : ℕ → Bridge P → Bridge P
  keep_alive_times zero s = s
  keep_alive_times (suc k) s = keep_alive_times k (keep_alive P s)

  keep_alive_times-add :
      (a b : ℕ) (s : Bridge P)
      → keep_alive_times (a + b) s ≡ keep_alive_times b (keep_alive_times a s)
  unfolding keep_alive_times
  keep_alive_times-add zero b s = ap (λ t. keep_alive_times t s) base
    where
      base : 0 + b ≡ b
      base = omega arith
  keep_alive_times-add (suc a) b s =
      ap (λ t. keep_alive_times t s) move ∙ keep_alive_times-add a b (keep_alive P s)
    where
      move : suc a + b ≡ suc (a + b)
      move = omega arith

  module _ (n : ℕ) (pos : 0 < n) (small : n < 2 ^ 32 - 1) where
    keep_alive-quiet :
        (s : Bridge P)
        → s.keep_alive_nb_spin ≡ n
        → s.keep_alive_counter < n
        → keep_alive P s ≡ record s { keep_alive_counter = s.keep_alive_counter + 1 }
    unfolding keep_alive
    keep_alive-quiet s e h = ground arith

    keep_alive-due :
        (s : Bridge P)
        → s.keep_alive_nb_spin ≡ n
        → s.keep_alive_counter ≡ n
        → s.tcp_server.is_connected ≡ true
        → keep_alive P s ≡ record s {
          keep_alive_counter = 1;
          outbound_queue =
              s.outbound_queue ++ outbound_request_handle P (create_greet_message P) ∷ [];
        }
    unfolding keep_alive
    keep_alive-due s e h c = ground arith

    abbrev greeting : OutboundRequestHandle P
    greeting = outbound_request_handle P (create_greet_message P)

    abbrev after : Bridge P → (counter : ℕ) → List (OutboundRequestHandle P) → Bridge P
    after s counter new = record s {
      keep_alive_counter = counter;
      outbound_queue = s.outbound_queue ++ new;
    }

    keep_alive_times-due :
        (k : ℕ) (s : Bridge P)
        → s.keep_alive_nb_spin ≡ n
        → s.tcp_server.is_connected ≡ true
        → s.keep_alive_counter + k ≡ n
        → keep_alive_times (suc k) s ≡ after s 1 (greeting ∷ [])
    unfolding keep_alive_times
    keep_alive_times-due zero s e c full = keep_alive-due s e (omega arith) c
    keep_alive_times-due (suc k) s e c full = rw (keep_alive-quiet s e (omega arith)) (
        keep_alive_times-due k (record s { keep_alive_counter = s.keep_alive_counter + 1 }) e c
          (omega arith))

    keep_alive_times-period :
        (m : ℕ) (s : Bridge P)
        → s.keep_alive_nb_spin ≡ n
        → s.tcp_server.is_connected ≡ true
        → s.keep_alive_counter ≡ 1
        → keep_alive_times (m * n) s ≡ after s 1 (replicate m greeting)
    unfolding keep_alive_times
    keep_alive_times-period zero s e c one =
        rw (zero_mul) (
          rw (← one)
            (ap (λ q. record s { outbound_queue = q }) (sym (append-nil s.outbound_queue))))
      where
        zero_mul : 0 * n ≡ 0
        zero_mul = omega arith
    keep_alive_times-period (suc m) s e c one =
        ap (λ t. keep_alive_times t s) step
        ∙ keep_alive_times-add (suc (n - 1)) (m * n) s
        ∙ ap (keep_alive_times (m * n)) (keep_alive_times-due (n - 1) s e c (omega arith))
        ∙ keep_alive_times-period m (after s 1 (greeting ∷ [])) e c refl
        ∙ ap (λ q. record s { keep_alive_counter = 1; outbound_queue = q })
            (append_assoc s.outbound_queue (greeting ∷ []) (replicate m greeting))
      where
        step : suc m * n ≡ suc (n - 1) + m * n
        step = omega arith

  -- The handles of the inbound requests and the random numbers, which the end of `spin` leaves alone.
  abbrev with_calls : Bridge P → ℕ → List (InboundRequestHandle P) → Bridge P
  with_calls s drawn calls = record s { drawn = drawn; inbound_requests_queue = calls }

  keep_alive-with_calls :
      (s : Bridge P) (drawn : ℕ) (calls : List (InboundRequestHandle P))
      → keep_alive P (with_calls s drawn calls) ≡ with_calls (keep_alive P s) drawn calls
  unfolding keep_alive
  keep_alive-with_calls s drawn calls = ground arith

  keep_alive_times-with_calls :
      (k : ℕ) (s : Bridge P) (drawn : ℕ) (calls : List (InboundRequestHandle P))
      → keep_alive_times k (with_calls s drawn calls)
        ≡ with_calls (keep_alive_times k s) drawn calls
  unfolding keep_alive_times
  keep_alive_times-with_calls zero s drawn calls = refl
  keep_alive_times-with_calls (suc k) s drawn calls =
      ap (keep_alive_times k) (keep_alive-with_calls s drawn calls)
      ∙ keep_alive_times-with_calls k (keep_alive P s) drawn calls

  keep_alive-kept :
      (s : Bridge P)
      → ((keep_alive P s).tcp_server ≡ s.tcp_server)
        × ((keep_alive P s).inbound_queue ≡ s.inbound_queue)
  unfolding keep_alive
  keep_alive-kept s = (ground arith, ground arith)

  module _ (rand : ℕ → ℕ) where
    -- `spin` again and again, each on what the next connection would bring.
    unfoldable pub spins :
        ℕ → (connections : ℕ → Connection P) → Bridge P → Access (Bridge P × List (Effect P))
    spins zero connections s = value (s, [])
    spins (suc k) connections s = do
      (s', effects) ← spin P rand s (connections k)
      (s'', later) ← spins k connections s'
      value (s'', effects ++ later)

    spin-quiet :
        (s : Bridge P) (c : Connection P)
        → s.tcp_server.is_connected ≡ true
        → s.inbound_queue ≡ []
        → (drawn : ℕ) × (calls : List (InboundRequestHandle P)) × (effects : List (Effect P))
          × (spin P rand s c ≡ value (with_calls (keep_alive P s) drawn calls, effects))
    unfolding spin spin_connected is_tcp_client_connected
    spin-quiet s c up quiet =
        let swept = sweep P rand s.drawn s.inbound_requests_queue in
        (
          swept.0,
          swept.1,
          swept.2,
          ap
                (λ b.
                  (if b then spin_connected P rand s else value (spin_disconnected P s c)) >>= λ x.
                  value (keep_alive P x.0, x.1))
                up
              ∙ rw (handle_front-empty P s quiet) refl
              ∙ ap (λ t. value (t, swept.2)) (keep_alive-with_calls s swept.0 swept.1),
        )

    spins-keep_alive_times :
        (k : ℕ) (connections : ℕ → Connection P) (s : Bridge P)
        → s.tcp_server.is_connected ≡ true
        → s.inbound_queue ≡ []
        → (drawn : ℕ) × (calls : List (InboundRequestHandle P)) × (effects : List (Effect P))
          × (spins k connections s ≡ value (with_calls (keep_alive_times k s) drawn calls, effects))
    unfolding spins keep_alive_times
    spins-keep_alive_times zero connections s up quiet =
        (s.drawn, s.inbound_requests_queue, [], refl)
    spins-keep_alive_times (suc k) connections s up quiet =
        let (drawn, calls, effects, spun) = spin-quiet s (connections k) up quiet in
        let (same_server, same_queue) = keep_alive-kept s in
        let (drawn', calls', later, rest) =
          spins-keep_alive_times k connections (with_calls (keep_alive P s) drawn calls)
            (ap (λ t. t.is_connected) same_server ∙ up) (same_queue ∙ quiet) in
        (
          drawn',
          calls',
          effects ++ later,
          rw (spun) (rw (rest) refl)
              ∙ ap (λ t. value (with_calls t drawn' calls', effects ++ later))
                  (keep_alive_times-with_calls k (keep_alive P s) drawn calls),
        )

    -- With a client, nothing in the inbound queue, and an interval `n` that is not 0 and below
    -- 2 ^ 32 - 1, every `n` spins queue one greeting: from a counter of 1, whichever calls are
    -- pending, `m` times `n` spins meet no fault, add `m` greetings and nothing else to the outbound
    -- queue, keep the client, and end with a counter of 1.
    pub keep_alive_period :
        (n m : ℕ) (connections : ℕ → Connection P) (s : Bridge P)
        → 0 < n
        → n < 2 ^ 32 - 1
        → s.keep_alive_nb_spin ≡ n
        → s.tcp_server.is_connected ≡ true
        → s.inbound_queue ≡ []
        → s.keep_alive_counter ≡ 1
        → (u : Bridge P) × (effects : List (Effect P)) × (spins (m * n) connections s
            ≡ value (u, effects))
          × (u.outbound_queue
              ≡ s.outbound_queue
                ++ replicate m (outbound_request_handle P (create_greet_message P)))
          × (u.tcp_server ≡ s.tcp_server)
          × (u.keep_alive_counter ≡ 1)
    keep_alive_period n m connections s pos small interval up quiet one =
        let (drawn, calls, effects, spun) = spins-keep_alive_times (m * n) connections s up quiet in
        let greeted = keep_alive_times-period n pos small m s interval up one in
        (
          with_calls (keep_alive_times (m * n) s) drawn calls,
          effects,
          spun,
          ap (λ t. t.outbound_queue) greeted,
          ap (λ t. t.tcp_server) greeted,
          ap (λ t. t.keep_alive_counter) greeted,
        )
