-- ===== src/Bridge/System/Server.antt =====
-- What each pass does to the server is a life of it.
use hive_mind_bridge.Prelude.{
  ◌≡◌, sym, ap, subst, ◌∙◌, inl, inr, Bool, true, false, Bool-cases, Option, List, [], ◌∷◌, ◌++◌,
  All, All-append, arith, value,
}
use hive_mind_bridge.Pheromones.{Pheromones}
use hive_mind_bridge.Effect.{Effect, serialized}
use hive_mind_bridge.MessageUtils.{create_greet_message}
use hive_mind_bridge.Effect.Calls.{IsSilent, All-IsSilent}
use hive_mind_bridge.MessageHandler.Total.{handle_message-total}
use hive_mind_bridge.TcpServer.{listen, close, lose_if}
use hive_mind_bridge.TcpServer.Life.{
  Event, listening, Life, begins, passes, listens, closes, loses_if, Life-append,
}
use hive_mind_bridge.Bridge.{Bridge}
use hive_mind_bridge.Bridge.Outbound.{inbound_round, outbound_round, process}
use hive_mind_bridge.Bridge.Spin.{Connection, accept, handle_front, greet, spin_disconnected}
use hive_mind_bridge.Bridge.System.Front.{handle_front_cases, outbound_round_cases}
use hive_mind_bridge.Bridge.System.Silent.{
  accept-IsPlain, accept-server, process-IsPlain, process-server,
}
use hive_mind_bridge.Bridge.System.Invariant.{IsSound}

module _ (P : Pheromones) where
  module _ (allowed : Event → Type 0) where
    -- From `s` to `u`, what happens is a life of the server.
    abbrev pub Lives : Bridge P → List (Effect P) → Bridge P → Type 0
    Lives s effects u = Life P allowed s.tcp_server effects u.tcp_server

    pub quiet :
        (s u : Bridge P) (effects : List (Effect P))
        → All (IsSilent P) effects
        → u.tcp_server ≡ s.tcp_server
        → Lives s effects u
    quiet s u effects silent same =
        subst (λ x. Life P allowed s.tcp_server effects x) (sym same) (passes begins effects silent)

    pub handle_front-Lives :
        (s u : Bridge P) (effects : List (Effect P))
        → handle_front P s ≡ value (u, effects)
        → IsSound P s
        → Lives s effects u
    handle_front-Lives s u effects e sound = elim (handle_front_cases P s u effects e) [
      | inl (_, same, none_sent) ↦ quiet s u effects (rw none_sent tt) (ap (λ x. x.tcp_server) same)
      | inr (message, rest, hs, r, es, q, a, ends, sent) ↦
          quiet s u effects
            (rw sent (
              All-append (IsSilent P) es
                (accept P (record s { handlers = hs; inbound_queue = rest }) r).1
                (rw a at (handle_message-total P s.handlers message sound.consistent)).2
                (All-IsSilent P (accept P (record s { handlers = hs; inbound_queue = rest }) r).1
                  (accept-IsPlain P (record s { handlers = hs; inbound_queue = rest }) r))))
            (ap (λ x. x.tcp_server) ends
              ∙ accept-server P (record s { handlers = hs; inbound_queue = rest }) r)
    ]

    pub outbound_round-Lives :
        (s u : Bridge P) (effects : List (Effect P))
        → outbound_round P s ≡ value (u, effects)
        → Lives s effects u
    outbound_round-Lives s u effects e = elim (outbound_round_cases P s u effects e) [
      | inl (_, same, none_sent) ↦ quiet s u effects (rw none_sent tt) (ap (λ x. x.tcp_server) same)
      | inr (_, (h, rest, _, p)) ↦
          quiet s u effects
            (rw (ap (λ x. x.1) p) (
              All-IsSilent P (process P (record s { outbound_queue = rest }) h).1
                (process-IsPlain P (record s { outbound_queue = rest }) h)))
            (ap (λ x. x.0.tcp_server) p ∙ process-server P (record s { outbound_queue = rest }) h)
    ]

    module _ (s : Bridge P) (lost : Bool) (received : Option P.MessageDto) where
      inbound_round-up :
          s.tcp_server.is_connected ≡ true
          → ((inbound_round P s lost received).0.tcp_server ≡ (lose_if P lost s.tcp_server).0)
            × ((inbound_round P s lost received).1 ≡ (lose_if P lost s.tcp_server).1)
      unfolding inbound_round
      inbound_round-up up = ground arith

      inbound_round-down :
          s.tcp_server.is_connected ≡ false
          → ((inbound_round P s lost received).0.tcp_server ≡ s.tcp_server)
            × ((inbound_round P s lost received).1 ≡ [])
      unfolding inbound_round
      inbound_round-down down = ground arith

      pub inbound_round-Lives :
          Lives s (inbound_round P s lost received).1 (inbound_round P s lost received).0
      inbound_round-Lives = elim (Bool-cases s.tcp_server.is_connected) [
        | inl up ↦
            let (server, effects) = inbound_round-up up in
            rw (server, effects) (loses_if P allowed lost begins up)
        | inr down ↦
            let (server, effects) = inbound_round-down down in
            quiet s (inbound_round P s lost received).0 (inbound_round P s lost received).1
              (rw effects tt) server
      ]

    module _ (s : Bridge P) (k : Connection P) where
      greet-up :
          s.tcp_server.is_connected ≡ true
          → ((greet P s k).0.tcp_server ≡ (lose_if P k.lost s.tcp_server).0)
            × ((greet P s k).2
                ≡ (serialized (create_greet_message P) ∷ []) ++ (lose_if P k.lost s.tcp_server).1)
      unfolding greet
      greet-up up = ground arith

      greet-down :
          s.tcp_server.is_connected ≡ false
          → ((greet P s k).0.tcp_server ≡ s.tcp_server) × ((greet P s k).2 ≡ [])
      unfolding greet
      greet-down down = ground arith

      pub greet-Lives : Lives s (greet P s k).2 (greet P s k).0
      greet-Lives = elim (Bool-cases s.tcp_server.is_connected) [
        | inl up ↦
            let (server, effects) = greet-up up in
            rw (server, effects)
              (loses_if P allowed k.lost
                (passes begins (serialized (create_greet_message P) ∷ []) (tt, tt)) up)
        | inr down ↦
            let (server, effects) = greet-down down in
            quiet s (greet P s k).0 (greet P s k).2 (rw effects tt) server
      ]

    module _ (s : Bridge P) (k : Connection P) where
      abbrev joined : Bridge P
      joined = record s {
        inbound_thread = false;
        outbound_thread = false;
        tcp_server = (listen P s.tcp_server k.listens k.accepted).0;
      }

      greeted_lem :
          (greet P joined k).1 ≡ true
          → ((spin_disconnected P s k).0.tcp_server ≡ (greet P joined k).0.tcp_server)
            × ((spin_disconnected P s k).1
                ≡ (listen P s.tcp_server k.listens k.accepted).1 ++ (greet P joined k).2)
      unfolding spin_disconnected
      greeted_lem answered = ground arith

      refused_lem :
          (greet P joined k).1 ≡ false
          → ((spin_disconnected P s k).0.tcp_server ≡ (close P (greet P joined k).0.tcp_server).0)
            × ((spin_disconnected P s k).1
                ≡ (listen P s.tcp_server k.listens k.accepted).1
                  ++ (greet P joined k).2
                  ++ (close P (greet P joined k).0.tcp_server).1)
      unfolding spin_disconnected
      refused_lem refused = ground arith

      pub spin_disconnected-Lives :
          allowed listening
          → s.tcp_server.is_connected ≡ false
          → Lives s (spin_disconnected P s k).1 (spin_disconnected P s k).0
      spin_disconnected-Lives a down =
          let greeted : Life P allowed s.tcp_server
              ((listen P s.tcp_server k.listens k.accepted).1 ++ (greet P joined k).2)
              (greet P joined k).0.tcp_server =
            Life-append P allowed (listen P s.tcp_server k.listens k.accepted).1
              (greet P joined k).2 (listens begins a down k.listens k.accepted)
              (greet-Lives joined k) in
          elim (Bool-cases (greet P joined k).1) [
            | inl answered ↦
                let (server, effects) = greeted_lem answered in rw (server, effects) greeted
            | inr refused ↦
                let (server, effects) = refused_lem refused in rw (server, effects) (closes greeted)
          ]
