-- ===== src/Bridge/System/Front.antt =====
-- What is done with the front of the inbound queue and with the front of the outbound queue, where no
-- fault was met.
use hive_mind_bridge.Handle.{OutboundRequestHandle}
use hive_mind_bridge.Bridge.Outbound.{outbound_round, process}
use hive_mind_bridge.Bridge.Outbound.Delivery.{outbound_round-cons}
use hive_mind_bridge.Bridge.System.Reach.{outbound_round-idle}
use hive_mind_bridge.Prelude.{
  ℕ, true, false, Bool-cases, if◌then◌else◌, ◌≡◌, refl, sym, ap, ◌∙◌, ◌⊎◌, inl, inr, List, [], ◌∷◌,
  ◌++◌, value, value-inj, Access, undefined_behaviour, uncaught_exception,
}
use hive_mind_bridge.Pheromones.{Pheromones}
use hive_mind_bridge.Effect.{Effect}
use hive_mind_bridge.MessageHandler.{Handlers, Handled, handle_message}
use hive_mind_bridge.Bridge.{Bridge}
use hive_mind_bridge.Bridge.Spin.{accept, handle_front}
use hive_mind_bridge.Bridge.Spin.Inbound.{
  handle_front-value, handle_front-fault, handle_front-exception, handle_front-empty,
}

module _ (P : Pheromones) where
  not_value : (x : Bridge P × List (Effect P)) → ¬ (undefined_behaviour ≡ value x)
  not_value x h = cc

  escaped : (x : Bridge P × List (Effect P)) → ¬ (uncaught_exception ≡ value x)
  escaped x h = cc

  -- The message that was handled, and what the message handler answered.
  abbrev pub HandledFront : Bridge P → Bridge P → List (Effect P) → Type 0
  HandledFront s s' effects =
      (message : P.MessageDto) × (rest : List P.MessageDto) × (hs : Handlers P) × (r : Handled P)
      × (es : List (Effect P)) × (s.inbound_queue ≡ message ∷ rest)
      × (handle_message P s.handlers message ≡ value (hs, r, es))
      × (s' ≡ (accept P (record s { handlers = hs; inbound_queue = rest }) r).0)
      × (effects ≡ es ++ (accept P (record s { handlers = hs; inbound_queue = rest }) r).1)

  module _ (s s' : Bridge P) (effects : List (Effect P))
      (e : handle_front P s ≡ value (s', effects)) where
    handled_cases :
        (message : P.MessageDto) (rest : List P.MessageDto)
        (a : Access (Handlers P × Handled P × List (Effect P)))
        → s.inbound_queue ≡ message ∷ rest
        → handle_message P s.handlers message ≡ a
        → HandledFront s s' effects
    handled_cases message rest (value (hs, r, es)) q a =
        let answered = value-inj _ _ (sym e ∙ handle_front-value P s message rest hs r es q a) in
        (message, rest, hs, r, es, q, a, ap (λ x. x.0) answered, ap (λ x. x.1) answered)
    handled_cases message rest undefined_behaviour q a =
        absurd (not_value (s', effects) (sym (handle_front-fault P s message rest q a) ∙ e))
    handled_cases message rest uncaught_exception q a =
        absurd (escaped (s', effects) (sym (handle_front-exception P s message rest q a) ∙ e))

    pub handle_front_cases :
        ((s.inbound_queue ≡ []) × (s' ≡ s) × (effects ≡ [])) ⊎ HandledFront s s' effects
    handle_front_cases = front s.inbound_queue refl
      where
        front :
            (q : List P.MessageDto)
            → s.inbound_queue ≡ q
            → ((s.inbound_queue ≡ []) × (s' ≡ s) × (effects ≡ [])) ⊎ HandledFront s s' effects
        front [] q =
            let same = value-inj (s', effects) (s, []) (sym e ∙ handle_front-empty P s q) in
            inl (q, ap (λ x. x.0) same, ap (λ x. x.1) same)
        front (message ∷ rest) q =
            inr (handled_cases message rest (handle_message P s.handlers message) q refl)

  -- The first handle of the outbound queue is taken off and processed.
  abbrev pub Processes : Bridge P → List (Effect P) → Bridge P → Type 0
  Processes t effects u =
      (h : OutboundRequestHandle P) × (rest : List (OutboundRequestHandle P)) × (t.outbound_queue
        ≡ h ∷ rest)
      × ((u, effects) ≡ process P (record t { outbound_queue = rest }) h)

  -- Whether a round of the outbound loop finds a client and something to send.
  abbrev pub busy : Bridge P → ℕ
  busy s =
      if s.tcp_server.is_connected then (elim s.outbound_queue [ [] ↦ 0 | h ∷ rest ↦ 1 ]) else 0

  module _ (s s' : Bridge P) (effects : List (Effect P))
      (e : outbound_round P s ≡ value (s', effects)) where
    abbrev RoundCases : Type 0
    RoundCases =
        ((busy s ≡ 0) × (s' ≡ s) × (effects ≡ [])) ⊎ ((busy s ≡ 1) × Processes s effects s')

    idle_case :
        busy s ≡ 0 → (s.tcp_server.is_connected ≡ false) ⊎ (s.outbound_queue ≡ []) → RoundCases
    idle_case none why =
        let same = value-inj (s', effects) (s, []) (sym e ∙ outbound_round-idle P s why) in
        inl (none, ap (λ x. x.0) same, ap (λ x. x.1) same)

    queued_cases :
        s.tcp_server.is_connected ≡ true
        → (q : List (OutboundRequestHandle P)) → s.outbound_queue ≡ q
        → RoundCases
    queued_cases up [] q = idle_case (rw (up, q)) (inr q)
    queued_cases up (h ∷ rest) q =
        inr
          ((rw (up, q)), (h, rest, q, value-inj _ _ (sym e ∙ outbound_round-cons P s h rest up q)))

    pub outbound_round_cases : RoundCases
    outbound_round_cases = elim (Bool-cases s.tcp_server.is_connected) [
      | inl up ↦ queued_cases up s.outbound_queue refl
      | inr down ↦ idle_case (rw down) (inl down)
    ]
