-- ===== src/Bridge/System/Queue.antt =====
-- What each step does to the outbound queue.
use hive_mind_bridge.Prelude.{
  ℕ, ◌≡◌, refl, sym, ap, ◌∙◌, ◌⊎◌, inl, inr, Bool, Option, List, [], ◌∷◌, ◌++◌, append-nil, arith,
  value,
}
use hive_mind_bridge.Pheromones.{Pheromones}
use hive_mind_bridge.Effect.{Effect}
use hive_mind_bridge.Handle.{
  OutboundRequestHandle, OutboundRequestState, outbound_request_handle, bump_delay_since_sent,
}
use hive_mind_bridge.MessageUtils.{create_greet_message}
use hive_mind_bridge.MessageHandler.{Handled, nothing, inbound_request, inbound_response}
use hive_mind_bridge.TcpServer.{lose_if}
use hive_mind_bridge.Bridge.{Bridge, queue_and_send}
use hive_mind_bridge.Bridge.Outbound.{inbound_round, process}
use hive_mind_bridge.Bridge.Outbound.Delivery.{mark_sent}
use hive_mind_bridge.Bridge.Requests.{
  register_custom_action, on_connect, on_disconnect, on_bytes_received, on_neighbor_list_updated,
  on_neighbor_updated,
}
use hive_mind_bridge.Bridge.Spin.{Connection, accept, handle_front, spin_disconnected, keep_alive}
use hive_mind_bridge.Bridge.System.{
  Step, connects, handles, sweeps, keeps_alive, receives, sends, finishes, registers, draws, queues,
  reports, sets_connect, sets_disconnect, sets_bytes, sets_list, sets_neighbor,
}
use hive_mind_bridge.Bridge.System.Front.{handle_front_cases, outbound_round_cases, busy, Processes}

module _ (P : Pheromones) where
  -- The queue of `u` is that of `t` with more at its end.
  abbrev pub Extends : Bridge P → Bridge P → Type 0
  Extends t u =
      (new : List (OutboundRequestHandle P)) × (u.outbound_queue ≡ t.outbound_queue ++ new)

  same : (t u : Bridge P) → u.outbound_queue ≡ t.outbound_queue → Extends t u
  same t u e = ([], e ∙ sym (append-nil t.outbound_queue))

  accept-queue : (s : Bridge P) (r : Handled P) → (accept P s r).0.outbound_queue ≡ s.outbound_queue
  unfolding accept
  accept-queue s (nothing) = refl
  accept-queue s (inbound_request h) = refl
  accept-queue s (inbound_response h) = refl

  pub handle_front-queue :
      (s s' : Bridge P) (effects : List (Effect P))
      → handle_front P s ≡ value (s', effects)
      → s'.outbound_queue ≡ s.outbound_queue
  handle_front-queue s s' effects e = elim (handle_front_cases P s s' effects e) [
    | inl (q, same_state, es) ↦ ap (λ x. x.outbound_queue) same_state
    | inr (message, rest, hs, r, es, q, a, ends, _) ↦
        ap (λ x. x.outbound_queue) ends
        ∙ accept-queue (record s { handlers = hs; inbound_queue = rest }) r
  ]

  pub connected-queue :
      (s : Bridge P) (c : Connection P)
      → (spin_disconnected P s c).0.outbound_queue ≡ s.outbound_queue
  unfolding spin_disconnected
  connected-queue s c = ground arith

  pub received-queue :
      (s : Bridge P) (lost : Bool) (received : Option P.MessageDto)
      → (inbound_round P s lost received).0.outbound_queue ≡ s.outbound_queue
  unfolding inbound_round lose_if
  received-queue s lost received = ground arith

  grown :
      (t u : Bridge P) (h : OutboundRequestHandle P)
      → (u.outbound_queue ≡ t.outbound_queue) ⊎ (u.outbound_queue ≡ t.outbound_queue ++ h ∷ [])
      → Extends t u
  grown t u h (inl e) = same t u e
  grown t u h (inr e) = (h ∷ [], e)

  queue_and_send-Extends :
      (s : Bridge P) (message : P.MessageDto) → Extends s (queue_and_send P s message).0
  unfolding queue_and_send
  queue_and_send-Extends s message =
      grown s (queue_and_send P s message).0 (outbound_request_handle P message) (ground arith)

  keep_alive-Extends : (s : Bridge P) → Extends s (keep_alive P s)
  unfolding keep_alive
  keep_alive-Extends s =
      grown s (keep_alive P s) (outbound_request_handle P (create_greet_message P)) (ground arith)

  pub process-Extends : (s : Bridge P) (h : OutboundRequestHandle P) → Extends s (process P s h).0
  unfolding process
  process-Extends s h = go h.state refl
    where
      go : (state : OutboundRequestState P) → h.state ≡ state → Extends s (process P s h).0
      go OutboundRequestState.ready e = grown s (process P s h).0 (mark_sent P h) (ground arith)
      go OutboundRequestState.sent e =
          grown s (process P s h).0 (bump_delay_since_sent P h 1) (ground arith)

  module _ (rand : ℕ → ℕ) where
    -- The rounds of the outbound loop in a step that find a client and something to send.
    unfoldable pub rounds_of :
        {t u : Bridge P} {effects : List (Effect P)} → Step P rand t effects u → ℕ
    rounds_of (sends s up e) = busy P s
    rounds_of _ = 0

    pub Step-queue :
        {t u : Bridge P} {effects : List (Effect P)} (st : Step P rand t effects u)
        → ((rounds_of st ≡ 0) × Extends t u) ⊎ ((rounds_of st ≡ 1) × Processes P t effects u)
    unfolding rounds_of register_custom_action on_connect on_disconnect on_bytes_received
        on_neighbor_list_updated on_neighbor_updated
    Step-queue (connects s c down) =
        inl (refl, same s (spin_disconnected P s c).0 (connected-queue s c))
    Step-queue (handles s {s'} {effects} e) =
        inl (refl, same s s' (handle_front-queue s s' effects e))
    Step-queue (sweeps s) = inl (refl, ([], sym (append-nil s.outbound_queue)))
    Step-queue (keeps_alive s) = inl (refl, keep_alive-Extends s)
    Step-queue (receives s lost received up) =
        inl (refl, same s (inbound_round P s lost received).0 (received-queue s lost received))
    Step-queue (sends s {s'} {effects} up e) = elim (outbound_round_cases P s s' effects e) [
      | inl (none_made, same_state, _) ↦
          inl (none_made, same s s' (ap (λ x. x.outbound_queue) same_state))
      | inr processed ↦ inr processed
    ]
    Step-queue (finishes s before after c e) = inl (refl, ([], sym (append-nil s.outbound_queue)))
    Step-queue (registers s name f a) = inl (refl, ([], sym (append-nil s.outbound_queue)))
    Step-queue (draws s) = inl (refl, ([], sym (append-nil s.outbound_queue)))
    Step-queue (queues s message) = inl (refl, queue_and_send-Extends s message)
    Step-queue (reports s level text) = inl (refl, ([], sym (append-nil s.outbound_queue)))
    Step-queue (sets_connect s hook) = inl (refl, ([], sym (append-nil s.outbound_queue)))
    Step-queue (sets_disconnect s hook) = inl (refl, ([], sym (append-nil s.outbound_queue)))
    Step-queue (sets_bytes s hook) = inl (refl, ([], sym (append-nil s.outbound_queue)))
    Step-queue (sets_list s hook) = inl (refl, ([], sym (append-nil s.outbound_queue)))
    Step-queue (sets_neighbor s hook) = inl (refl, ([], sym (append-nil s.outbound_queue)))
