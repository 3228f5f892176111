-- ===== src/Bridge/System/Inbox.antt =====
-- What is received is handled: the inbound queue is first in, first out in every run.
use hive_mind_bridge.Prelude.{
  ℕ, ◌≡◌, refl, sym, ap, ◌∙◌, inl, inr, Bool, Option, none, some, List, [], ◌∷◌, ◌++◌, append_assoc,
  append-nil, arith, value, if◌then◌else◌,
}
use hive_mind_bridge.Pheromones.{Pheromones}
use hive_mind_bridge.Effect.{Effect}
use hive_mind_bridge.MessageHandler.{Handled, nothing, inbound_request, inbound_response}
use hive_mind_bridge.TcpServer.{lose_if}
use hive_mind_bridge.Handle.{OutboundRequestHandle}
use hive_mind_bridge.Bridge.{Bridge, queue_and_send}
use hive_mind_bridge.Bridge.Outbound.{inbound_round, outbound_round, process}
use hive_mind_bridge.Bridge.Requests.{
  register_custom_action, on_connect, on_disconnect, on_bytes_received, on_neighbor_list_updated,
  on_neighbor_updated,
}
use hive_mind_bridge.Bridge.Spin.{Connection, accept, handle_front, spin_disconnected, keep_alive}
use hive_mind_bridge.Bridge.System.{
  Step, connects, handles, sweeps, keeps_alive, receives, sends, finishes, registers, draws, queues,
  reports, sets_connect, sets_disconnect, sets_bytes, sets_list, sets_neighbor, Run, here, next,
}
use hive_mind_bridge.Bridge.System.Front.{handle_front_cases, outbound_round_cases}

module _ (P : Pheromones) where
  unfoldable pub first : List P.MessageDto → List P.MessageDto
  first [] = []
  first (message ∷ rest) = message ∷ []

  -- The messages that a round of the inbound loop puts on the queue.
  abbrev pub arrived : Bridge P → Option P.MessageDto → List P.MessageDto
  arrived s none = []
  arrived s (some message) = if s.tcp_server.is_connected then message ∷ [] else []

  connected-inbox :
      (s : Bridge P) (c : Connection P)
      → (spin_disconnected P s c).0.inbound_queue ≡ s.inbound_queue
  unfolding spin_disconnected
  connected-inbox s c = ground arith

  received-inbox :
      (s : Bridge P) (lost : Bool) (received : Option P.MessageDto)
      → s.inbound_queue ++ arrived s received ≡ (inbound_round P s lost received).0.inbound_queue
  unfolding inbound_round lose_if
  received-inbox s lost none = ground (arith, append-nil s.inbound_queue)
  received-inbox s lost (some message) = ground (arith, append-nil s.inbound_queue)

  process-inbox :
      (s : Bridge P) (h : OutboundRequestHandle P)
      → (process P s h).0.inbound_queue ≡ s.inbound_queue
  unfolding process
  process-inbox s h = ground arith

  outbound_round-inbox :
      (s s' : Bridge P) (effects : List (Effect P))
      → outbound_round P s ≡ value (s', effects)
      → s.inbound_queue ≡ s'.inbound_queue
  outbound_round-inbox s s' effects e = elim (outbound_round_cases P s s' effects e) [
    | inl (_, same_state, _) ↦ ap (λ x. x.inbound_queue) (sym same_state)
    | inr (_, (h, rest, _, p)) ↦
        sym (ap (λ x. x.0.inbound_queue) p ∙ process-inbox (record s { outbound_queue = rest }) h)
  ]

  accept-inbox : (s : Bridge P) (r : Handled P) → (accept P s r).0.inbound_queue ≡ s.inbound_queue
  unfolding accept
  accept-inbox s (nothing) = refl
  accept-inbox s (inbound_request h) = refl
  accept-inbox s (inbound_response h) = refl

  handle_front-inbox :
      (s s' : Bridge P) (effects : List (Effect P))
      → handle_front P s ≡ value (s', effects)
      → s.inbound_queue ≡ first s.inbound_queue ++ s'.inbound_queue
  unfolding first
  handle_front-inbox s s' effects e = elim (handle_front_cases P s s' effects e) [
    | inl (q, same_state, _) ↦ rw (q, same_state) (sym q)
    | inr (message, rest, hs, r, es, q, _, ends, _) ↦
        rw (q, ends, accept-inbox (record s { handlers = hs; inbound_queue = rest }) r) refl
  ]

  queue_and_send-inbox :
      (s : Bridge P) (message : P.MessageDto)
      → s.inbound_queue ≡ (queue_and_send P s message).0.inbound_queue
  unfolding queue_and_send
  queue_and_send-inbox s message = ground arith

  keep_alive-inbox : (s : Bridge P) → s.inbound_queue ≡ (keep_alive P s).inbound_queue
  unfolding keep_alive
  keep_alive-inbox s = ground arith

  unchanged : {q q' : List P.MessageDto} → q ≡ q' → q ++ [] ≡ q'
  unchanged {q} e = append-nil q ∙ e

  module _ (rand : ℕ → ℕ) where
    -- The message that a step puts on the inbound queue, if it puts one there.
    unfoldable pub arrives :
        {t u : Bridge P} {effects : List (Effect P)} → Step P rand t effects u → List P.MessageDto
    arrives (receives s lost received up) = arrived s received
    arrives _ = []

    -- The message that a step takes off the inbound queue and handles, if it does.
    unfoldable pub handled :
        {t u : Bridge P} {effects : List (Effect P)} → Step P rand t effects u → List P.MessageDto
    unfolding first
    handled (handles s e) = first s.inbound_queue
    handled _ = []

    Step-inbox :
        {t u : Bridge P} {effects : List (Effect P)} (st : Step P rand t effects u)
        → t.inbound_queue ++ arrives st ≡ handled st ++ u.inbound_queue
    unfolding arrives handled register_custom_action on_connect on_disconnect on_bytes_received
        on_neighbor_list_updated on_neighbor_updated
    Step-inbox (connects s c down) = unchanged (sym (connected-inbox s c))
    Step-inbox (handles s {s'} {effects} e) =
        append-nil s.inbound_queue ∙ handle_front-inbox s s' effects e
    Step-inbox (sweeps s) = append-nil s.inbound_queue
    Step-inbox (keeps_alive s) = unchanged (keep_alive-inbox s)
    Step-inbox (receives s lost received up) = received-inbox s lost received
    Step-inbox (sends s {s'} {effects} up e) = unchanged (outbound_round-inbox s s' effects e)
    Step-inbox (finishes s before after c e) = append-nil s.inbound_queue
    Step-inbox (registers s name f a) = append-nil s.inbound_queue
    Step-inbox (draws s) = append-nil s.inbound_queue
    Step-inbox (queues s message) = unchanged (queue_and_send-inbox s message)
    Step-inbox (reports s level text) = append-nil s.inbound_queue
    Step-inbox (sets_connect s hook) = append-nil s.inbound_queue
    Step-inbox (sets_disconnect s hook) = append-nil s.inbound_queue
    Step-inbox (sets_bytes s hook) = append-nil s.inbound_queue
    Step-inbox (sets_list s hook) = append-nil s.inbound_queue
    Step-inbox (sets_neighbor s hook) = append-nil s.inbound_queue

    -- The messages received and the messages handled in a run, in order.
    unfoldable pub all_arrived :
        {s u : Bridge P} {effects : List (Effect P)} → Run P rand s effects u → List P.MessageDto
    all_arrived (here) = []
    all_arrived (next r st) = all_arrived r ++ arrives st

    unfoldable pub all_handled :
        {s u : Bridge P} {effects : List (Effect P)} → Run P rand s effects u → List P.MessageDto
    all_handled (here) = []
    all_handled (next r st) = all_handled r ++ handled st

    -- However the threads interleave, no message is lost, repeated or overtaken on its way from the
    -- inbound thread to `spin`: what was queued before a run and what arrived in it is, in this order,
    -- what was handled in it and what is queued after it.
    pub run_keeps_order :
        {s u : Bridge P} {effects : List (Effect P)} (r : Run P rand s effects u)
        → s.inbound_queue ++ all_arrived r ≡ all_handled r ++ u.inbound_queue
    unfolding all_arrived all_handled
    run_keeps_order {s} (here) = append-nil s.inbound_queue
    run_keeps_order {s} (next {effects} {later} {t} {u} r st) =
        sym (append_assoc s.inbound_queue (all_arrived r) (arrives st))
        ∙ ap (λ x. x ++ arrives st) (run_keeps_order r)
        ∙ append_assoc (all_handled r) t.inbound_queue (arrives st)
        ∙ ap (λ x. all_handled r ++ x) (Step-inbox st)
        ∙ sym (append_assoc (all_handled r) (handled st) u.inbound_queue)
