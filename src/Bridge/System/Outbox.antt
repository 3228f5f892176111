-- ===== src/Bridge/System/Outbox.antt =====
-- What is queued is sent in order: the outbound queue as the messages that were not sent yet.
use hive_mind_bridge.Prelude.{
  ℕ, ◌≡◌, refl, sym, ap, subst, ◌∙◌, inl, inr, List, [], ◌∷◌, ◌++◌, append_assoc, append-nil, arith,
  value, if◌then◌else◌, ltb, leb,
}
use mathlib.Core.List.{Sublist}
use mathlib.Core.List.Sublist
use hive_mind_bridge.Pheromones.{Pheromones}
use hive_mind_bridge.Effect.{Effect}
use hive_mind_bridge.Handle.{OutboundRequestHandle, OutboundRequestState}
use hive_mind_bridge.MessageUtils.{create_greet_message}
use hive_mind_bridge.Bridge.{Bridge, queue_and_send}
use hive_mind_bridge.Bridge.Outbound.{inbound_round, outbound_round, process}
use hive_mind_bridge.Bridge.Requests.{
  register_custom_action, on_connect, on_disconnect, on_bytes_received, on_neighbor_list_updated,
  on_neighbor_updated,
}
use hive_mind_bridge.Bridge.Spin.{spin_disconnected, keep_alive}
use hive_mind_bridge.Bridge.System.{
  Step, connects, handles, sweeps, keeps_alive, receives, sends, finishes, registers, draws, queues,
  reports, sets_connect, sets_disconnect, sets_bytes, sets_list, sets_neighbor, Run, here, next,
}
use hive_mind_bridge.Bridge.System.Unsent.{
  unsent, messages, unsent-new, process-sent, process-ready, unsent-ready, unsent-sent,
}
use hive_mind_bridge.Bridge.System.Front.{outbound_round_cases}
use hive_mind_bridge.Bridge.System.Queue.{connected-queue, handle_front-queue, received-queue}
use hive_mind_bridge.Bridge.System.Invariant.{IsTimely, IsSound}
use hive_mind_bridge.Bridge.System.Reach.{Run-IsSound}

module _ (P : Pheromones) where
  open P use {MessageDto}

  -- What was sent, and then what is still unsent, is in order among what was unsent and what came.
  abbrev pub Orders : Bridge P → (sent queued : List MessageDto) → Bridge P → Type 0
  Orders s sent queued u =
      Sublist (sent ++ unsent P u.outbound_queue) (unsent P s.outbound_queue ++ queued)

  exactly :
      (s u : Bridge P) (sent queued : List MessageDto)
      → unsent P s.outbound_queue ++ queued ≡ sent ++ unsent P u.outbound_queue
      → Orders s sent queued u
  exactly s u sent queued e =
      subst (λ x. Sublist (sent ++ unsent P u.outbound_queue) x) (sym e)
        (Sublist.refl (sent ++ unsent P u.outbound_queue))

  same_queue : (s u : Bridge P) → u.outbound_queue ≡ s.outbound_queue → Orders s [] [] u
  same_queue s u e =
      exactly s u [] [] (append-nil (unsent P s.outbound_queue) ∙ ap (unsent P) (sym e))

  -- The greeting that `spin` queues to keep the connection alive.
  unfoldable pub greetings : Bridge P → List MessageDto
  greetings s =
      if ltb 0 s.keep_alive_nb_spin
      then (if leb s.keep_alive_nb_spin s.keep_alive_counter
          then (if s.tcp_server.is_connected then create_greet_message P ∷ [] else [])
          else [])
      else []

  keep_alive-Orders : (s : Bridge P) → Orders s [] (greetings s) (keep_alive P s)
  unfolding keep_alive greetings
  keep_alive-Orders s = exactly s (keep_alive P s) [] (greetings s) (
      ground (
        arith,
        append-nil (unsent P s.outbound_queue),
        unsent-new P s.outbound_queue (create_greet_message P),
      ))

  -- A message is queued only with a client.
  unfoldable pub accepted : Bridge P → MessageDto → List MessageDto
  accepted s message = if s.tcp_server.is_connected then message ∷ [] else []

  queue_and_send-Orders :
      (s : Bridge P) (message : MessageDto)
      → Orders s [] (accepted s message) (queue_and_send P s message).0
  unfolding queue_and_send accepted
  queue_and_send-Orders s message =
      exactly s (queue_and_send P s message).0 [] (accepted s message) (
        ground
          (arith, append-nil (unsent P s.outbound_queue), unsent-new P s.outbound_queue message))

  taken :
      (s u : Bridge P) (sent front : List MessageDto) (rest : List (OutboundRequestHandle P))
      → Sublist sent front
      → unsent P s.outbound_queue ≡ front ++ unsent P rest
      → unsent P u.outbound_queue ≡ unsent P rest
      → Orders s sent [] u
  taken s u sent front rest part before after =
      rw (append-nil (unsent P s.outbound_queue), before, after)
        (Sublist.append part (Sublist.refl (unsent P rest)))

  module _ (s u : Bridge P) (effects : List (Effect P)) (h : OutboundRequestHandle P)
      (rest : List (OutboundRequestHandle P)) (q : s.outbound_queue ≡ h ∷ rest)
      (p : (u, effects) ≡ process P (record s { outbound_queue = rest }) h) where
    process-Orders : IsTimely P h → Orders s (messages P effects) [] u
    process-Orders timely = go h.state refl
      where
        go : (state : OutboundRequestState P) → h.state ≡ state → Orders s (messages P effects) [] u
        go OutboundRequestState.sent e =
            let (quiet, kept) = process-sent P (record s { outbound_queue = rest }) h timely e in
            taken s u (messages P effects) [] rest
              (rw (ap (λ x. messages P x.1) p, quiet) (Sublist.refl []))
              (ap (unsent P) q ∙ unsent-sent P h rest e)
              (ap (λ x. unsent P x.0.outbound_queue) p ∙ kept)
        go OutboundRequestState.ready e =
            let (cases, kept) = process-ready P (record s { outbound_queue = rest }) h timely e in
            taken s u (messages P effects) (h.message ∷ []) rest
              (rw (ap (λ x. messages P x.1) p) (elim cases [
                | inl none_sent ↦ rw none_sent (Sublist.cons h.message (Sublist.refl []))
                | inr one_sent ↦ rw one_sent (Sublist.refl (h.message ∷ []))
              ]))
              (ap (unsent P) q ∙ unsent-ready P h rest e)
              (ap (λ x. unsent P x.0.outbound_queue) p ∙ kept)

  outbound_round-Orders :
      (s u : Bridge P) (effects : List (Effect P))
      → outbound_round P s ≡ value (u, effects)
      → IsSound P s
      → Orders s (messages P effects) [] u
  unfolding messages
  outbound_round-Orders s u effects e sound = elim (outbound_round_cases P s u effects e) [
    | inl (_, same, none_sent) ↦
        rw (none_sent, messages) (same_queue s u (ap (λ x. x.outbound_queue) same))
    | inr (_, (h, rest, q, p)) ↦ process-Orders s u effects h rest q p (rw q at sound.timely).0
  ]

  Orders-append :
      (s t u : Bridge P) (sent sent' queued queued' : List MessageDto)
      → Orders s sent queued t
      → Orders t sent' queued' u
      → Orders s (sent ++ sent') (queued ++ queued') u
  Orders-append s t u sent sent' queued queued' before after =
      rw (append_assoc sent sent', ← append_assoc (unsent P s.outbound_queue) queued queued')
        (Sublist.trans (Sublist.append (Sublist.refl sent) after) (
          rw (← append_assoc sent (unsent P t.outbound_queue) queued')
            (Sublist.append before (Sublist.refl queued'))))

  module _ (rand : ℕ → ℕ) where
    -- What a step puts on the outbound queue.
    unfoldable pub queued :
        {t u : Bridge P} {effects : List (Effect P)} → Step P rand t effects u → List MessageDto
    queued (keeps_alive s) = greetings s
    queued (queues s message) = accepted s message
    queued _ = []

    -- What a round of the outbound loop gives to the serializer.
    unfoldable pub sent_by :
        {t u : Bridge P} {effects : List (Effect P)} → Step P rand t effects u → List MessageDto
    sent_by (sends s {effects = effects} up e) = messages P effects
    sent_by _ = []

    Step-Orders :
        {t u : Bridge P} {effects : List (Effect P)} (st : Step P rand t effects u)
        → IsSound P t
        → Orders t (sent_by st) (queued st) u
    unfolding queued sent_by register_custom_action on_connect on_disconnect on_bytes_received
        on_neighbor_list_updated on_neighbor_updated
    Step-Orders (connects s k down) sound =
        same_queue s (spin_disconnected P s k).0 (connected-queue P s k)
    Step-Orders (handles s {s'} {effects} e) sound =
        same_queue s s' (handle_front-queue P s s' effects e)
    Step-Orders {u} (sweeps s) sound = same_queue s u refl
    Step-Orders (keeps_alive s) sound = keep_alive-Orders s
    Step-Orders (receives s lost received up) sound =
        same_queue s (inbound_round P s lost received).0 (received-queue P s lost received)
    Step-Orders (sends s {s'} {effects} up e) sound = outbound_round-Orders s s' effects e sound
    Step-Orders {u} (finishes s before after h e) sound = same_queue s u refl
    Step-Orders {u} (registers s name f a) sound = same_queue s u refl
    Step-Orders {u} (draws s) sound = same_queue s u refl
    Step-Orders (queues s message) sound = queue_and_send-Orders s message
    Step-Orders {u} (reports s level text) sound = same_queue s u refl
    Step-Orders {u} (sets_connect s hook) sound = same_queue s u refl
    Step-Orders {u} (sets_disconnect s hook) sound = same_queue s u refl
    Step-Orders {u} (sets_bytes s hook) sound = same_queue s u refl
    Step-Orders {u} (sets_list s hook) sound = same_queue s u refl
    Step-Orders {u} (sets_neighbor s hook) sound = same_queue s u refl

    unfoldable pub all_queued :
        {s u : Bridge P} {effects : List (Effect P)} → Run P rand s effects u → List MessageDto
    all_queued (here) = []
    all_queued (next r st) = all_queued r ++ queued st

    unfoldable pub all_sent :
        {s u : Bridge P} {effects : List (Effect P)} → Run P rand s effects u → List MessageDto
    all_sent (here) = []
    all_sent (next r st) = all_sent r ++ sent_by st

    -- However the threads interleave, a sound bridge sends no queued message twice and lets none
    -- overtake another: what the outbound thread gave to the serializer in a run, and then what is
    -- still unsent after it, is in order among what was unsent before the run and what was queued in
    -- it.
    pub run_sends_in_order :
        {s u : Bridge P} {effects : List (Effect P)} (r : Run P rand s effects u)
        → IsSound P s
        → Orders s (all_sent r) (all_queued r) u
    unfolding all_sent all_queued
    run_sends_in_order {s} (here) sound = same_queue s s refl
    run_sends_in_order {s} (next {effects} {later} {t} {u} r st) sound =
        Orders-append s t u (all_sent r) (sent_by st) (all_queued r) (queued st)
          (run_sends_in_order r sound) (Step-Orders st (Run-IsSound P rand r sound))
