-- ===== src/Bridge/System/Payloads.antt =====
-- The payloads that a run collects, as a function of what was handled and set in it.
use hive_mind_bridge.Prelude.{
  ℕ, ◌≡◌, refl, sym, ap, ap₂, ◌∙◌, inl, inr, Bool, Option, none, some, List, [], ◌∷◌, ◌++◌,
  append_assoc, All, arith, value,
}
use hive_mind_bridge.Pheromones.{Pheromones}
use hive_mind_bridge.Effect.{Effect, logged}
use hive_mind_bridge.Effect.Calls.{IsPlain, delivered, delivered-append, delivered-IsPlain}
use hive_mind_bridge.MessageHandler.{Handled, nothing, inbound_request, inbound_response}
use hive_mind_bridge.MessageHandler.Packets.{bytes_of, receive, handle_message-Receives}
use hive_mind_bridge.HiveMindHostApiRequestHandler
use hive_mind_bridge.HiveMindHostApiRequestHandler.{HiveMindHostApiRequestHandler, handle_bytes}
use hive_mind_bridge.TcpServer.{listen, close, lose_if, lose_client}
use hive_mind_bridge.UserCallRequestHandler.{finish_call}
use hive_mind_bridge.Bridge.{Bridge, queue_and_send}
use hive_mind_bridge.Bridge.Outbound.{inbound_round, outbound_round, process}
use hive_mind_bridge.Bridge.Requests.{
  register_custom_action, on_connect, on_disconnect, on_bytes_received, on_neighbor_list_updated,
  on_neighbor_updated,
}
use hive_mind_bridge.Bridge.Spin.{
  Connection, accept, handle_front, sweep, greet, spin_disconnected, keep_alive,
}
use hive_mind_bridge.Bridge.System.{
  Step, connects, handles, sweeps, keeps_alive, receives, sends, finishes, registers, draws, queues,
  reports, sets_connect, sets_disconnect, sets_bytes, sets_list, sets_neighbor, Run, here, next,
}
use hive_mind_bridge.Bridge.System.Front.{handle_front_cases, outbound_round_cases}
use hive_mind_bridge.Bridge.System.Inbox.{first}
use hive_mind_bridge.Bridge.System.Invariant.{IsSound}
use hive_mind_bridge.Bridge.System.Reach.{Run-IsSound}
use hive_mind_bridge.Bridge.System.Silent.{
  accept-IsPlain, process-IsPlain, sweep-IsPlain, finish_call-IsPlain,
}

module _ (P : Pheromones) where
  open P use {MessageDto, BytesDto}

  -- What concerns the payloads: a packet that is handled, and a new callback.
  pub data Input : Type 0 where
    packet : BytesDto → Input
    callback : Option ℕ → Input

  -- The packets in messages, in their order.
  unfoldable pub packets : List MessageDto → List Input
  packets [] = []
  packets (message ∷ rest) =
      let later = packets rest in
      elim (bytes_of P message) [ none ↦ later | some b ↦ packet b ∷ later ]

  unfoldable pub collect :
      HiveMindHostApiRequestHandler → Input → HiveMindHostApiRequestHandler × List (Effect P)
  collect h (packet b) = handle_bytes P h b
  collect h (callback hook) = ((HiveMindHostApiRequestHandler.on_bytes_received h hook).0, [])

  unfoldable pub collect_all :
      HiveMindHostApiRequestHandler → List Input → HiveMindHostApiRequestHandler × List (Effect P)
  collect_all h [] = (h, [])
  collect_all h (i ∷ is) =
      let (h', effects) = collect h i in
      let (h'', later) = collect_all h' is in (h'', effects ++ later)

  pub collect_all-append :
      (h : HiveMindHostApiRequestHandler) (is js : List Input)
      → collect_all h (is ++ js) ≡ (
        (collect_all (collect_all h is).0 js).0,
        (collect_all h is).1 ++ (collect_all (collect_all h is).0 js).1,
      )
  unfolding collect_all
  collect_all-append h [] js = refl
  collect_all-append h (i ∷ is) js =
      rw (collect_all-append (collect h i).0 is js) (rw (append_assoc (collect h i).1) refl)

  -- From `s` to `u`, the payloads and the calls of the callback for bytes are those of the inputs.
  abbrev pub Collects : Bridge P → List (Effect P) → List Input → Bridge P → Type 0
  Collects s effects is u =
      (u.handlers.request_handler ≡ (collect_all s.handlers.request_handler is).0)
      × (delivered P effects ≡ delivered P (collect_all s.handlers.request_handler is).1)

  Collects-append :
      (s t u : Bridge P) (es fs : List (Effect P)) (is js : List Input)
      → Collects s es is t
      → Collects t fs js u
      → Collects s (es ++ fs) (is ++ js) u
  Collects-append s t u es fs is js (h, d) (h', d') =
      let both = collect_all-append s.handlers.request_handler is js in
      (
        h' ∙ ap (λ x. (collect_all x js).0) h ∙ sym (ap (λ x. x.0) both),
        delivered-append P es fs
            ∙ ap₂ (λ x y. x ++ y) d (d' ∙ ap (λ x. delivered P (collect_all x js).1) h)
            ∙ sym (
                delivered-append P (collect_all s.handlers.request_handler is).1
                  (collect_all (collect_all s.handlers.request_handler is).0 js).1)
            ∙ sym (ap (λ x. delivered P x.1) both),
      )

  untouched :
      (s u : Bridge P) (effects : List (Effect P))
      → u.handlers.request_handler ≡ s.handlers.request_handler
      → All (IsPlain P) effects
      → Collects s effects [] u
  unfolding collect_all delivered
  untouched s u effects same plain = (same, delivered-IsPlain P effects plain)

  connects-Collects :
      (s : Bridge P) (k : Connection P)
      → Collects s (spin_disconnected P s k).1 [] (spin_disconnected P s k).0
  unfolding collect_all delivered spin_disconnected greet listen close lose_if lose_client
  connects-Collects s k = ground arith

  inbound_round-Collects :
      (s : Bridge P) (lost : Bool) (received : Option MessageDto)
      → Collects s (inbound_round P s lost received).1 [] (inbound_round P s lost received).0
  unfolding collect_all delivered inbound_round lose_if lose_client close
  inbound_round-Collects s lost received = ground arith

  accept-request_handler :
      (s : Bridge P) (r : Handled P)
      → (accept P s r).0.handlers.request_handler ≡ s.handlers.request_handler
  unfolding accept
  accept-request_handler s (nothing) = refl
  accept-request_handler s (inbound_request h) = refl
  accept-request_handler s (inbound_response h) = refl

  packets-one :
      (h : HiveMindHostApiRequestHandler) (message : MessageDto)
      → collect_all h (packets (message ∷ []))
        ≡ ((receive P h (bytes_of P message)).0, (receive P h (bytes_of P message)).1 ++ [])
  unfolding collect_all collect packets receive
  packets-one h message = ground arith

  handle_front-Collects :
      (s u : Bridge P) (effects : List (Effect P))
      → handle_front P s ≡ value (u, effects)
      → IsSound P s
      → Collects s effects (packets (first P s.inbound_queue)) u
  unfolding collect_all packets first delivered
  handle_front-Collects s u effects e sound = elim (handle_front_cases P s u effects e) [
    | inl (none_queued, same, none_sent) ↦ rw (none_queued, first, same, none_sent) (refl, refl)
    | inr (message, rest, hs, r, es, q, a, ends, sent) ↦
        let (kept, given) =
          rw a at (handle_message-Receives P s.handlers message sound.consistent) in
        let h = s.handlers.request_handler in
        let one = packets-one h message in
        let s' = record s { handlers = hs; inbound_queue = rest } in
        rw (q, first)
          (
            ap (λ x. x.handlers.request_handler) ends
                ∙ accept-request_handler s' r
                ∙ kept
                ∙ sym (ap (λ x. x.0) one),
            ap (delivered P) sent
                ∙ delivered-append P es (accept P s' r).1
                ∙ ap₂ (λ x y. x ++ y) given
                    (delivered-IsPlain P (accept P s' r).1 (accept-IsPlain P s' r))
                ∙ sym (delivered-append P (receive P h (bytes_of P message)).1 [])
                ∙ sym (ap (λ x. delivered P x.1) one),
          )
  ]

  outbound_round-Collects :
      (s u : Bridge P) (effects : List (Effect P))
      → outbound_round P s ≡ value (u, effects)
      → Collects s effects [] u
  unfolding process
  outbound_round-Collects s u effects e = elim (outbound_round_cases P s u effects e) [
    | inl (_, same, none_sent) ↦
        untouched s u effects (ap (λ x. x.handlers.request_handler) same) (rw none_sent tt)
    | inr (_, (h, rest, _, p)) ↦
        untouched s u effects (ap (λ x. x.0.handlers.request_handler) p ∙ ground arith)
          (rw (ap (λ x. x.1) p) (process-IsPlain P (record s { outbound_queue = rest }) h))
  ]

  keep_alive-Collects : (s : Bridge P) → Collects s [] [] (keep_alive P s)
  unfolding keep_alive collect_all
  keep_alive-Collects s = ground arith

  queue_and_send-Collects :
      (s : Bridge P) (message : MessageDto) → Collects s [] [] (queue_and_send P s message).0
  unfolding queue_and_send collect_all
  queue_and_send-Collects s message = ground arith

  module _ (rand : ℕ → ℕ) where
    -- What a step handles or sets.
    unfoldable pub inputs :
        {t u : Bridge P} {effects : List (Effect P)} → Step P rand t effects u → List Input
    inputs (handles s e) = packets (first P s.inbound_queue)
    inputs (sets_bytes s hook) = callback hook ∷ []
    inputs _ = []

    Step-Collects :
        {t u : Bridge P} {effects : List (Effect P)} (st : Step P rand t effects u)
        → IsSound P t
        → Collects t effects (inputs st) u
    unfolding inputs collect_all collect register_custom_action on_connect on_disconnect
        on_bytes_received on_neighbor_list_updated on_neighbor_updated
        HiveMindHostApiRequestHandler.on_bytes_received
    Step-Collects (connects s k down) sound = connects-Collects s k
    Step-Collects (handles s {s'} {effects} e) sound = handle_front-Collects s s' effects e sound
    Step-Collects {u} (sweeps s) sound =
        untouched s u (sweep P rand s.drawn s.inbound_requests_queue).2 refl
          (sweep-IsPlain P rand s.drawn s.inbound_requests_queue)
    Step-Collects (keeps_alive s) sound = keep_alive-Collects s
    Step-Collects (receives s lost received up) sound = inbound_round-Collects s lost received
    Step-Collects (sends s {s'} {effects} up e) sound = outbound_round-Collects s s' effects e
    Step-Collects {u} (finishes s before after h e) sound =
        untouched s u (finish_call P s.handlers.callback_map h.callback_return_context).1 refl
          (finish_call-IsPlain P s.handlers.callback_map h.callback_return_context)
    Step-Collects (registers s name f a) sound = (refl, refl)
    Step-Collects (draws s) sound = (refl, refl)
    Step-Collects (queues s message) sound = queue_and_send-Collects s message
    Step-Collects (reports s level text) sound =
        untouched s s (logged level text ∷ []) refl (tt, tt)
    Step-Collects (sets_connect s hook) sound = (refl, refl)
    Step-Collects (sets_disconnect s hook) sound = (refl, refl)
    Step-Collects (sets_bytes s hook) sound = (refl, refl)
    Step-Collects (sets_list s hook) sound = (refl, refl)
    Step-Collects (sets_neighbor s hook) sound = (refl, refl)

    -- What a run handles and sets, in order.
    unfoldable pub all_inputs :
        {s u : Bridge P} {effects : List (Effect P)} → Run P rand s effects u → List Input
    all_inputs (here) = []
    all_inputs (next r st) = all_inputs r ++ inputs st

    -- However the threads interleave, the payloads of a sound bridge and the calls of the callback for
    -- bytes depend only on the packets that were handled and on the callbacks that were set, in their
    -- order: they are what `handleBytes` and `onBytesReceived` make of these, one after the other.
    pub Run-Collects :
        {s u : Bridge P} {effects : List (Effect P)} (r : Run P rand s effects u)
        → IsSound P s
        → Collects s effects (all_inputs r) u
    unfolding all_inputs collect_all
    Run-Collects (here) sound = (refl, refl)
    Run-Collects {s} (next {effects} {later} {t} {u} r st) sound =
        Collects-append s t u effects later (all_inputs r) (inputs st) (Run-Collects r sound)
          (Step-Collects st (Run-IsSound P rand r sound))
