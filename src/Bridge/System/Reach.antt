-- ===== src/Bridge/System/Reach.antt =====
-- The invariant holds after every run.
use hive_mind_bridge.Prelude.{
  All, String, ℕ, ◌+◌, ◌≡◌, refl, ◌⊎◌, inl, inr, true, false, List, [], ◌∷◌, arith, value, Access,
  undefined_behaviour, uncaught_exception, Outcome, nat_eq, Bool-cases,
}
use hive_mind_bridge.Pheromones.{Pheromones}
use hive_mind_bridge.Effect.{Effect}
use hive_mind_bridge.Callback.{CallbackFunction, CallbackArgsManifest}
use hive_mind_bridge.Handle.{OutboundRequestHandle}
use hive_mind_bridge.UserCallbackMap.Invariant.{register_callback-IsConsistent}
use hive_mind_bridge.MessageHandler.{Handlers, Handled, handle_message}
use hive_mind_bridge.MessageHandler.Total.{IsKept, IsPastEnd, handle_message-total}
use hive_mind_bridge.TcpServer
use hive_mind_bridge.TcpServer.{TcpServer, lose_if}
use hive_mind_bridge.Bridge.{Bridge}
use hive_mind_bridge.Bridge.Outbound.Delivery.{outbound_round-cons}
use hive_mind_bridge.Bridge.Outbound.{outbound_round}
use hive_mind_bridge.Bridge.Spin.{handle_front}
use hive_mind_bridge.Bridge.Spin.Inbound.{
  handle_front-value, handle_front-fault, handle_front-empty,
}
use hive_mind_bridge.Bridge.Spin.Returns.{sweep_lem}
use hive_mind_bridge.Bridge.Requests.{
  register_custom_action, on_connect, on_disconnect, on_bytes_received, on_neighbor_list_updated,
  on_neighbor_updated,
}
use hive_mind_bridge.Bridge.System.{
  Step, connects, handles, sweeps, keeps_alive, receives, sends, finishes, registers, draws, queues,
  reports, sets_connect, sets_disconnect, sets_bytes, sets_list, sets_neighbor, Run, here, next,
}
use hive_mind_bridge.Bridge.System.Invariant.{
  IsSound-changed, connects-IsSound, accept-IsSound, still_running-IsKnown, keep_alive-IsSound,
  queue_and_send-IsSound, inbound_round-IsSound, process-IsSound, register-IsKnown,
  finished-IsKnown, IsTimely, IsSound,
}

module _ (P : Pheromones) where
  pub outbound_round-idle :
      (s : Bridge P)
      → (s.tcp_server.is_connected ≡ false) ⊎ (s.outbound_queue ≡ [])
      → outbound_round P s ≡ value (s, [])
  unfolding outbound_round
  outbound_round-idle s (inl down) = ground arith
  outbound_round-idle s (inr e) = ground arith

  -- The outbound thread meets no fault.
  pub outbound_round-Outcome :
      (s : Bridge P) → IsSound P s → Outcome (λ (s', effects). IsSound P s') ⊥ (outbound_round P s)
  outbound_round-Outcome s h = elim (Bool-cases s.tcp_server.is_connected) [
    | inr down ↦ rw (outbound_round-idle s (inl down)) h
    | inl up ↦ go s.outbound_queue refl up
  ]
    where
      go :
          (q : List (OutboundRequestHandle P))
          → s.outbound_queue ≡ q
          → s.tcp_server.is_connected ≡ true
          → Outcome (λ (s', effects). IsSound P s') ⊥ (outbound_round P s)
      go [] e up = rw (outbound_round-idle s (inr e)) h
      go (k ∷ rest) e up =
          let timely : All (IsTimely P) (k ∷ rest) = rw e at h.timely in
          rw (outbound_round-cons P s k rest up e) (
            process-IsSound P (record s { outbound_queue = rest }) k
              (IsSound-changed P s (record s { outbound_queue = rest }) refl refl h.served timely.1
                h.counter h)
              timely.0)

  -- The handling of the first message meets no fault, unless it asks for the description at the length.
  pub handle_front-Outcome :
      (s : Bridge P)
      → IsSound P s
      → Outcome
          (λ (s', effects). IsSound P s')
          ((message : P.MessageDto) × (rest : List P.MessageDto) × (s.inbound_queue
              ≡ message ∷ rest)
            × IsPastEnd P s.handlers message)
          (handle_front P s)
  handle_front-Outcome s h = go s.inbound_queue refl
    where
      F : Type 0
      F =
          (message : P.MessageDto) × (rest : List P.MessageDto) × (s.inbound_queue ≡ message ∷ rest)
          × IsPastEnd P s.handlers message

      handled :
          (message : P.MessageDto) (rest : List P.MessageDto)
          (a : Access (Handlers P × Handled P × List (Effect P)))
          → s.inbound_queue ≡ message ∷ rest
          → handle_message P s.handlers message ≡ a
          → Outcome (IsKept P s.handlers) (IsPastEnd P s.handlers message) a
          → Outcome (λ (s', effects). IsSound P s') F (handle_front P s)
      handled message rest (value (hs, r, es)) e a (kept, known, _) =
          rw (handle_front-value P s message rest hs r es e a) (
            accept-IsSound P (record s { handlers = hs; inbound_queue = rest }) r
              (record {
                consistent = rw kept h.consistent;
                known = rw kept h.known;
                served = h.served;
                timely = h.timely;
                counter = h.counter;
              })
              (rw kept known))
      handled message rest undefined_behaviour e a past =
          rw (handle_front-fault P s message rest e a) (message, rest, e, past)
      handled message rest uncaught_exception e a none_escapes = absurd none_escapes

      go :
          (q : List P.MessageDto)
          → s.inbound_queue ≡ q
          → Outcome (λ (s', effects). IsSound P s') F (handle_front P s)
      go [] e = rw (handle_front-empty P s e) h
      go (message ∷ rest) e =
          handled message rest (handle_message P s.handlers message) e refl
            (handle_message-total P s.handlers message h.consistent)

  registers-IsSound :
      (s : Bridge P) (name : String) (f : CallbackFunction P) (a : CallbackArgsManifest P)
      → IsSound P s
      → IsSound P (register_custom_action P s name f a).0
  unfolding register_custom_action
  registers-IsSound s name f a h = record {
    consistent = register_callback-IsConsistent P s.handlers.callback_map name f a h.consistent;
    known = register-IsKnown P s.handlers.callback_map name f a s.inbound_requests_queue h.known;
    served = h.served;
    timely = h.timely;
    counter = h.counter;
  }

  module _ (rand : ℕ → ℕ) where
    -- Every step keeps a bridge sound.
    Step-IsSound :
        {s u : Bridge P} {effects : List (Effect P)}
        → Step P rand s effects u
        → IsSound P s
        → IsSound P u
    unfolding TcpServer.on_connect TcpServer.on_disconnect
    Step-IsSound (connects s c down) h = connects-IsSound P s c h
    Step-IsSound (handles s e) h = rw e at (handle_front-Outcome s h)
    Step-IsSound (sweeps s) h = record {
      consistent = h.consistent;
      known =
          rw ((sweep_lem P rand s.drawn s.inbound_requests_queue).0)
            (still_running-IsKnown P s.handlers.callback_map s.inbound_requests_queue h.known);
      served = h.served;
      timely = h.timely;
      counter = h.counter;
    }
    Step-IsSound (keeps_alive s) h = keep_alive-IsSound P s h
    Step-IsSound (receives s lost received up) h = inbound_round-IsSound P s lost received h
    Step-IsSound (sends s up e) h = rw e at (outbound_round-Outcome s h)
    Step-IsSound (finishes s before after c e) h = record {
      consistent = h.consistent;
      known = finished-IsKnown P s.handlers.callback_map before after c (rw e at h.known);
      served = h.served;
      timely = h.timely;
      counter = h.counter;
    }
    Step-IsSound (registers s name f a) h = registers-IsSound s name f a h
    Step-IsSound (draws s) h =
        IsSound-changed P s (record s { drawn = s.drawn + 1 }) refl refl h.served h.timely h.counter
          h
    Step-IsSound (queues s message) h = queue_and_send-IsSound P s message h
    Step-IsSound (reports s level text) h = h
    Step-IsSound (sets_connect s hook) h =
        unfold on_connect on_disconnect in
        IsSound-changed P s (on_connect P s hook) refl refl h.served h.timely h.counter h
    Step-IsSound (sets_disconnect s hook) h =
        unfold on_connect on_disconnect in
        IsSound-changed P s (on_disconnect P s hook) refl refl h.served h.timely h.counter h
    Step-IsSound (sets_bytes s hook) h =
        unfold on_bytes_received in
        record {
          consistent = h.consistent;
          known = h.known;
          served = h.served;
          timely = h.timely;
          counter = h.counter;
        }
    Step-IsSound (sets_list s hook) h =
        unfold on_neighbor_list_updated in
        record {
          consistent = h.consistent;
          known = h.known;
          served = h.served;
          timely = h.timely;
          counter = h.counter;
        }
    Step-IsSound (sets_neighbor s hook) h =
        unfold on_neighbor_updated in
        record {
          consistent = h.consistent;
          known = h.known;
          served = h.served;
          timely = h.timely;
          counter = h.counter;
        }

    -- Whatever the threads do, a bridge that was sound stays sound: the callbacks are consistent; every
    -- running call is of a registered function; where there is a client, both threads were started; a
    -- handle that is new has no delay, and one that was sent holds a request and has a delay below 10;
    -- and the keep-alive counter is at most its interval.
    pub Run-IsSound :
        {s u : Bridge P} {effects : List (Effect P)}
        → Run P rand s effects u
        → IsSound P s
        → IsSound P u
    Run-IsSound (here) h = h
    Run-IsSound (next r st) h = Step-IsSound st (Run-IsSound r h)
