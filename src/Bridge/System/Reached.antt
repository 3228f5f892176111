-- ===== src/Bridge/System/Reached.antt =====
-- What holds of every bridge that the threads reach from a new one.
use hive_mind_bridge.Prelude.{
  All-split, String, ℕ, ◌≡◌, ap, inl, inr, true, false, some, List, ◌∷◌, ◌++◌, arith, is_set,
  Outcome, nat_eq, Option-cases, Outcome-value,
}
use hive_mind_bridge.Pheromones.{Pheromones}
use hive_mind_bridge.Effect.{Effect}
use hive_mind_bridge.Callback.{CallbackFunction}
use hive_mind_bridge.Handle.{InboundRequestHandle, running, ready}
use hive_mind_bridge.UserCallbackMap.{get_callback}
use hive_mind_bridge.UserCallRequestHandler.{finish_call, caught}
use hive_mind_bridge.MessageHandler.Total.{IsPastEnd}
use hive_mind_bridge.TcpServer.{TcpServer}
use hive_mind_bridge.Bridge.{Bridge, new_bridge}
use hive_mind_bridge.Bridge.Outbound.{outbound_round}
use hive_mind_bridge.Bridge.Spin.{handle_front}
use hive_mind_bridge.Bridge.Spin.Calls.{finish_call-found}
use hive_mind_bridge.Bridge.System.{Run}
use hive_mind_bridge.Bridge.System.Invariant.{IsKnown, IsSound, new_bridge-IsSound}
use hive_mind_bridge.Bridge.System.Reach.{outbound_round-Outcome, handle_front-Outcome, Run-IsSound}

module _ (P : Pheromones) (rand : ℕ → ℕ) where
  module _ (server : TcpServer) (n : ℕ) (down : server.is_connected ≡ false) {s : Bridge P}
      {effects : List (Effect P)} (r : Run P rand (new_bridge P server n) effects s) where
    reached : IsSound P s
    reached = Run-IsSound P rand r (new_bridge-IsSound P server n down)

    -- On every bridge that the threads reach from a new one without a client, no pass meets undefined
    -- behaviour and no exception escapes, but for one case: `spin` handles a request that asks for the
    -- description of the index at the length.
    pub run_faults :
        Outcome (λ x. Unit) ⊥ (outbound_round P s)
        × Outcome
            (λ x. Unit)
            ((message : P.MessageDto) × (rest : List P.MessageDto) × (s.inbound_queue
                ≡ message ∷ rest)
              × IsPastEnd P s.handlers message)
            (handle_front P s)
    run_faults = (
      Outcome-value _ _ ⊥ (outbound_round P s) (λ x k. tt) (outbound_round-Outcome P s reached),
      Outcome-value _ _ _ (handle_front P s) (λ x k. tt) (handle_front-Outcome P s reached),
    )

    -- On every bridge that the threads reach from a new one without a client, a running call finds its
    -- function: at its end the function has been called with the arguments, and what it returned is
    -- ready, or nothing where it threw.
    pub run_calls_registered :
        (before after : List (InboundRequestHandle P)) (h : InboundRequestHandle P)
        (args : List P.FunctionCallArgumentDto) (name : String)
        → s.inbound_requests_queue ≡ before ++ h ∷ after
        → h.callback_return_context ≡ running args name
        → (f : CallbackFunction P) × (get_callback P s.handlers.callback_map name ≡ some f)
          × (finish_call P s.handlers.callback_map h.callback_return_context
              ≡ (ready (caught P (f args)).0, (caught P (f args)).1))
    run_calls_registered before after h args name queue runs =
        elim (Option-cases (get_callback P s.handlers.callback_map name)) [
          | inl missing ↦ absurd (ground (arith, ap is_set missing, known))
          | inr (f, found) ↦
              (f, found, finish_call-found P s.handlers.callback_map h args name f runs found)
        ]
      where
        known : is_set (get_callback P s.handlers.callback_map name) ≡ true
        known =
            let (_, (first, _)) =
              All-split (IsKnown P s.handlers.callback_map) before (h ∷ after)
                (rw queue at reached.known) in
            rw runs at first
