-- ===== src/Bridge/System/Silent.antt =====
-- Passes that only log and send messages, and leave the server alone.
use hive_mind_bridge.Prelude.{
  ℕ, ◌≡◌, refl, inl, inr, Option-cases, none, some, List, [], ◌∷◌, All, All-append, arith,
}
use hive_mind_bridge.Pheromones.{Pheromones}
use hive_mind_bridge.Effect.Calls.{IsPlain}
use hive_mind_bridge.Callback.{CallOutcome}
use hive_mind_bridge.Handle.{
  Future, InboundRequestHandle, OutboundRequestHandle, invalid, running, ready,
}
use hive_mind_bridge.UserCallbackMap.{UserCallbackMap, get_callback}
use hive_mind_bridge.UserCallRequestHandler.{finish_call, callback_wrapper, caught}
use hive_mind_bridge.MessageHandler.{Handled, nothing, inbound_request, inbound_response}
use hive_mind_bridge.Bridge.{Bridge, queue_and_send}
use hive_mind_bridge.Bridge.Outbound.{process}
use hive_mind_bridge.Bridge.Spin.{accept, sweep, send_return, keep_alive}

module _ (P : Pheromones) where
  pub accept-IsPlain : (s : Bridge P) (r : Handled P) → All (IsPlain P) (accept P s r).1
  unfolding accept
  accept-IsPlain s (nothing) = tt
  accept-IsPlain s (inbound_request h) = (tt, tt)
  accept-IsPlain s (inbound_response h) = tt

  pub accept-server : (s : Bridge P) (r : Handled P) → (accept P s r).0.tcp_server ≡ s.tcp_server
  unfolding accept
  accept-server s (nothing) = refl
  accept-server s (inbound_request h) = refl
  accept-server s (inbound_response h) = refl

  pub process-IsPlain :
      (s : Bridge P) (h : OutboundRequestHandle P) → All (IsPlain P) (process P s h).1
  unfolding process
  process-IsPlain s h = ground arith

  pub process-server :
      (s : Bridge P) (h : OutboundRequestHandle P) → (process P s h).0.tcp_server ≡ s.tcp_server
  unfolding process
  process-server s h = ground arith

  pub send_return-IsPlain :
      (rand : ℕ → ℕ) (drawn : ℕ) (h : InboundRequestHandle P) (r : _)
      → All (IsPlain P) (send_return P rand drawn h r).1
  unfolding send_return
  send_return-IsPlain rand drawn h none = tt
  send_return-IsPlain rand drawn h (some ret) = ground arith

  pub sweep-IsPlain :
      (rand : ℕ → ℕ) (drawn : ℕ) (q : List (InboundRequestHandle P))
      → All (IsPlain P) (sweep P rand drawn q).2
  unfolding sweep
  sweep-IsPlain rand drawn [] = tt
  sweep-IsPlain rand drawn (h ∷ q) =
      elim h.callback_return_context
        as (λ f.
          All (IsPlain P) (sweep P rand drawn (record h { callback_return_context = f } ∷ q)).2) [
            | invalid ↦ sweep-IsPlain rand drawn q
            | running args name ↦ sweep-IsPlain rand drawn q
            | ready r ↦
                All-append (IsPlain P) (send_return P rand drawn h r).1
                  (sweep P rand (send_return P rand drawn h r).0 q).2
                  (send_return-IsPlain rand drawn h r)
                  (sweep-IsPlain rand (send_return P rand drawn h r).0 q)
          ]

  caught-IsPlain : (r : CallOutcome P) → All (IsPlain P) (caught P r).1
  unfolding caught
  caught-IsPlain r = ground arith

  pub finish_call-IsPlain :
      (m : UserCallbackMap P) (f : Future P) → All (IsPlain P) (finish_call P m f).1
  unfolding finish_call callback_wrapper
  finish_call-IsPlain m (invalid) = tt
  finish_call-IsPlain m (ready r) = tt
  finish_call-IsPlain m (running args name) = elim (Option-cases (get_callback P m name)) [
    | inl missing ↦ rw (missing, All) (tt, tt)
    | inr (f, found) ↦ rw (found, All) (caught-IsPlain (f args))
  ]

  pub keep_alive-server : (s : Bridge P) → (keep_alive P s).tcp_server ≡ s.tcp_server
  unfolding keep_alive
  keep_alive-server s = ground arith

  pub queue_and_send-server :
      (s : Bridge P) (message : P.MessageDto)
      → (queue_and_send P s message).0.tcp_server ≡ s.tcp_server
  unfolding queue_and_send
  queue_and_send-server s message = ground arith
