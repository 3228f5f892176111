-- ===== src/Bridge/System/Invariant.antt =====
-- What holds of a bridge between any two steps.
use hive_mind_bridge.Prelude.{
  All, All-append, All-split, String, ℕ, ◌+◌, ◌^◌, ◌≤◌, ◌<◌, ◌≡◌, refl, ◌⊎◌, inl, inr, Bool, true,
  false, Option, List, [], ◌∷◌, ◌++◌, arith, nat_eq,
}
use native.Mathlib.Nat.{mod-le}
use hive_mind_bridge.Pheromones.{Pheromones}
use hive_mind_bridge.Pheromones
use hive_mind_bridge.Callback.{CallbackFunction, CallbackArgsManifest}
use hive_mind_bridge.Handle.{
  Future, InboundRequestHandle, OutboundRequestHandle, OutboundRequestState, invalid, running,
  ready, outbound_request_handle, bump_delay_since_sent,
}
use hive_mind_bridge.UserCallbackMap.{UserCallbackMap, register_callback}
use hive_mind_bridge.UserCallbackMap.Invariant.{IsConsistent, new_callback_map-IsConsistent}
use hive_mind_bridge.UserCallbackMap.Registry.{get_callback-register}
use hive_mind_bridge.UserCallRequestHandler.{finish_call}
use hive_mind_bridge.UserCallRequestHandler.Total.{IsKnownCall}
use hive_mind_bridge.MessageHandler.{Handled, nothing, inbound_request, inbound_response}
use hive_mind_bridge.MessageHandler.Total.{StartsKnown}
use hive_mind_bridge.TcpServer.{TcpServer, lose_if}
use hive_mind_bridge.Bridge.{Bridge, new_bridge, queue_and_send}
use hive_mind_bridge.MessageUtils.{create_greet_message}
use hive_mind_bridge.Bridge.Outbound.Delivery.{mark_sent}
use hive_mind_bridge.Bridge.Outbound.{inbound_round, process}
use hive_mind_bridge.Bridge.Spin.{Connection, accept, spin_disconnected, keep_alive}
use hive_mind_bridge.Bridge.Spin.Calls.{finished}
use hive_mind_bridge.Bridge.Spin.Connect.{spin_disconnected_lem}
use hive_mind_bridge.Bridge.Spin.Returns.{still_running}

module _ (P : Pheromones) where
  -- The message is a request.
  abbrev pub holds_request : P.MessageDto → Bool
  holds_request message = elim (P.get_message message) [
    | Pheromones.MessageBody.request r ↦ true
    | _ ↦ false
  ]

  -- A handle is new, or it holds a request and its delay is below the limit.
  abbrev pub IsTimely : OutboundRequestHandle P → Type 0
  IsTimely h = elim h.state [
    | OutboundRequestState.ready ↦ h.delay_since_sent ≡ 0
    | OutboundRequestState.sent ↦ (h.delay_since_sent < 10) × (holds_request h.message ≡ true)
  ]

  abbrev pub IsKnown : UserCallbackMap P → InboundRequestHandle P → Type 0
  IsKnown m h = IsKnownCall P m h.callback_return_context

  -- Both threads were started, or there is no client.
  abbrev pub IsServed : Bridge P → Type 0
  IsServed s =
      (s.tcp_server.is_connected ≡ false) ⊎ ((s.inbound_thread ≡ true) × (s.outbound_thread ≡ true))

  pub record IsSound (s : Bridge P) : Type 0 where
    pub consistent : IsConsistent P s.handlers.callback_map
    pub known : All (IsKnown s.handlers.callback_map) s.inbound_requests_queue
    pub served : IsServed s
    pub timely : All IsTimely s.outbound_queue
    pub counter : s.keep_alive_counter ≤ s.keep_alive_nb_spin

  -- A bridge starts sound.
  pub new_bridge-IsSound :
      (server : TcpServer) (n : ℕ) → server.is_connected ≡ false → IsSound (new_bridge P server n)
  unfolding new_bridge
  new_bridge-IsSound server n down = record {
    consistent = new_callback_map-IsConsistent P;
    known = tt;
    served = inl down;
    timely = tt;
    counter = omega arith;
  }

  -- A step that leaves the callbacks and the calls alone.
  pub IsSound-changed :
      (s s' : Bridge P)
      → s'.handlers ≡ s.handlers
      → s'.inbound_requests_queue ≡ s.inbound_requests_queue
      → IsServed s'
      → All IsTimely s'.outbound_queue
      → s'.keep_alive_counter ≤ s'.keep_alive_nb_spin
      → IsSound s
      → IsSound s'
  IsSound-changed s s' kept calls served timely counter h = record {
    consistent = rw kept h.consistent;
    known = rw (kept, calls) h.known;
    served = served;
    timely = timely;
    counter = counter;
  }

  pub connects-IsSound :
      (s : Bridge P) (c : Connection P) → IsSound s → IsSound (spin_disconnected P s c).0
  unfolding spin_disconnected
  connects-IsSound s c h =
      IsSound-changed s (spin_disconnected P s c).0 (ground arith) (ground arith)
        (elim (spin_disconnected_lem P s c) [
          | inl (_, (id, _, inbound, outbound, _, _)) ↦ inr (inbound, outbound)
          | inr (_, _, _, _, down) ↦ inl down
        ])
        (ground (arith, h.timely)) (ground (arith, h.counter)) h

  pub accept-IsSound :
      (s : Bridge P) (handled : Handled P)
      → IsSound s
      → StartsKnown P s.handlers.callback_map handled
      → IsSound (accept P s handled).0
  unfolding accept
  accept-IsSound s (nothing) h k = h
  accept-IsSound s (inbound_request r) h k = record {
    consistent = h.consistent;
    known =
        All-append (IsKnown s.handlers.callback_map) s.inbound_requests_queue (r ∷ []) h.known
          (k, tt);
    served = h.served;
    timely = h.timely;
    counter = h.counter;
  }
  accept-IsSound s (inbound_response r) h k = record {
    consistent = h.consistent;
    known = h.known;
    served = h.served;
    timely = h.timely;
    counter = h.counter;
  }

  pub still_running-IsKnown :
      (m : UserCallbackMap P) (hs : List (InboundRequestHandle P))
      → All (IsKnown m) hs
      → All (IsKnown m) (still_running P hs)
  still_running-IsKnown m [] a = tt
  still_running-IsKnown m (h ∷ hs) a = ground (arith, still_running-IsKnown m hs)

  queued-IsTimely :
      (s : Bridge P) (message : P.MessageDto)
      → IsSound s
      → All IsTimely (s.outbound_queue ++ outbound_request_handle P message ∷ [])
  queued-IsTimely s message h =
      All-append IsTimely s.outbound_queue (outbound_request_handle P message ∷ []) h.timely
        (refl, tt)

  pub keep_alive-IsSound : (s : Bridge P) → IsSound s → IsSound (keep_alive P s)
  unfolding keep_alive
  keep_alive-IsSound s h =
      IsSound-changed s (keep_alive P s) (ground arith) (ground arith) (ground (arith, h.served))
        (ground (arith, queued-IsTimely s (create_greet_message P) h, h.timely))
        (ground (arith, mod-le (s.keep_alive_counter + 1) (2 ^ 32), h.counter)) h

  pub queue_and_send-IsSound :
      (s : Bridge P) (message : P.MessageDto) → IsSound s → IsSound (queue_and_send P s message).0
  unfolding queue_and_send
  queue_and_send-IsSound s message h =
      IsSound-changed s (queue_and_send P s message).0 (ground arith) (ground arith)
        (ground (arith, h.served)) (ground (arith, queued-IsTimely s message h, h.timely))
        (ground (arith, h.counter)) h

  pub inbound_round-IsSound :
      (s : Bridge P) (lost : Bool) (received : Option P.MessageDto)
      → IsSound s
      → IsSound (inbound_round P s lost received).0
  unfolding inbound_round lose_if
  inbound_round-IsSound s lost received h =
      IsSound-changed s (inbound_round P s lost received).0 (ground arith) (ground arith)
        (ground (arith, h.served)) (ground (arith, h.timely)) (ground (arith, h.counter)) h

  pub process-IsSound :
      (s : Bridge P) (h : OutboundRequestHandle P)
      → IsSound s
      → IsTimely h
      → IsSound (process P s h).0
  unfolding process
  process-IsSound s h i t =
      IsSound-changed s (process P s h).0 (ground arith) (ground arith) (ground (arith, i.served))
        (ground (
          arith,
          i.timely,
          All-append IsTimely s.outbound_queue (mark_sent P h ∷ []) i.timely,
          All-append IsTimely s.outbound_queue (bump_delay_since_sent P h 1 ∷ []) i.timely,
        ))
        (ground (arith, i.counter)) i

  pub register-IsKnown :
      (m : UserCallbackMap P) (name : String) (f : CallbackFunction P) (a : CallbackArgsManifest P)
      (hs : List (InboundRequestHandle P))
      → All (IsKnown m) hs
      → All (IsKnown (register_callback P m name f a).0) hs
  register-IsKnown m name f a [] k = tt
  register-IsKnown m name f a (h ∷ hs) (here, k) =
      (still_known h.callback_return_context here, register-IsKnown m name f a hs k)
    where
      still_known :
          (c : Future P) → IsKnownCall P m c → IsKnownCall P (register_callback P m name f a).0 c
      still_known invalid k = tt
      still_known (running args other) k = ground (arith, get_callback-register P m name other f a)
      still_known (ready r) k = tt

  pub finish_call-IsKnown :
      (m : UserCallbackMap P) (c : Future P)
      → IsKnownCall P m c
      → IsKnownCall P m (finish_call P m c).0
  unfolding finish_call
  finish_call-IsKnown m invalid k = tt
  finish_call-IsKnown m (running args name) k = tt
  finish_call-IsKnown m (ready r) k = tt

  pub finished-IsKnown :
      (m : UserCallbackMap P) (before after : List (InboundRequestHandle P))
      (h : InboundRequestHandle P)
      → All (IsKnown m) (before ++ h ∷ after)
      → All (IsKnown m) (before ++ finished P m h ∷ after)
  finished-IsKnown m before after h a =
      let (front, (here, back)) = All-split (IsKnown m) before (h ∷ after) a in
      All-append (IsKnown m) before (finished P m h ∷ after) front
        (finish_call-IsKnown m h.callback_return_context here, back)
