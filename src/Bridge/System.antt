-- ===== src/Bridge/System.antt =====
-- The threads of a bridge together: the user's thread in `spin`, the inbound and the outbound thread,
-- the threads of running calls, and calls of the interface. Each step is one pass of a thread over what
-- it shares with the others, and the steps come in any order that the threads allow.
pub mod Invariant
pub mod Reach
pub mod Reached
pub mod Passes
pub mod Front
pub mod Queue
pub mod Inbox
pub mod Payloads
pub mod Delivery
pub mod Unsent
pub mod Outbox
pub mod Names
pub mod Silent
pub mod Server
pub mod Lives
pub mod Attached
pub mod Hooks
pub mod Progress
use hive_mind_bridge.Prelude.{
  ℕ, ◌+◌, ◌≡◌, String, Bool, true, false, Option, List, [], ◌∷◌, ◌++◌, value,
}
use hive_mind_bridge.Pheromones.{Pheromones}
use hive_mind_bridge.Effect.{Effect, LogLevel, logged}
use hive_mind_bridge.Callback.{CallbackFunction, CallbackArgsManifest}
use hive_mind_bridge.Handle.{InboundRequestHandle}
use hive_mind_bridge.UserCallRequestHandler.{finish_call}
use hive_mind_bridge.Bridge.{Bridge, queue_and_send}
use hive_mind_bridge.Bridge.Outbound.{inbound_round, outbound_round}
use hive_mind_bridge.Bridge.Spin.{Connection, handle_front, sweep, spin_disconnected, keep_alive}
use hive_mind_bridge.Bridge.Spin.Calls.{finished}
use hive_mind_bridge.Bridge.Requests.{
  on_connect, on_disconnect, on_bytes_received, on_neighbor_list_updated, on_neighbor_updated,
  register_custom_action,
}

module _ (P : Pheromones) (rand : ℕ → ℕ) where
  -- `spin` connects, or handles a message and then sweeps, and then keeps the connection alive; only
  -- `spin` connects, and only without a client. The rounds are those of threads that were started.
  pub data Step : Bridge P → List (Effect P) → Bridge P → Type 0 where
    connects :
        (s : Bridge P) (c : Connection P)
        → s.tcp_server.is_connected ≡ false
        → Step s (spin_disconnected P s c).1 (spin_disconnected P s c).0
    handles :
        (s : Bridge P) {s' : Bridge P} {effects : List (Effect P)}
        → handle_front P s ≡ value (s', effects)
        → Step s effects s'
    sweeps :
        (s : Bridge P)
        → Step s (sweep P rand s.drawn s.inbound_requests_queue).2 (record s {
          drawn = (sweep P rand s.drawn s.inbound_requests_queue).0;
          inbound_requests_queue = (sweep P rand s.drawn s.inbound_requests_queue).1;
        })
    keeps_alive : (s : Bridge P) → Step s [] (keep_alive P s)
    receives :
        (s : Bridge P) (lost : Bool) (received : Option P.MessageDto)
        → s.inbound_thread ≡ true
        → Step s (inbound_round P s lost received).1 (inbound_round P s lost received).0
    sends :
        (s : Bridge P) {s' : Bridge P} {effects : List (Effect P)}
        → s.outbound_thread ≡ true
        → outbound_round P s ≡ value (s', effects)
        → Step s effects s'
    finishes :
        (s : Bridge P) (before after : List (InboundRequestHandle P)) (h : InboundRequestHandle P)
        → s.inbound_requests_queue ≡ before ++ h ∷ after
        → Step s (finish_call P s.handlers.callback_map h.callback_return_context).1 (record s {
          inbound_requests_queue = before ++ finished P s.handlers.callback_map h ∷ after;
        })
    registers :
        (s : Bridge P) (name : String) (f : CallbackFunction P) (a : CallbackArgsManifest P)
        → Step s [] (register_custom_action P s name f a).0
    draws : (s : Bridge P) → Step s [] (record s { drawn = s.drawn + 1 })
    queues : (s : Bridge P) (message : P.MessageDto) → Step s [] (queue_and_send P s message).0
    reports : (s : Bridge P) (level : LogLevel) (text : String) → Step s (logged level text ∷ []) s
    sets_connect : (s : Bridge P) (hook : Option ℕ) → Step s [] (on_connect P s hook)
    sets_disconnect : (s : Bridge P) (hook : Option ℕ) → Step s [] (on_disconnect P s hook)
    sets_bytes : (s : Bridge P) (hook : Option ℕ) → Step s [] (on_bytes_received P s hook).0
    sets_list : (s : Bridge P) (hook : Option ℕ) → Step s [] (on_neighbor_list_updated P s hook).0
    sets_neighbor : (s : Bridge P) (hook : Option ℕ) → Step s [] (on_neighbor_updated P s hook).0

  -- Steps one after the other, with all that leaves the bridge.
  pub data Run (s : Bridge P) : List (Effect P) → Bridge P → Type 0 where
    here : Run s [] s
    next :
        {effects later : List (Effect P)} {t u : Bridge P}
        → Run s effects t
        → Step t later u
        → Run s (effects ++ later) u
