-- ===== src/Tests/Interface.antt =====
-- A user registers a function, spins until a client is there, and sends a message.
use hive_mind_bridge.Prelude.{
  ◌≡◌, refl, Bool, true, false, Option, some, none, List, [], ◌∷◌, ◌++◌, arith, Outcome, lookup,
  insert, string_eq,
}
use hive_mind_bridge.Effect.{Effect}
use hive_mind_bridge.UserCallbackMap.{register_callback}
use hive_mind_bridge.Bridge.{Bridge, new_bridge, is_tcp_client_connected}
use hive_mind_bridge.Bridge
use hive_mind_bridge.Bridge.Requests
use hive_mind_bridge.Bridge.Outbound.{inbound_round}
use hive_mind_bridge.Bridge.Spin
use hive_mind_bridge.Bridge.Spin.{spin_disconnected, keep_alive}
use hive_mind_bridge.Bridge.System.{Run, here, next, receives}
use hive_mind_bridge.Bridge.System.Invariant.{new_bridge-IsSound}
use hive_mind_bridge.HiveMindBridge.Interface.{
  Call, perform, IsRun, perform-Run, Session, opens, performs, meanwhile, Session-Run,
}
use hive_mind_bridge.HiveMindBridge.Answers.{promised, perform-IsPromised}
use hive_mind_bridge.Tests.Sample.{sample}
use hive_mind_bridge.Tests.Runs.{
  rand, server, move, greeted, created, called, message, called-IsSound,
}

abbrev registering : Call sample
registering = Call.register_custom_action "move" move []

abbrev registered : Bridge sample
registered = (Requests.register_custom_action sample created "move" move []).0

abbrev linked : Bridge sample
linked = keep_alive sample (spin_disconnected sample registered greeted).0

abbrev greeting_effects : List (Effect sample)
greeting_effects = (spin_disconnected sample registered greeted).1

abbrev received : Bridge sample
received = (inbound_round sample linked false (some message)).0

abbrev extended : Bridge sample
extended = (Bridge.queue_and_send sample received message).0

abbrev calls : List (Call sample × Option Bool)
calls =
    ([] ++ (registering, some false) ∷ [])
    ++ (Call.spin greeted, none) ∷ []
    ++ (Call.queue_and_send message, some true) ∷ []

abbrev all_effects : List (Effect sample)
all_effects = [] ++ [] ++ greeting_effects ++ [] ++ []

session : Session sample rand created calls all_effects extended
unfolding perform Spin.spin Requests.register_custom_action register_callback new_bridge
    spin_disconnected inbound_round keep_alive Bridge.queue_and_send lookup insert
session =
    performs
      (meanwhile (performs (performs opens registering refl) (Call.spin greeted) refl)
        (next here (receives linked false (some message) refl)))
      (Call.queue_and_send message) refl

Session-Run_example : Run sample rand created all_effects extended
Session-Run_example = Session-Run sample rand session (new_bridge-IsSound sample server 2 refl)

perform-Run_example :
    Outcome
      (IsRun sample rand called)
      ⊥
      (perform sample rand called (Call.send_bytes 9 (1 ∷ 2 ∷ 3 ∷ 4 ∷ 5 ∷ 6 ∷ []) 6))
perform-Run_example =
    perform-Run sample rand called (Call.send_bytes 9 (1 ∷ 2 ∷ 3 ∷ 4 ∷ 5 ∷ 6 ∷ []) 6) called-IsSound

perform-IsPromised_example : some false ≡ promised sample created registering
unfolding perform Requests.register_custom_action register_callback new_bridge lookup insert
perform-IsPromised_example =
    perform-IsPromised sample rand created registered registering (some false) [] (omega arith) refl
