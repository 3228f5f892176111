-- ===== src/Tests/Lives.antt =====
-- Queues, hooks and the life of a bridge in runs of the threads.
use hive_mind_bridge.Prelude.{
  insert, lookup, string_eq, ℕ, ◌+◌, ◌≤◌, ◌≡◌, ◌≢◌, refl, true, false, some, none, List, [], ◌∷◌,
  ◌++◌, arith, value,
}
use hive_mind_bridge.Effect.{Effect, logged, warn, shut_down, closed, indeterminate}
use hive_mind_bridge.Effect.Calls.{calls}
use hive_mind_bridge.TcpServer.{init}
use hive_mind_bridge.TcpServer.Hooks.{clients}
use hive_mind_bridge.Bridge.{Bridge, new_bridge, queue_and_send}
use hive_mind_bridge.Bridge.Outbound.{inbound_round}
use hive_mind_bridge.Bridge.Spin.{spin_disconnected}
use hive_mind_bridge.Bridge.System.{
  Run, here, next, connects, receives, queues, registers, sets_connect, sets_disconnect,
}
use hive_mind_bridge.Bridge.System.Inbox.{all_arrived, all_handled, run_keeps_order}
use hive_mind_bridge.TcpServer.Hooks.{LeavesHooks}
use hive_mind_bridge.Bridge.System.Attached.{IsAttached}
use hive_mind_bridge.Bridge.Requests
use hive_mind_bridge.TcpServer
use hive_mind_bridge.Bridge.System.Lives.{Run-Life}
use hive_mind_bridge.Bridge.System.Server.{Lives}
use hive_mind_bridge.HiveMindBridge.Descriptors.{never_listened, client-IsAttached}
use hive_mind_bridge.Bridge.System.Hooks.{run_hooks}
use hive_mind_bridge.Bridge.System.Invariant.{IsSound, new_bridge-IsSound}
use hive_mind_bridge.HiveMindBridge.{new_hive_mind_bridge, destroy}
use hive_mind_bridge.HiveMindBridge.Lifetime.{lifetime, woken_clients}
use hive_mind_bridge.HiveMindBridge.Ending.{IsClosing}
use hive_mind_bridge.Bridge.Requests.{register_custom_action}
use hive_mind_bridge.UserCallbackMap.{get_name_at, register_callback}
use hive_mind_bridge.Bridge.System.Names.{run_keeps_names}
use hive_mind_bridge.Tests.Sample.{sample}
use hive_mind_bridge.Tests.Runs.{
  rand, server, greeted, created, called, message, run_effects, run, move, called-IsSound,
}

run_keeps_order_example :
    created.inbound_queue ++ all_arrived sample rand run
    ≡ all_handled sample rand run ++ called.inbound_queue
run_keeps_order_example = run_keeps_order sample rand run

-- The client goes away after the run.
abbrev lost_effects : List (Effect sample)
lost_effects = run_effects ++ (inbound_round sample called true none).1

abbrev lost : Bridge sample
lost = (inbound_round sample called true none).0

lost_run : Run sample rand created lost_effects lost
unfolding spin_disconnected
lost_run = next run (receives called true none refl)

different : ◌≢◌ {A = ℕ} 1 2
different = omega arith

run_hooks_example :
    calls sample 2 lost_effects + clients lost.tcp_server ≤ calls sample 1 lost_effects
unfolding lost_run run
run_hooks_example =
    run_hooks sample rand 1 2 lost_run (((((tt, tt), tt), tt), tt), tt)
      (new_bridge-IsSound sample server 2 refl) (refl, refl, different) refl

abbrev made : Bridge sample
made = (new_hive_mind_bridge sample 5555 (some 3) true true 2).0

abbrev linked : Bridge sample
linked = (spin_disconnected sample made greeted).0

abbrev used : Bridge sample
used = (queue_and_send sample linked message).0

abbrev use_effects : List (Effect sample)
use_effects = [] ++ (spin_disconnected sample made greeted).1 ++ []

unfoldable use_run : Run sample rand made use_effects used
unfolding new_hive_mind_bridge init new_bridge
use_run = next (next here (connects made greeted refl)) (queues linked message)

-- The hooks are set, a client comes, and a message is queued.
abbrev hooked : Bridge sample
hooked = Requests.on_disconnect sample (Requests.on_connect sample made (some 1)) (some 2)

hooked_run : Run sample rand made (([] ++ []) ++ []) hooked
unfolding Requests.on_connect
hooked_run =
    next (next here (sets_connect made (some 1)))
      (sets_disconnect (Requests.on_connect sample made (some 1)) (some 2))

abbrev served : Bridge sample
served = (spin_disconnected sample hooked greeted).0

abbrev served_effects : List (Effect sample)
served_effects = [] ++ (spin_disconnected sample hooked greeted).1 ++ []

unfoldable served_run :
    Run sample rand hooked served_effects (queue_and_send sample served message).0
unfolding Requests.on_disconnect TcpServer.on_disconnect Requests.on_connect TcpServer.on_connect
    new_hive_mind_bridge new_bridge init
served_run = next (next here (connects hooked greeted refl)) (queues served message)

lifetime_example :
    let s = (queue_and_send sample served message).0 in
    let (s', closing) = destroy sample s true (true ∷ false ∷ true ∷ []) in
    IsSound sample s
    × (s'.tcp_server.is_connected ≡ false)
    × (s'.inbound_thread ≡ false)
    × (s'.outbound_thread ≡ false)
    × IsClosing sample s.tcp_server (2 + woken_clients sample s true) closing
    × (calls sample 2 closing ≡ woken_clients sample s true)
    × (calls sample 1 closing ≡ 0)
    × (calls sample 2 (served_effects ++ closing) ≤ calls sample 1 (served_effects ++ closing))
unfolding new_hive_mind_bridge init new_bridge Requests.on_connect Requests.on_disconnect
    TcpServer.on_connect TcpServer.on_disconnect served_run
lifetime_example =
    lifetime sample rand 5555 (some 3) true true 2 hooked_run 1 2 (refl, refl, different) refl
      served_run ((tt, tt), tt) true (true ∷ false ∷ true ∷ [])

abbrev more : Bridge sample
more = (register_custom_action sample called "stop" move []).0

more_run : Run sample rand called ([] ++ []) more
more_run = next here (registers called "stop" move [])

run_keeps_names_example : get_name_at sample more.handlers.callback_map 0 ≡ value (some "move")
unfolding spin_disconnected register_custom_action new_bridge register_callback get_name_at insert
    lookup
run_keeps_names_example = run_keeps_names sample rand more_run called-IsSound 0 "move" refl

-- A bridge that is made, gets a callback, and is never spun.
abbrev unused : Bridge sample
unused = (register_custom_action sample made "move" move []).0

unused_run : Run sample rand made ([] ++ []) unused
unused_run = next here (registers made "move" move [])

never_listened_example :
    (destroy sample unused true (true ∷ [])).1
    ≡ shut_down indeterminate
      ∷ closed indeterminate
      ∷ logged warn "TCP server: client disconnected"
      ∷ shut_down indeterminate
      ∷ closed indeterminate
      ∷ logged warn "TCP server: client disconnected"
      ∷ closed unused.tcp_server.server_fd
      ∷ []
unfolding unused_run
never_listened_example =
    never_listened sample rand 5555 (some 3) true true 2 unused_run (tt, tt) true (true ∷ [])

client-IsAttached_example : IsAttached used.tcp_server (some 7)
unfolding use_run
client-IsAttached_example = client-IsAttached sample rand 5555 (some 3) true true 2 use_run

Run-Life_example : Lives sample LeavesHooks created lost_effects lost
unfolding lost_run run
Run-Life_example =
    Run-Life sample rand LeavesHooks lost_run (((((tt, tt), tt), tt), tt), tt)
      (new_bridge-IsSound sample server 2 refl)
