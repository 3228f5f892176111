-- ===== src/HiveMindBridge/Lifetime.antt =====
-- A bridge that is constructed, used by any threads in any order, and destroyed.
use hive_mind_bridge.Prelude.{
  ℕ, ◌+◌, ◌≤◌, ◌≡◌, refl, ap, ◌∙◌, Bool, true, false, Option, List, [], ◌∷◌, ◌++◌, inl, inr, arith,
  if◌then◌else◌,
}
use hive_mind_bridge.Pheromones.{Pheromones}
use hive_mind_bridge.Effect.{Effect, closed}
use hive_mind_bridge.Effect.Calls.{calls, calls-append}
use hive_mind_bridge.TcpServer.{init}
use hive_mind_bridge.TcpServer.Hooks.{HasHooks, LeavesHooks, clients, Life-IsBalanced}
use hive_mind_bridge.Bridge.{Bridge}
use hive_mind_bridge.Bridge.System.{Run}
use hive_mind_bridge.Bridge.System.Hooks.{run_hooks}
use hive_mind_bridge.Bridge.System.Invariant.{IsSound, IsServed, new_bridge-IsSound}
use hive_mind_bridge.Bridge.System.Lives.{AllowsAll, Run-Life}
use hive_mind_bridge.Bridge.System.Reach.{Run-IsSound}
use hive_mind_bridge.HiveMindBridge.{new_hive_mind_bridge, destroy, in_receive}
use hive_mind_bridge.HiveMindBridge.Ending.{
  IsClosing, destroy_lem, ends_of, ends_of-Ends, ends_of-calls, ends_of-closings,
  ends_of-shut_downs, woken_rounds,
}

module _ (P : Pheromones) where
  pub new_hive_mind_bridge-IsSound :
      (tcp_port : ℕ) (server_fd : Option ℕ) (set_option bound : Bool) (n : ℕ)
      → IsSound P (new_hive_mind_bridge P tcp_port server_fd set_option bound n).0
  unfolding new_hive_mind_bridge init
  new_hive_mind_bridge-IsSound tcp_port server_fd set_option bound n =
      new_bridge-IsSound P (init P tcp_port server_fd set_option bound).0 n refl

  -- The clients that the inbound thread reports gone while the bridge is destroyed.
  abbrev pub woken_clients : Bridge P → (woken : Bool) → ℕ
  woken_clients s woken = if woken then clients s.tcp_server else 0

  in_receive_lem :
      (s : Bridge P) (woken : Bool)
      → IsServed P s
      → woken_rounds P s.tcp_server (in_receive P s woken) ≡ woken_clients s woken
  in_receive_lem s true (inl down) = rw down refl
  in_receive_lem s false (inl down) = rw down refl
  in_receive_lem s true (inr (inbound, _)) = ground arith
  in_receive_lem s false (inr (inbound, _)) = ground arith

  calls_closed :
      (k : ℕ) (es : List (Effect P)) (s : Bridge P)
      → calls P k (es ++ closed s.tcp_server.server_fd ∷ []) ≡ calls P k es
  calls_closed k es s =
      calls-append P k es (closed s.tcp_server.server_fd ∷ []) ∙ unfold calls in (omega arith)

  at_most :
      (c d : ℕ) (s : Bridge P) (woken : Bool) (effects closing : List (Effect P))
      → calls P d effects + clients s.tcp_server ≤ calls P c effects
      → calls P d closing ≡ woken_clients s woken
      → calls P d (effects ++ closing) ≤ calls P c (effects ++ closing)
  at_most c d s true effects closing balanced woken =
      omega (arith, calls-append P c effects closing, calls-append P d effects closing)
  at_most c d s false effects closing balanced woken =
      omega (arith, calls-append P c effects closing, calls-append P d effects closing)

  -- A bridge is constructed, both hooks are set, to different functions, and from a moment without a
  -- client on they stay so; however the threads then use it, and wherever they stand when it is
  -- destroyed, it is sound until then, and what is left has no client and no thread. The destructors
  -- shut down and close the client's descriptor twice, and once more where the inbound thread is
  -- woken in `recv` with a client there, in which case alone the disconnect hook is called, once; the
  -- connect hook is not called. Whatever the order of these effects, the server's descriptor is
  -- closed last. From the moment without a client on, the end included, the disconnect hook is
  -- called at most as often as the connect hook.
  pub lifetime :
      (rand : ℕ → ℕ) (tcp_port : ℕ) (server_fd : Option ℕ) (set_option bound : Bool) (n : ℕ)
      {t s : Bridge P} {first effects : List (Effect P)}
      → Run P rand (new_hive_mind_bridge P tcp_port server_fd set_option bound n).0 first t
      → (c d : ℕ) → HasHooks c d t.tcp_server
      → t.tcp_server.is_connected ≡ false
      → (r : Run P rand t effects s) → AllowsAll P rand LeavesHooks r
      → (woken : Bool) (schedule : List Bool)
      → let (s', closing) = destroy P s woken schedule in
        IsSound P s
        × (s'.tcp_server.is_connected ≡ false)
        × (s'.inbound_thread ≡ false)
        × (s'.outbound_thread ≡ false)
        × IsClosing P s.tcp_server (2 + woken_clients s woken) closing
        × (calls P d closing ≡ woken_clients s woken)
        × (calls P c closing ≡ 0)
        × (calls P d (effects ++ closing) ≤ calls P c (effects ++ closing))
  lifetime rand tcp_port server_fd set_option bound n {t} {s} {first} {effects} r0 c d hooks down r
        leaves woken schedule =
      let made = new_hive_mind_bridge-IsSound tcp_port server_fd set_option bound n in
      let sound_t = Run-IsSound P rand r0 made in
      let sound_s = Run-IsSound P rand r sound_t in
      let life = Run-Life P rand LeavesHooks r leaves sound_t in
      let hooks_s = (Life-IsBalanced P c d t.tcp_server s.tcp_server effects life hooks).0 in
      let balanced = run_hooks P rand c d r leaves sound_t hooks down in
      let blocked = in_receive P s woken in
      let ends = ends_of P s.tcp_server blocked schedule in
      let rounds = in_receive_lem s woken sound_s.served in
      let (gone, no_inbound, no_outbound, closing) = destroy_lem P s woken schedule in
      let (calls_d, calls_c) = ends_of-calls P s.tcp_server c d hooks_s blocked schedule in
      let d_calls = ap (calls P d) closing ∙ calls_closed d ends s ∙ calls_d ∙ rounds in
      (
        sound_s,
        gone,
        no_inbound,
        no_outbound,
        (
          ends,
          closing,
          ends_of-Ends P s.tcp_server blocked schedule,
          ends_of-shut_downs P s.tcp_server blocked schedule ∙ ap (λ k. 2 + k) rounds,
          ends_of-closings P s.tcp_server blocked schedule ∙ ap (λ k. 2 + k) rounds,
        ),
        d_calls,
        ap (calls P c) closing ∙ calls_closed c ends s ∙ calls_c,
        at_most c d s woken effects (destroy P s woken schedule).1 balanced d_calls,
      )
