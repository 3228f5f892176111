-- ===== src/Bridge/System/Attached.antt =====
-- The descriptor of the client, while the clients come and go.
use hive_mind_bridge.Prelude.{
  ℕ, ◌≡◌, refl, ◌∙◌, ◌⊎◌, inl, inr, Bool, true, false, Option, none, some, List, arith,
}
use hive_mind_bridge.Pheromones.{Pheromones}
use hive_mind_bridge.Effect.{Effect, descriptor}
use hive_mind_bridge.TcpServer.{TcpServer, listen, close, lose_if, lose_client}
use hive_mind_bridge.TcpServer.Life.{Event, listening, setting, Life-client_fd, Life-down}
use hive_mind_bridge.Bridge.{Bridge, is_tcp_client_connected}
use hive_mind_bridge.Bridge.Spin.{Connection, greet, spin_disconnected}
use hive_mind_bridge.Bridge.System.{
  Step, connects, handles, sweeps, keeps_alive, receives, sends, finishes, registers, draws, queues,
  reports, sets_connect, sets_disconnect, sets_bytes, sets_list, sets_neighbor, Run, here, next,
}
use hive_mind_bridge.Bridge.System.Invariant.{IsSound}
use hive_mind_bridge.Bridge.System.Lives.{Step-Life}
use hive_mind_bridge.Bridge.System.Reach.{Run-IsSound}
use hive_mind_bridge.Bridge.System.Server.{Lives}

-- The lives in which `spin` never listens.
abbrev pub NeverListens : Event → Type 0
NeverListens listening = ⊥
NeverListens setting = Unit

-- While there is a client, its descriptor is the answer of that `accept`.
abbrev pub IsAttached : TcpServer → (accepted : Option ℕ) → Type 0
IsAttached s accepted =
    (s.is_connected ≡ false) ⊎ ((fd : ℕ) × (accepted ≡ some fd) × (s.client_fd ≡ descriptor fd))

module _ (P : Pheromones) where
  spin_disconnected-IsAttached :
      (s : Bridge P) (c : Connection P)
      → IsAttached (spin_disconnected P s c).0.tcp_server c.accepted
  unfolding spin_disconnected greet listen close lose_if lose_client is_tcp_client_connected
  spin_disconnected-IsAttached s c = go c.accepted c.lost
    where
      go :
          (accepted : Option ℕ) (lost : Bool)
          → IsAttached
              (spin_disconnected P s (record c { accepted = accepted; lost = lost })).0.tcp_server
              accepted
      go none lost = inl refl
      go (some fd) false = inr (fd, refl, ground arith)
      go (some fd) true = inl (ground arith)

  module _ (rand : ℕ → ℕ) where
    abbrev accepted_by :
        {s u : Bridge P} {effects : List (Effect P)}
        → Step P rand s effects u
        → (before : Option ℕ) → Option ℕ
    accepted_by (connects s c down) before = c.accepted
    accepted_by _ before = before

    -- The answer of the last `accept` of the run.
    abbrev pub last_accept :
        {s u : Bridge P} {effects : List (Effect P)} → Run P rand s effects u → Option ℕ
    last_accept (here) = none
    last_accept (next r st) = accepted_by st (last_accept r)

    stays :
        (t u : Bridge P) (effects : List (Effect P)) (accepted : Option ℕ)
        → Lives P NeverListens t effects u
        → IsAttached t.tcp_server accepted
        → IsAttached u.tcp_server accepted
    stays t u effects accepted life (inl down) = inl (Life-down P NeverListens (λ h. h) life down)
    stays t u effects accepted life (inr (fd, is_last, is_fd)) =
        inr (fd, is_last, Life-client_fd P NeverListens (λ h. h) life ∙ is_fd)

    Step-IsAttached :
        {t u : Bridge P} {effects : List (Effect P)} (st : Step P rand t effects u)
        → (accepted : Option ℕ) → IsSound P t
        → IsAttached t.tcp_server accepted
        → IsAttached u.tcp_server (accepted_by st accepted)
    Step-IsAttached (connects s c down) accepted sound h = spin_disconnected-IsAttached s c
    Step-IsAttached {t} {u} {effects} (handles s e) accepted sound h =
        stays t u effects accepted (Step-Life P rand NeverListens (handles s e) tt sound) h
    Step-IsAttached {t} {u} {effects} (sweeps s) accepted sound h =
        stays t u effects accepted (Step-Life P rand NeverListens (sweeps s) tt sound) h
    Step-IsAttached {t} {u} {effects} (keeps_alive s) accepted sound h =
        stays t u effects accepted (Step-Life P rand NeverListens (keeps_alive s) tt sound) h
    Step-IsAttached {t} {u} {effects} (receives s lost received up) accepted sound h =
        stays t u effects accepted
          (Step-Life P rand NeverListens (receives s lost received up) tt sound) h
    Step-IsAttached {t} {u} {effects} (sends s up e) accepted sound h =
        stays t u effects accepted (Step-Life P rand NeverListens (sends s up e) tt sound) h
    Step-IsAttached {t} {u} {effects} (finishes s before after c e) accepted sound h =
        stays t u effects accepted
          (Step-Life P rand NeverListens (finishes s before after c e) tt sound) h
    Step-IsAttached {t} {u} {effects} (registers s name f a) accepted sound h =
        stays t u effects accepted (Step-Life P rand NeverListens (registers s name f a) tt sound) h
    Step-IsAttached {t} {u} {effects} (draws s) accepted sound h =
        stays t u effects accepted (Step-Life P rand NeverListens (draws s) tt sound) h
    Step-IsAttached {t} {u} {effects} (queues s message) accepted sound h =
        stays t u effects accepted (Step-Life P rand NeverListens (queues s message) tt sound) h
    Step-IsAttached {t} {u} {effects} (reports s level text) accepted sound h =
        stays t u effects accepted (Step-Life P rand NeverListens (reports s level text) tt sound) h
    Step-IsAttached {t} {u} {effects} (sets_connect s hook) accepted sound h =
        stays t u effects accepted (Step-Life P rand NeverListens (sets_connect s hook) tt sound) h
    Step-IsAttached {t} {u} {effects} (sets_disconnect s hook) accepted sound h =
        stays t u effects accepted (Step-Life P rand NeverListens (sets_disconnect s hook) tt sound)
          h
    Step-IsAttached {t} {u} {effects} (sets_bytes s hook) accepted sound h =
        stays t u effects accepted (Step-Life P rand NeverListens (sets_bytes s hook) tt sound) h
    Step-IsAttached {t} {u} {effects} (sets_list s hook) accepted sound h =
        stays t u effects accepted (Step-Life P rand NeverListens (sets_list s hook) tt sound) h
    Step-IsAttached {t} {u} {effects} (sets_neighbor s hook) accepted sound h =
        stays t u effects accepted (Step-Life P rand NeverListens (sets_neighbor s hook) tt sound) h

    pub Run-IsAttached :
        {s u : Bridge P} {effects : List (Effect P)} (r : Run P rand s effects u)
        → IsSound P s
        → s.tcp_server.is_connected ≡ false
        → IsAttached u.tcp_server (last_accept r)
    Run-IsAttached (here) sound down = inl down
    Run-IsAttached (next {t} r st) sound down =
        Step-IsAttached st (last_accept r) (Run-IsSound P rand r sound)
          (Run-IsAttached r sound down)
