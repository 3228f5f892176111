-- ===== src/TcpServer.antt =====
-- src/TCPServer.cpp: a server with one client. What the operating system answers is an argument of
-- each operation; `none` is the answer -1.
pub mod Life
pub mod Hooks
use hive_mind_bridge.Prelude.{
  ℕ, Bool, true, false, Option, none, some, List, [], ◌∷◌, ◌++◌, ◌==◌, if◌then◌else◌,
}
use hive_mind_bridge.Pheromones.{Pheromones}
use hive_mind_bridge.Effect.{
  Descriptor, indeterminate, invalid, descriptor, shut_down, closed, Effect, logged, hook_called,
  info, warn, error,
}

pub record TcpServer : Type 0 where
  pub server_fd : Descriptor
  -- no constructor sets it
  pub client_fd : Descriptor
  pub port : ℕ
  pub is_connected : Bool
  -- an empty `std::function` is `none`
  pub connect_hook : Option ℕ
  pub disconnect_hook : Option ℕ

-- The answer of `socket` or `accept`, as the member that keeps it.
abbrev pub answered : Option ℕ → Descriptor
answered none = invalid
answered (some fd) = descriptor fd

unfoldable pub is_client_connected : TcpServer → Bool
is_client_connected s = s.is_connected

unfoldable pub on_connect : TcpServer → (hook : Option ℕ) → TcpServer
on_connect s hook = record s { connect_hook = hook }

unfoldable pub on_disconnect : TcpServer → (hook : Option ℕ) → TcpServer
on_disconnect s hook = record s { disconnect_hook = hook }

-- `recv` gave that many bytes; `send` reports success by its sign.
abbrev received_all : Option ℕ → (length : ℕ) → Bool
received_all none length = false
received_all (some n) length = n == length

unfoldable pub send : (sent : Option ℕ) → Bool
send none = false
send (some n) = true

module _ (P : Pheromones) where
  abbrev pub call_hook : Option ℕ → List (Effect P)
  call_hook none = []
  call_hook (some hook) = hook_called hook ∷ []

  -- The constructor and `init`, on the answers of `socket`, `setsockopt` and `bind`. The test of the
  -- socket is `== 0`.
  unfoldable pub init :
      (port : ℕ) → (server_fd : Option ℕ) → (set_option bound : Bool) → TcpServer × List (Effect P)
  init port server_fd set_option bound = (
    record {
      server_fd = answered server_fd;
      client_fd = indeterminate;
      port = port;
      is_connected = false;
      connect_hook = none;
      disconnect_hook = none;
    },
    (elim server_fd [
      | none ↦ []
      | some fd ↦ if fd == 0 then logged error "TCP server socket creation failed" ∷ [] else []
    ])
        ++ (if set_option then [] else logged error "TCP server setting option failed." ∷ [])
        ++ (if bound then [] else logged error "TCP server binding failed" ∷ []),
  )

  unfoldable pub close : TcpServer → TcpServer × List (Effect P)
  close s = (
    record s { is_connected = false },
    shut_down s.client_fd ∷ closed s.client_fd ∷ logged warn "TCP server: client disconnected" ∷ [],
  )

  -- `accept` blocks until a client connects or the call fails. The hook runs before the flag is set.
  unfoldable pub listen :
      TcpServer → (listens : Bool) → (accepted : Option ℕ) → TcpServer × List (Effect P)
  listen s listens accepted =
      let start =
        logged info "Listening for incoming clients on port %d..."
        ∷ (if listens then [] else logged error "TCP server listen failed" ∷ []) in
      let s' = record s { client_fd = answered accepted } in
      elim accepted [
        | none ↦ (
          record s' { is_connected = false },
          start ++ logged error "TCP server accept failed" ∷ [],
        )
        | some fd ↦ (record s' { is_connected = true }, start ++ call_hook s.connect_hook)
      ]

  -- The branch of `receive` on 0 bytes: the client is gone.
  unfoldable pub lose_client : TcpServer → TcpServer × List (Effect P)
  unfolding close
  lose_client s =
      let (s', closing) = close (record s { is_connected = false }) in
      (s', logged warn "TCP client disconnected" ∷ call_hook s.disconnect_hook ++ closing)

  -- The calls of `receive` by which a deserializer reads one message: one of them may lose the client.
  unfoldable pub lose_if : (lost : Bool) → TcpServer → TcpServer × List (Effect P)
  unfolding lose_client
  lose_if true s = lose_client s
  lose_if false s = (s, [])

  unfoldable pub receive :
      TcpServer → (nb_bytes_received : Option ℕ) → (length : ℕ) → TcpServer × Bool × List (Effect P)
  unfolding lose_client
  receive s none length = (s, false, [])
  receive s (some n) length =
      let lost = lose_client s in
      if n == 0
      then (lost.0, received_all (some n) length, lost.1)
      else (s, received_all (some n) length, [])
