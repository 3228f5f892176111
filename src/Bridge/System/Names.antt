-- ===== src/Bridge/System/Names.antt =====
-- The registered names in a run: an index keeps its name.
use hive_mind_bridge.Prelude.{
  ℕ, ◌<◌, ◌≡◌, refl, sym, ap, ◌∙◌, inl, inr, Bool, Bool-cases, Option, some, List, [], ◌∷◌, ◌++◌,
  append_assoc, append-nil, length, length-append, get_elem?, get_elem?-append_left, get_elem?_past,
  lt-eq-gt, arith, value, String, string_eq, is_set, lookup,
}
use hive_mind_bridge.Pheromones.{Pheromones}
use hive_mind_bridge.Effect.{Effect}
use hive_mind_bridge.Callback.{CallbackFunction, CallbackArgsManifest}
use hive_mind_bridge.Handle.{OutboundRequestHandle}
use hive_mind_bridge.UserCallbackMap.{UserCallbackMap, register_callback, get_name_at}
use hive_mind_bridge.MessageHandler.{Handlers, Handled, nothing, inbound_request, inbound_response}
use hive_mind_bridge.MessageHandler.Total.{handle_message-total}
use hive_mind_bridge.TcpServer.{lose_if}
use hive_mind_bridge.Bridge.{Bridge, queue_and_send}
use hive_mind_bridge.Bridge.Outbound.{inbound_round, outbound_round, process}
use hive_mind_bridge.Bridge.Requests.{
  register_custom_action, on_connect, on_disconnect, on_bytes_received, on_neighbor_list_updated,
  on_neighbor_updated,
}
use hive_mind_bridge.Bridge.Spin.{Connection, accept, handle_front, spin_disconnected, keep_alive}
use hive_mind_bridge.Bridge.System.{
  Step, connects, handles, sweeps, keeps_alive, receives, sends, finishes, registers, draws, queues,
  reports, sets_connect, sets_disconnect, sets_bytes, sets_list, sets_neighbor, Run, here, next,
}
use hive_mind_bridge.Bridge.System.Front.{handle_front_cases, outbound_round_cases}
use hive_mind_bridge.Bridge.System.Invariant.{IsSound}
use hive_mind_bridge.Bridge.System.Reach.{Run-IsSound}

module _ (P : Pheromones) where
  -- The names of `m'` are those of `m` with more at their end.
  abbrev Grows : UserCallbackMap P → UserCallbackMap P → Type 0
  Grows m m' = (new : List String) × (m'.callback_names ≡ m.callback_names ++ new)

  kept : {m m' : UserCallbackMap P} → m' ≡ m → Grows m m'
  kept {m} {m'} e = ([], ap (λ x. x.callback_names) e ∙ sym (append-nil m.callback_names))

  Grows-trans : (m m' m'' : UserCallbackMap P) → Grows m m' → Grows m' m'' → Grows m m''
  Grows-trans m m' m'' (new, e) (newer, e') =
      (new ++ newer, e' ∙ ap (λ x. x ++ newer) e ∙ append_assoc m.callback_names new newer)

  register-Grows :
      (m : UserCallbackMap P) (name : String) (f : CallbackFunction P) (a : CallbackArgsManifest P)
      → Grows m (register_callback P m name f a).0
  unfolding register_callback
  register-Grows m name f a = elim (Bool-cases (is_set (lookup name m.callbacks))) [
    | inl known ↦ ([], rw known (sym (append-nil m.callback_names)))
    | inr unknown ↦ (name ∷ [], rw unknown refl)
  ]

  -- A name that is listed at an index is what `getNameAt` finds there, and nothing else is.
  get_name_at_cases :
      (m : UserCallbackMap P) (index : ℕ) (name : String)
      → get_name_at P m index ≡ value (some name)
      → (index < length m.callback_names) × (get_elem? m.callback_names index ≡ some name)
  unfolding get_name_at
  get_name_at_cases m index name found = elim (lt-eq-gt index (length m.callback_names)) [
    | inl below ↦ (below, ground arith)
    | inr (inl e) ↦ absurd (ground (arith, get_elem?_past m.callback_names index (omega arith)))
    | inr (inr above) ↦ absurd (ground arith)
  ]

  get_name_at-Grows :
      (m m' : UserCallbackMap P) (index : ℕ) (name : String)
      → Grows m m'
      → get_name_at P m index ≡ value (some name)
      → get_name_at P m' index ≡ value (some name)
  unfolding get_name_at
  get_name_at-Grows m m' index name (new, e) found =
      let (below, listed) = get_name_at_cases m index name found in
      let still = get_elem?-append_left m.callback_names new index below ∙ listed in
      ground (arith, length-append m.callback_names new, ap (λ ns. get_elem? ns index) e ∙ still)

  module _ (s : Bridge P) where
    connected-callbacks :
        (c : Connection P)
        → (spin_disconnected P s c).0.handlers.callback_map ≡ s.handlers.callback_map
    unfolding spin_disconnected
    connected-callbacks c = ground arith

    received-callbacks :
        (lost : Bool) (received : Option P.MessageDto)
        → (inbound_round P s lost received).0.handlers.callback_map ≡ s.handlers.callback_map
    unfolding inbound_round lose_if
    received-callbacks lost received = ground arith

    keep_alive-callbacks : (keep_alive P s).handlers.callback_map ≡ s.handlers.callback_map
    unfolding keep_alive
    keep_alive-callbacks = ground arith

    queue_and_send-callbacks :
        (message : P.MessageDto)
        → (queue_and_send P s message).0.handlers.callback_map ≡ s.handlers.callback_map
    unfolding queue_and_send
    queue_and_send-callbacks message = ground arith

    handle_front-callbacks :
        (u : Bridge P) (effects : List (Effect P))
        → handle_front P s ≡ value (u, effects)
        → IsSound P s
        → u.handlers.callback_map ≡ s.handlers.callback_map
    unfolding accept
    handle_front-callbacks u effects e sound = elim (handle_front_cases P s u effects e) [
      | inl (_, same, _) ↦ ap (λ x. x.handlers.callback_map) same
      | inr (message, rest, hs, r, es, q, a, ends, _) ↦
          ap (λ x. x.handlers.callback_map) ends
          ∙ accept_kept hs rest r
          ∙ (rw a at (handle_message-total P s.handlers message sound.consistent)).0
    ]
      where
        accept_kept :
            (hs : Handlers P) (rest : List P.MessageDto) (r : Handled P)
            → (accept P
                (record s { handlers = hs; inbound_queue = rest })
                r).0.handlers.callback_map
              ≡ hs.callback_map
        accept_kept hs rest (nothing) = refl
        accept_kept hs rest (inbound_request h) = refl
        accept_kept hs rest (inbound_response h) = refl

    outbound_round-callbacks :
        (u : Bridge P) (effects : List (Effect P))
        → outbound_round P s ≡ value (u, effects)
        → u.handlers.callback_map ≡ s.handlers.callback_map
    unfolding process
    outbound_round-callbacks u effects e = elim (outbound_round_cases P s u effects e) [
      | inl (_, same, _) ↦ ap (λ x. x.handlers.callback_map) same
      | inr (_, (h, rest, _, p)) ↦ ap (λ x. x.0.handlers.callback_map) p ∙ processed h rest
    ]
      where
        processed :
            (h : OutboundRequestHandle P) (rest : List (OutboundRequestHandle P))
            → (process P (record s { outbound_queue = rest }) h).0.handlers.callback_map
              ≡ s.handlers.callback_map
        processed h rest = ground arith

  module _ (rand : ℕ → ℕ) where
    Step-Grows :
        {s u : Bridge P} {effects : List (Effect P)}
        → Step P rand s effects u
        → IsSound P s
        → Grows s.handlers.callback_map u.handlers.callback_map
    unfolding register_custom_action on_connect on_disconnect on_bytes_received
        on_neighbor_list_updated on_neighbor_updated
    Step-Grows (connects s c down) h = kept (connected-callbacks s c)
    Step-Grows (handles s {s'} {effects} e) h = kept (handle_front-callbacks s s' effects e h)
    Step-Grows (sweeps s) h = kept {m = s.handlers.callback_map} refl
    Step-Grows (keeps_alive s) h = kept (keep_alive-callbacks s)
    Step-Grows (receives s lost received up) h = kept (received-callbacks s lost received)
    Step-Grows (sends s {s'} {effects} up e) h = kept (outbound_round-callbacks s s' effects e)
    Step-Grows (finishes s before after c e) h = kept {m = s.handlers.callback_map} refl
    Step-Grows (registers s name f a) h = register-Grows s.handlers.callback_map name f a
    Step-Grows (draws s) h = kept {m = s.handlers.callback_map} refl
    Step-Grows (queues s message) h = kept (queue_and_send-callbacks s message)
    Step-Grows (reports s level text) h = kept {m = s.handlers.callback_map} refl
    Step-Grows (sets_connect s hook) h = kept {m = s.handlers.callback_map} refl
    Step-Grows (sets_disconnect s hook) h = kept {m = s.handlers.callback_map} refl
    Step-Grows (sets_bytes s hook) h = kept {m = s.handlers.callback_map} refl
    Step-Grows (sets_list s hook) h = kept {m = s.handlers.callback_map} refl
    Step-Grows (sets_neighbor s hook) h = kept {m = s.handlers.callback_map} refl

    Run-Grows :
        {s u : Bridge P} {effects : List (Effect P)}
        → Run P rand s effects u
        → IsSound P s
        → Grows s.handlers.callback_map u.handlers.callback_map
    Run-Grows {s} (here) h = kept {m = s.handlers.callback_map} refl
    Run-Grows {s} (next {effects} {later} {t} {u} r st) h =
        Grows-trans s.handlers.callback_map t.handlers.callback_map u.handlers.callback_map
          (Run-Grows r h) (Step-Grows st (Run-IsSound P rand r h))

    -- Whatever the threads do with a sound bridge, registrations included, an index at which
    -- `getNameAt` has found a name keeps that name.
    pub run_keeps_names :
        {s u : Bridge P} {effects : List (Effect P)} (r : Run P rand s effects u)
        → IsSound P s
        → (index : ℕ) (name : String)
        → get_name_at P s.handlers.callback_map index ≡ value (some name)
        → get_name_at P u.handlers.callback_map index ≡ value (some name)
    run_keeps_names {s} {u} r h index name found =
        get_name_at-Grows s.handlers.callback_map u.handlers.callback_map index name (Run-Grows r h)
          found
