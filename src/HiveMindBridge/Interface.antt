-- ===== src/HiveMindBridge/Interface.antt =====
-- include/hivemind-bridge/IHiveMindBridge.h: the calls that a user makes, and src/HiveMindBridge.cpp, which passes
-- them on.
use hive_mind_bridge.Prelude.{
  ℕ, ◌≡◌, sym, subst, String, Bool, Option, none, some, List, [], ◌∷◌, ◌++◌, append_assoc,
  append-nil, value, Access, Outcome, Outcome-bind, ◌>>=◌,
}
use hive_mind_bridge.Pheromones.{Pheromones}
use hive_mind_bridge.Effect.{Effect}
use hive_mind_bridge.Callback.{CallbackFunction, CallbackArgsManifest}
use hive_mind_bridge.UserCallbackMap.{register_callback_without_manifest}
use hive_mind_bridge.Bridge
use hive_mind_bridge.Bridge.{Bridge, random_id}
use hive_mind_bridge.Bridge.Requests
use hive_mind_bridge.Bridge.SendBytes
use hive_mind_bridge.Bridge.Spin
use hive_mind_bridge.Bridge.Spin.{Connection}
use hive_mind_bridge.Bridge.System.{
  draws, queues, registers, sets_connect, sets_disconnect, sets_bytes, sets_list, sets_neighbor,
  Run, here, next,
}
use hive_mind_bridge.Bridge.System.Invariant.{IsSound}
use hive_mind_bridge.Bridge.System.Passes.{spin-Run, send_bytes-Run, AsksPastEnd}
use hive_mind_bridge.Bridge.System.Reach.{Run-IsSound}

module _ (P : Pheromones) where
  -- One constructor to a method. What the outside answers to a `spin` is an argument of it.
  pub data Call : Type 0 where
    spin : Connection P → Call
    on_connect : (hook : Option ℕ) → Call
    on_disconnect : (hook : Option ℕ) → Call
    on_bytes_received : (callback : Option ℕ) → Call
    on_neighbor_list_updated : (callback : Option ℕ) → Call
    on_neighbor_updated : (callback : Option ℕ) → Call
    register_custom_action : (name : String) → CallbackFunction P → CallbackArgsManifest P → Call
    register_custom_action_without_manifest : (name : String) → CallbackFunction P → Call
    queue_and_send : (message : P.MessageDto) → Call
    send_bytes : (destination_id : ℕ) → (payload : List ℕ) → (payload_size : ℕ) → Call
    send_neighbor_update_request : (neighbor_id : ℕ) → Call
    send_neighbor_list_update_request : Call

module _ (P : Pheromones) (rand : ℕ → ℕ) where
  -- A method that returns a truth value.
  abbrev returns : Bridge P × Bool → Access (Bridge P × Option Bool × List (Effect P))
  returns (s, answer) = value (s, some answer, [])

  -- The methods; one that returns nothing answers `none`.
  unfoldable pub perform : Bridge P → Call P → Access (Bridge P × Option Bool × List (Effect P))
  perform s (Call.spin c) = do (s', effects) ← Spin.spin P rand s c; value (s', none, effects)
  perform s (Call.on_connect hook) = value (Requests.on_connect P s hook, none, [])
  perform s (Call.on_disconnect hook) = value (Requests.on_disconnect P s hook, none, [])
  perform s (Call.on_bytes_received callback) = returns (Requests.on_bytes_received P s callback)
  perform s (Call.on_neighbor_list_updated callback) =
      returns (Requests.on_neighbor_list_updated P s callback)
  perform s (Call.on_neighbor_updated callback) =
      returns (Requests.on_neighbor_updated P s callback)
  perform s (Call.register_custom_action name callback manifest) =
      returns (Requests.register_custom_action P s name callback manifest)
  perform s (Call.register_custom_action_without_manifest name callback) =
      returns (Requests.register_custom_action_without_manifest P s name callback)
  perform s (Call.queue_and_send message) = returns (Bridge.queue_and_send P s message)
  perform s (Call.send_bytes destination_id payload payload_size) =
      let (s', answer, effects) =
        SendBytes.send_bytes P rand s destination_id payload payload_size in
      value (s', some answer, effects)
  perform s (Call.send_neighbor_update_request neighbor_id) =
      returns (Requests.send_neighbor_update_request P rand s neighbor_id)
  perform s (Call.send_neighbor_list_update_request) =
      returns (Requests.send_neighbor_list_update_request P rand s)

  -- The call is a `spin` that handles a request for the description at the length.
  abbrev pub SpinsPastEnd : Bridge P → Call P → Type 0
  SpinsPastEnd s (Call.spin c) = AsksPastEnd P rand s
  SpinsPastEnd s _ = ⊥

  abbrev pub IsRun : Bridge P → Bridge P × Option Bool × List (Effect P) → Type 0
  IsRun s (s', answer, effects) = Run P rand s effects s'

  send_host_api_request-Run :
      (s : Bridge P) (request : P.HiveMindHostApiRequestDto)
      → Run P rand s [] (Requests.send_host_api_request P rand s request).0
  unfolding Requests.send_host_api_request random_id
  send_host_api_request-Run s request = next (next here (draws s)) (queues _ _)

  -- Every call of the interface on a sound bridge is a run of the steps, unless it is a `spin` that
  -- handles a request for the description at the length; no exception escapes.
  pub perform-Run :
      (s : Bridge P) (c : Call P) → IsSound P s → Outcome (IsRun s) (SpinsPastEnd s c) (perform s c)
  unfolding perform Requests.register_custom_action_without_manifest Requests.register_custom_action
      register_callback_without_manifest Requests.send_neighbor_update_request
      Requests.send_neighbor_list_update_request
  perform-Run s (Call.spin c) sound =
      Outcome-bind (λ x. Run P rand s x.1 x.0) (IsRun s) (AsksPastEnd P rand s)
        (Spin.spin P rand s c) _ (spin-Run P rand s c sound) (λ x r. r)
  perform-Run s (Call.on_connect hook) sound = next here (sets_connect s hook)
  perform-Run s (Call.on_disconnect hook) sound = next here (sets_disconnect s hook)
  perform-Run s (Call.on_bytes_received callback) sound = next here (sets_bytes s callback)
  perform-Run s (Call.on_neighbor_list_updated callback) sound = next here (sets_list s callback)
  perform-Run s (Call.on_neighbor_updated callback) sound = next here (sets_neighbor s callback)
  perform-Run s (Call.register_custom_action name callback manifest) sound =
      next here (registers s name callback manifest)
  perform-Run s (Call.register_custom_action_without_manifest name callback) sound =
      next here (registers s name callback [])
  perform-Run s (Call.queue_and_send message) sound = next here (queues s message)
  perform-Run s (Call.send_bytes destination_id payload payload_size) sound =
      send_bytes-Run P rand s destination_id payload payload_size
  perform-Run s (Call.send_neighbor_update_request neighbor_id) sound =
      send_host_api_request-Run s _
  perform-Run s (Call.send_neighbor_list_update_request) sound = send_host_api_request-Run s _

  Run-append :
      {s t u : Bridge P} (es fs : List (Effect P))
      → Run P rand s es t
      → Run P rand t fs u
      → Run P rand s (es ++ fs) u
  Run-append {s} {t} es fs r (here) = subst (λ x. Run P rand s x t) (sym (append-nil es)) r
  Run-append {s} {u} es fs r (next {effects} {later} k st) =
      subst (λ x. Run P rand s x u) (append_assoc es effects later)
        (next (Run-append es effects r k) st)

  -- The calls that a user makes of a bridge, with their answers, and what the threads do between them.
  pub data Session (s : Bridge P)
      : List (Call P × Option Bool) → List (Effect P) → Bridge P → Type 0 where
    opens : Session s [] [] s
    performs :
        {calls : List (Call P × Option Bool)} {es later : List (Effect P)} {t u : Bridge P}
        {answer : Option Bool}
        → Session s calls es t
        → (c : Call P) → perform t c ≡ value (u, answer, later)
        → Session s (calls ++ (c, answer) ∷ []) (es ++ later) u
    meanwhile :
        {calls : List (Call P × Option Bool)} {es later : List (Effect P)} {t u : Bridge P}
        → Session s calls es t
        → Run P rand t later u
        → Session s calls (es ++ later) u

  performed-Run :
      (t u : Bridge P) (c : Call P) (answer : Option Bool) (later : List (Effect P))
      → perform t c ≡ value (u, answer, later)
      → IsSound P t
      → Run P rand t later u
  performed-Run t u c answer later e sound = rw e at (perform-Run t c sound)

  -- Whatever calls a user makes of a sound bridge, and whatever the threads do between them, is a run
  -- of the steps: what holds of every run holds of every use of the interface.
  pub Session-Run :
      {s u : Bridge P} {calls : List (Call P × Option Bool)} {es : List (Effect P)}
      → Session s calls es u
      → IsSound P s
      → Run P rand s es u
  Session-Run (opens) sound = here
  Session-Run (performs {es} {later} {t} {u} {answer} d c e) sound =
      let before = Session-Run d sound in
      Run-append es later before
        (performed-Run t u c answer later e (Run-IsSound P rand before sound))
  Session-Run (meanwhile {es} {later} d r) sound = Run-append es later (Session-Run d sound) r
