-- ===== src/Bridge/Outbound/Delivery.antt =====
-- The outbound loop sends what was queued once, in order, and lets go of it.
use hive_mind_bridge.Prelude.{
  All, ℕ, zero, suc, ◌+◌, ◌-◌, ◌≤◌, ◌<◌, ◌≡◌, refl, sym, ap, ◌∙◌, true, none, List, [], ◌∷◌, ◌++◌,
  map, arith, lookup, nat_eq, length, append_assoc, append-nil, Access, value, ◌>>=◌,
}
use hive_mind_bridge.Pheromones.{Pheromones}
use hive_mind_bridge.Pheromones
use hive_mind_bridge.Effect.{Effect, serialized}
use hive_mind_bridge.Handle.{OutboundRequestHandle, OutboundRequestState}
use hive_mind_bridge.Bridge.{Bridge}
use hive_mind_bridge.Bridge.Outbound.{outbound_round, process}

module _ (P : Pheromones) where
  open P use {MessageDto, RequestDto, get_message, request_id}

  unfoldable pub outbound_rounds : ℕ → Bridge P → Access (Bridge P × List (Effect P))
  outbound_rounds zero s = value (s, [])
  outbound_rounds (suc n) s = do
    (s', effects) ← outbound_round P s
    (s'', later) ← outbound_rounds n s'
    value (s'', effects ++ later)

  pub outbound_round-cons :
      (s : Bridge P) (h : OutboundRequestHandle P) (rest : List (OutboundRequestHandle P))
      → s.tcp_server.is_connected ≡ true
      → s.outbound_queue ≡ h ∷ rest
      → outbound_round P s ≡ value (process P (record s { outbound_queue = rest }) h)
  unfolding outbound_round
  outbound_round-cons s h rest c e = ground arith

  -- A request that was not sent yet, and to which no response is at hand.
  abbrev pub IsUnsent : Bridge P → OutboundRequestHandle P → Type 0
  IsUnsent s h =
      (h.state ≡ OutboundRequestState.ready)
      × ((r : RequestDto) × (get_message h.message ≡ Pheromones.MessageBody.request r)
          × (lookup (request_id r) s.inbound_responses_map ≡ none))

  abbrev pub mark_sent : OutboundRequestHandle P → OutboundRequestHandle P
  mark_sent h = record h { state = OutboundRequestState.sent }

  process-unsent :
      (s : Bridge P) (h : OutboundRequestHandle P)
      → IsUnsent s h
      → process P s h ≡ (
        record s { outbound_queue = s.outbound_queue ++ mark_sent h ∷ [] },
        serialized h.message ∷ [],
      )
  unfolding process
  process-unsent s h (fresh, (r, holds, quiet)) = ground arith

  -- With a client, requests that were not sent yet and have no response, at the head of the queue,
  -- leave in as many rounds, one each and in their order; they wait, marked as sent, at the end of
  -- the queue, behind what was there before.
  pub outbound_rounds_send :
      (hs tail : List (OutboundRequestHandle P)) (s : Bridge P)
      → s.tcp_server.is_connected ≡ true
      → s.outbound_queue ≡ hs ++ tail
      → All (IsUnsent s) hs
      → outbound_rounds (length hs) s
        ≡ value (
          record s { outbound_queue = tail ++ map mark_sent hs },
          map (λ h. serialized h.message) hs,
        )
  unfolding outbound_rounds
  outbound_rounds_send [] tail s c e a =
      ap (λ q. value (record s { outbound_queue = q }, [])) (e ∙ sym (append-nil tail))
  outbound_rounds_send (h ∷ hs) tail s c e a =
      rw
        (
          outbound_round-cons s h (hs ++ tail) c e,
          process-unsent (record s { outbound_queue = hs ++ tail }) h a.0,
        )
        (rw
          (outbound_rounds_send hs (tail ++ mark_sent h ∷ [])
            (record s { outbound_queue = (hs ++ tail) ++ mark_sent h ∷ [] }) c
            (append_assoc hs tail (mark_sent h ∷ [])) a.1)
          (rw (append_assoc tail (mark_sent h ∷ []) (map mark_sent hs))))

  -- The most rounds in which a handle can come to the head of the queue.
  abbrev pub rounds_left : OutboundRequestHandle P → ℕ
  rounds_left h = elim h.state [
    | OutboundRequestState.ready ↦ suc (suc (9 - h.delay_since_sent))
    | OutboundRequestState.sent ↦ suc (9 - h.delay_since_sent)
  ]

  abbrev pub all_rounds_left : List (OutboundRequestHandle P) → ℕ
  all_rounds_left [] = 0
  all_rounds_left (h ∷ hs) = rounds_left h + all_rounds_left hs

  all_rounds_left-append :
      (hs ks : List (OutboundRequestHandle P))
      → all_rounds_left (hs ++ ks) ≡ all_rounds_left hs + all_rounds_left ks
  all_rounds_left-append [] ks = omega arith
  all_rounds_left-append (h ∷ hs) ks = omega (arith, all_rounds_left-append hs ks)

  process-progress :
      (s : Bridge P) (h : OutboundRequestHandle P)
      → (all_rounds_left (process P s h).0.outbound_queue
          < rounds_left h + all_rounds_left s.outbound_queue)
        × ((process P s h).0.tcp_server ≡ s.tcp_server)
  unfolding process
  process-progress s h = ground (
    arith,
    all_rounds_left-append s.outbound_queue (mark_sent h ∷ []),
    all_rounds_left-append s.outbound_queue
        (record h { delay_since_sent = h.delay_since_sent + 1 } ∷ []),
  )

  outbound_rounds-empty :
      (n : ℕ) (s : Bridge P)
      → s.tcp_server.is_connected ≡ true
      → s.outbound_queue ≡ []
      → outbound_rounds n s ≡ value (s, [])
  unfolding outbound_rounds
  outbound_rounds-empty zero s c e = refl
  outbound_rounds-empty (suc n) s c e = rw (idle s c e) (rw (outbound_rounds-empty n s c e))
    where
      idle :
          (s : Bridge P)
          → s.tcp_server.is_connected ≡ true
          → s.outbound_queue ≡ []
          → outbound_round P s ≡ value (s, [])
      idle s c e = unfold outbound_round in ground arith

  -- No handle stays: while the client is there and nothing new is queued, as many rounds as the
  -- handles have left, or more, empty the queue, with no fault on the way.
  pub outbound_rounds_drain :
      (n : ℕ) (s : Bridge P)
      → s.tcp_server.is_connected ≡ true
      → all_rounds_left s.outbound_queue ≤ n
      → (s' : Bridge P) × (effects : List (Effect P)) × (outbound_rounds n s ≡ value (s', effects))
        × (s'.outbound_queue ≡ [])
  unfolding outbound_rounds
  outbound_rounds_drain n s c h = go n s s.outbound_queue refl c h
    where
      go :
          (n : ℕ) (s : Bridge P) (q : List (OutboundRequestHandle P))
          → s.outbound_queue ≡ q
          → s.tcp_server.is_connected ≡ true
          → all_rounds_left s.outbound_queue ≤ n
          → (s' : Bridge P) × (effects : List (Effect P)) × (outbound_rounds n s
              ≡ value (s', effects))
            × (s'.outbound_queue ≡ [])
      go n s [] e c h = (s, [], outbound_rounds-empty n s c e, e)
      go zero s (k ∷ rest) e c h = absurd (ground (arith, ap all_rounds_left e))
      go (suc n) s (k ∷ rest) e c h =
          let taken = record s { outbound_queue = rest } in
          let (fewer, same) = process-progress taken k in
          let (s', effects, run, done) =
            go n (process P taken k).0 _ refl (ap (λ t. t.is_connected) same ∙ c)
              (omega (arith, ap all_rounds_left e)) in
          (
            s',
            (process P taken k).1 ++ effects,
            rw (outbound_round-cons s k rest c e) (rw run),
            done,
          )
