-- ===== src/Bridge/System/Unsent.antt =====
-- The messages of the outbound queue that were not sent yet, and what the processing of a handle does to them.
use hive_mind_bridge.Prelude.{◌≡◌, refl, ◌⊎◌, List, [], ◌∷◌, ◌++◌, append-nil, arith}
use hive_mind_bridge.Pheromones.{Pheromones}
use hive_mind_bridge.Effect.{Effect, serialized}
use hive_mind_bridge.Handle.{
  OutboundRequestHandle, OutboundRequestState, outbound_request_handle, bump_delay_since_sent,
}
use hive_mind_bridge.Bridge.{Bridge}
use hive_mind_bridge.Bridge.Outbound.{process}
use hive_mind_bridge.Bridge.Outbound.Delivery.{mark_sent}
use hive_mind_bridge.Bridge.System.Invariant.{IsTimely}

module _ (P : Pheromones) where
  open P use {MessageDto}

  -- The messages of the handles that were not sent yet.
  unfoldable pub unsent : List (OutboundRequestHandle P) → List MessageDto
  unsent [] = []
  unsent (h ∷ hs) =
      let rest = unsent hs in
      elim h.state [
        | OutboundRequestState.ready ↦ h.message ∷ rest
        | OutboundRequestState.sent ↦ rest
      ]

  -- The messages that are given to the serializer.
  unfoldable pub messages : List (Effect P) → List MessageDto
  messages [] = []
  messages (serialized message ∷ es) = message ∷ messages es
  messages (_ ∷ es) = messages es

  unsent-append :
      (hs ks : List (OutboundRequestHandle P)) → unsent (hs ++ ks) ≡ unsent hs ++ unsent ks
  unfolding unsent
  unsent-append [] ks = refl
  unsent-append (h ∷ hs) ks = ground (arith, unsent-append hs ks)

  pub unsent-new :
      (hs : List (OutboundRequestHandle P)) (message : MessageDto)
      → unsent (hs ++ outbound_request_handle P message ∷ []) ≡ unsent hs ++ message ∷ []
  unfolding unsent
  unsent-new hs message = unsent-append hs (outbound_request_handle P message ∷ [])

  unsent-old :
      (hs : List (OutboundRequestHandle P)) (h : OutboundRequestHandle P)
      → h.state ≡ OutboundRequestState.sent
      → unsent (hs ++ h ∷ []) ≡ unsent hs
  unfolding unsent
  unsent-old hs h e = ground (arith, unsent-append hs (h ∷ []), append-nil (unsent hs))

  module _ (s : Bridge P) (h : OutboundRequestHandle P) (timely : IsTimely P h) where
    pub process-sent :
        h.state ≡ OutboundRequestState.sent
        → let (u, effects) = process P s h in
          (messages effects ≡ []) × (unsent u.outbound_queue ≡ unsent s.outbound_queue)
    unfolding process messages
    process-sent e = ground (arith, unsent-old s.outbound_queue (bump_delay_since_sent P h 1) e)

    pub process-ready :
        h.state ≡ OutboundRequestState.ready
        → let (u, effects) = process P s h in
          ((messages effects ≡ []) ⊎ (messages effects ≡ h.message ∷ []))
          × (unsent u.outbound_queue ≡ unsent s.outbound_queue)
    unfolding process messages
    process-ready e = ground (arith, unsent-old s.outbound_queue (mark_sent P h) refl)

  pub unsent-ready :
      (h : OutboundRequestHandle P) (rest : List (OutboundRequestHandle P))
      → h.state ≡ OutboundRequestState.ready
      → unsent (h ∷ rest) ≡ h.message ∷ unsent rest
  unfolding unsent
  unsent-ready h rest e = ground arith

  pub unsent-sent :
      (h : OutboundRequestHandle P) (rest : List (OutboundRequestHandle P))
      → h.state ≡ OutboundRequestState.sent
      → unsent (h ∷ rest) ≡ unsent rest
  unfolding unsent
  unsent-sent h rest e = ground arith
