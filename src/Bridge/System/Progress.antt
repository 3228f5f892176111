-- ===== src/Bridge/System/Progress.antt =====
-- What is queued is processed: the outbound queue is first in, first out in every run.
use hive_mind_bridge.Prelude.{
  true, false, Bool-cases, is_set, lookup, nat_eq, ℕ, zero, suc, ◌+◌, ◌<◌, ◌≡◌, refl, sym, ap,
  subst, ◌∙◌, ◌⊎◌, inl, inr, List, [], ◌∷◌, ◌++◌, append_assoc, length, arith,
}
use hive_mind_bridge.Pheromones.{Pheromones}
use hive_mind_bridge.Effect.{Effect, serialized}
use hive_mind_bridge.Handle.{OutboundRequestHandle, OutboundRequestState}
use hive_mind_bridge.Pheromones
use hive_mind_bridge.Bridge.{Bridge}
use hive_mind_bridge.Bridge.Outbound.{process, send_or_cycle}
use hive_mind_bridge.Bridge.System.{Step, Run, here, next}
use hive_mind_bridge.Bridge.System.Front.{Processes}
use hive_mind_bridge.Bridge.System.Queue.{Extends, process-Extends, rounds_of, Step-queue}

module _ (P : Pheromones) (rand : ℕ → ℕ) where
  -- The rounds of the outbound loop in a run that find a client and something to send.
  unfoldable pub rounds_made :
      {s u : Bridge P} {effects : List (Effect P)} → Run P rand s effects u → ℕ
  rounds_made (here) = 0
  rounds_made (next r st) = rounds_made r + rounds_of P rand st

  -- One of the steps of the run is such a step.
  abbrev pub SomeStep :
      (is : (t : Bridge P) (now : List (Effect P)) (v : Bridge P) → Step P rand t now v → Type 0)
      → {s u : Bridge P} {effects : List (Effect P)} → Run P rand s effects u
      → Type 0
  SomeStep is (here) = ⊥
  SomeStep is (next {effects} {later} {t} {u} r st) = SomeStep is r ⊎ is t later u st

  -- The step is a round of the outbound loop that takes the handle off the front of the queue and
  -- leaves, in state and effects, what processing it leaves.
  abbrev pub Takes :
      OutboundRequestHandle P
      → (t : Bridge P) → (now : List (Effect P)) → (v : Bridge P) → Step P rand t now v
      → Type 0
  Takes h t now v st =
      (rounds_of P rand st ≡ 1)
      × ((rest : List (OutboundRequestHandle P)) × (t.outbound_queue ≡ h ∷ rest)
          × ((v, now) ≡ process P (record t { outbound_queue = rest }) h))

  -- The round sends the message of the handle and nothing else, or finds a response with the id.
  abbrev pub Serializes :
      OutboundRequestHandle P
      → P.RequestDto
      → (t : Bridge P) → (now : List (Effect P)) → (v : Bridge P) → Step P rand t now v
      → Type 0
  Serializes h request t now v st =
      Takes h t now v st
      × ((now ≡ serialized h.message ∷ [])
          ⊎ (is_set (lookup (P.request_id request) t.inbound_responses_map) ≡ true))

  SomeStep-map :
      (is that : (t : Bridge P) (now : List (Effect P)) (v : Bridge P)
        → Step P rand t now v
        → Type 0)
      → ((t : Bridge P) (now : List (Effect P)) (v : Bridge P) (st : Step P rand t now v)
          → is t now v st
          → that t now v st)
      → {s u : Bridge P} {effects : List (Effect P)} (r : Run P rand s effects u) → SomeStep is r
      → SomeStep that r
  SomeStep-map is that f (here) h = absurd h
  SomeStep-map is that f (next r st) (inl before) = inl (SomeStep-map is that f r before)
  SomeStep-map is that f (next {effects} {later} {t} {u} r st) (inr now) = inr (f t later u st now)

  module _ (s : Bridge P) (h : OutboundRequestHandle P) where
    -- The handle is still queued, with `n` others before it.
    abbrev IsWaiting : Bridge P → ℕ → Type 0
    IsWaiting u n =
        (front : List (OutboundRequestHandle P)) × (back : List (OutboundRequestHandle P))
        × (u.outbound_queue ≡ front ++ h ∷ back)
        × (length front ≡ n)

    IsWaiting-Extends : (t u : Bridge P) (n : ℕ) → Extends P t u → IsWaiting t n → IsWaiting u n
    IsWaiting-Extends t u n (new, e) (front, back, q, l) =
        (front, back ++ new, e ∙ ap (λ x. x ++ new) q ∙ append_assoc front (h ∷ back) new, l)

    IsWaiting-Processes :
        (t u : Bridge P) (later : List (Effect P)) (n : ℕ)
        → Processes P t later u
        → IsWaiting t (suc n)
        → IsWaiting u n
    IsWaiting-Processes t u later n (h', rest, q', p) ([], back, q, l) = absurd (omega arith)
    IsWaiting-Processes t u later n (h', rest, q', p) (x ∷ front, back, q, l) =
        IsWaiting-Extends (record t { outbound_queue = rest }) u n
          (subst (λ x. Extends P (record t { outbound_queue = rest }) x.0) (sym p)
            (process-Extends P (record t { outbound_queue = rest }) h'))
          (front, back, cc, omega arith)

    front_taken :
        (t u : Bridge P) (later : List (Effect P)) (st : Step P rand t later u)
        → rounds_of P rand st ≡ 1
        → Processes P t later u
        → IsWaiting t 0
        → Takes h t later u st
    front_taken t u later st one_made (h', rest, q', p) ([], back, q, l) =
        (one_made, (rest, cc, p ∙ ap (λ x. process P (record t { outbound_queue = rest }) x) (cc)))
    front_taken t u later st one_made (h', rest, q', p) (x ∷ front, back, q, l) =
        absurd (omega arith)

    -- Each round with something to send brings a waiting handle one place forward.
    advances :
        (front back : List (OutboundRequestHandle P))
        → s.outbound_queue ≡ front ++ h ∷ back
        → {u : Bridge P} {effects : List (Effect P)} (r : Run P rand s effects u)
        → SomeStep (Takes h) r ⊎ ((n : ℕ) × IsWaiting u n × (length front ≡ rounds_made r + n))
    unfolding rounds_made
    advances front back q (here) = inr (length front, (front, back, q, refl), omega arith)
    advances front back q (next {effects} {later} {t} {u} r st) =
        stepped (advances front back q r) (Step-queue P rand st)
      where
        stepped :
            SomeStep (Takes h) r ⊎ ((n : ℕ) × IsWaiting t n × (length front ≡ rounds_made r + n))
            → ((rounds_of P rand st ≡ 0) × Extends P t u)
              ⊎ ((rounds_of P rand st ≡ 1) × Processes P t later u)
            → (SomeStep (Takes h) r ⊎ Takes h t later u st)
              ⊎ ((n : ℕ) × IsWaiting u n × (length front ≡ rounds_made r + rounds_of P rand st + n))
        stepped (inl done) q = inl (inl done)
        stepped (inr (n, w, l)) (inl (none_made, ex)) =
            inr (n, IsWaiting-Extends t u n ex w, omega arith)
        stepped (inr (zero, w, l)) (inr (one_made, p)) =
            inl (inr (front_taken t u later st one_made p w))
        stepped (inr (suc n, w, l)) (inr (one_made, p)) =
            inr (n, IsWaiting-Processes t u later n p w, omega arith)

    -- In every run, a handle of the outbound queue is processed once the outbound loop has made more
    -- rounds, with a client and with something to send, than there are handles before this one: one
    -- of the steps of this run is a round that finds the handle at the front of the queue, takes it
    -- off, and leaves the state and the effects that processing it leaves.
    pub run_processes :
        (front back : List (OutboundRequestHandle P))
        → s.outbound_queue ≡ front ++ h ∷ back
        → {u : Bridge P} {effects : List (Effect P)} (r : Run P rand s effects u)
        → length front < rounds_made r
        → SomeStep (Takes h) r
    run_processes front back q r enough = elim (advances front back q r) [
      | inl done ↦ done
      | inr (n, w, l) ↦ absurd (omega arith)
    ]

    module _ (r : P.RequestDto) (holds : P.get_message h.message ≡ Pheromones.MessageBody.request r)
        (fresh : h.state ≡ OutboundRequestState.ready) where
      process_fresh :
          (t : Bridge P)
          → is_set (lookup (P.request_id r) t.inbound_responses_map) ≡ false
          → (process P t h).1 ≡ serialized h.message ∷ []
      unfolding process send_or_cycle
      process_fresh t unanswered = rw (holds, process) (rw (unanswered, fresh) refl)

      Takes-Serializes :
          (t : Bridge P) (now : List (Effect P)) (v : Bridge P) (st : Step P rand t now v)
          → Takes h t now v st
          → Serializes h r t now v st
      Takes-Serializes t now v st (one_made, (rest, q, p)) =
          elim (Bool-cases (is_set (lookup (P.request_id r) t.inbound_responses_map))) [
            | inl answered ↦ ((one_made, (rest, q, p)), inr answered)
            | inr unanswered ↦ (
              (one_made, (rest, q, p)),
              inl (ap (λ x. x.1) p ∙ process_fresh (record t { outbound_queue = rest }) unanswered),
            )
          ]

      -- In every run, a queued request that was not sent yet comes to its turn once the outbound loop
      -- has made more rounds, with a client and with something to send, than there are handles before
      -- it: one of the steps of this run is a round that takes it off the front of the queue, and the
      -- effects of this step are its message, given to the serializer, and nothing else, or a response
      -- with its id was at hand when the step began.
      pub run_sends :
          (front back : List (OutboundRequestHandle P))
          → s.outbound_queue ≡ front ++ h ∷ back
          → {u : Bridge P} {effects : List (Effect P)} (run : Run P rand s effects u)
          → length front < rounds_made run
          → SomeStep (Serializes h r) run
      run_sends front back q run enough =
          SomeStep-map (Takes h) (Serializes h r) Takes-Serializes run
            (run_processes front back q run enough)
