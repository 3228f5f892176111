-- ===== src/ThreadSafeQueue/Interleaving.antt =====
-- A queue with one consumer: producers may push between the calls of `empty`, `front` and `pop`.
use hive_mind_bridge.Prelude.{
  ◌≡◌, ap, ◌∙◌, sym, false, List, [], ◌∷◌, ◌++◌, append_assoc, append-nil, value, ◌>>=◌,
}
use hive_mind_bridge.ThreadSafeQueue.{pop, front, empty}
use hive_mind_bridge.ThreadSafeQueue.Contract.{IThreadSafeQueue, thread_safe_queue}

-- Whatever keeps the promises of the interface.
module _ {ℓ} {T Queue : Type ℓ} (I : IThreadSafeQueue T Queue) where
  pushes : Queue → List T → Queue
  pushes q [] = q
  pushes q (x ∷ xs) = pushes (I.push q x) xs

  items-pushes : (q : Queue) (xs : List T) → I.items (pushes q xs) ≡ I.items q ++ xs
  unfolding pushes
  items-pushes q [] = sym (append-nil (I.items q))
  items-pushes q (x ∷ xs) =
      items-pushes (I.push q x) xs
      ∙ ap (λ l. l ++ xs) (I.items-push q x)
      ∙ append_assoc (I.items q) (x ∷ []) xs

  consumes :
      (q : Queue) (before between after : List T)
      → I.empty q ≡ false
      → (x : T) × (rest : List T) × (q' : Queue) × (I.items q ≡ x ∷ rest)
        × (I.front (pushes q before) ≡ value x)
        × (I.pop (pushes (pushes q before) between) ≡ value q')
        × (I.items (pushes q' after) ≡ rest ++ (before ++ between ++ after))
  consumes q before between after h =
      let (x, rest, held) = I.not_empty_lem q h in
      let first = items-pushes q before ∙ ap (λ l. l ++ before) held in
      let second = items-pushes (pushes q before) between ∙ ap (λ l. l ++ between) first in
      let (q', popped, left) =
        I.pop_lem (pushes (pushes q before) between) x ((rest ++ before) ++ between) second in
      (
        x,
        rest,
        q',
        held,
        I.front_lem (pushes q before) x (rest ++ before) first,
        popped,
        items-pushes q' after ∙ ap (λ l. l ++ after) left ∙ simp append_assoc,
      )

module _ {ℓ} {T : Type ℓ} where
  pub push_all : List T → List T → List T
  push_all q xs = pushes thread_safe_queue q xs

  -- Once the consumer has seen that the queue is not empty, `front` and `pop` are defined whatever is
  -- pushed before, between and after them, they name and remove the same item, the oldest, and the
  -- queue is left as if `pop` had come first.
  pub front-pop_interleaved :
      (q before between after : List T)
      → empty q ≡ false
      → (x : T) × (rest : List T) × (q ≡ x ∷ rest)
        × (front (push_all q before) ≡ value x)
        × ((pop (push_all (push_all q before) between) >>= λ q'. value (push_all q' after))
            ≡ value (push_all rest (before ++ between ++ after)))
  unfolding push_all thread_safe_queue
  front-pop_interleaved q before between after h =
      let (x, rest, q', held, seen, popped, left) =
        consumes thread_safe_queue q before between after h in
      (
        x,
        rest,
        held,
        seen,
        rw popped (
            ap value
              (left ∙ sym (items-pushes thread_safe_queue rest (before ++ between ++ after)))),
      )
