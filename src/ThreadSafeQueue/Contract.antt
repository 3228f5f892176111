-- ===== src/ThreadSafeQueue/Contract.antt =====
-- include/hivemind-bridge/IThreadSafeQueue.h: the operations of a queue, and what they promise of the items in
-- it, the oldest first.
use hive_mind_bridge.Prelude.{
  ℕ, ◌≡◌, refl, Bool, true, false, List, [], ◌∷◌, ◌++◌, length, Access, value,
}
use hive_mind_bridge.ThreadSafeQueue

module _ {ℓ} where
  pub record IThreadSafeQueue (T Queue : Type ℓ) : Type ℓ where
    pub push : Queue → T → Queue
    pub pop : Queue → Access Queue
    pub front : Queue → Access T
    pub back : Queue → Access T
    pub size : Queue → ℕ
    pub empty : Queue → Bool
    pub items : Queue → List T
    pub items-push : (q : Queue) (item : T) → items (push q item) ≡ items q ++ item ∷ []
    pub pop_lem :
        (q : Queue) (x : T) (rest : List T)
        → items q ≡ x ∷ rest
        → (q' : Queue) × (pop q ≡ value q') × (items q' ≡ rest)
    pub front_lem : (q : Queue) (x : T) (rest : List T) → items q ≡ x ∷ rest → front q ≡ value x
    pub back_lem : (q : Queue) (x : T) (rest : List T) → items q ≡ rest ++ x ∷ [] → back q ≡ value x
    pub size_lem : (q : Queue) → size q ≡ length (items q)
    pub empty_lem : (q : Queue) → empty q ≡ true → items q ≡ []
    pub not_empty_lem :
        (q : Queue) → empty q ≡ false → (x : T) × (rest : List T) × (items q ≡ x ∷ rest)

module _ {ℓ} {T : Type ℓ} where
  back-append : (rest : List T) (x : T) → ThreadSafeQueue.back (rest ++ x ∷ []) ≡ value x
  unfolding ThreadSafeQueue.back
  back-append [] x = refl
  back-append (y ∷ []) x = refl
  back-append (y ∷ z ∷ rest) x = back-append (z ∷ rest) x

  empty-true : (q : List T) → ThreadSafeQueue.empty q ≡ true → q ≡ []
  unfolding ThreadSafeQueue.empty
  empty-true [] e = refl
  empty-true (x ∷ q) e = cc

  empty-false :
      (q : List T) → ThreadSafeQueue.empty q ≡ false → (x : T) × (rest : List T) × (q ≡ x ∷ rest)
  unfolding ThreadSafeQueue.empty
  empty-false [] e = cc
  empty-false (x ∷ q) e = (x, q, refl)

  -- The queue of the bridge keeps the promises.
  unfoldable pub thread_safe_queue : IThreadSafeQueue T (List T)
  unfolding ThreadSafeQueue.push ThreadSafeQueue.pop ThreadSafeQueue.front ThreadSafeQueue.size
      back-append empty-true empty-false
  thread_safe_queue = record {
    push = ThreadSafeQueue.push;
    pop = ThreadSafeQueue.pop;
    front = ThreadSafeQueue.front;
    back = ThreadSafeQueue.back;
    size = ThreadSafeQueue.size;
    empty = ThreadSafeQueue.empty;
    items = λ q. q;
    items-push = λ q item. refl;
    pop_lem = λ q x rest e. (rest, rw e refl, refl);
    front_lem = λ q x rest e. rw e refl;
    back_lem = λ q x rest e. rw e (back-append rest x);
    size_lem = λ q. refl;
    empty_lem = empty-true;
    not_empty_lem = empty-false;
  }
