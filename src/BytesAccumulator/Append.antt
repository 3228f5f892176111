-- ===== src/BytesAccumulator/Append.antt =====
-- The loop of `appendBytes` copies a prefix of the packet's payload.
use hive_mind_bridge.Prelude.{
  ℕ, zero, suc, ◌+◌, ◌≤◌, ◌≡◌, refl, sym, List, [], ◌∷◌, ◌++◌, arith, some, length, take, drop,
  get_elem?, append_assoc, append-nil,
}
use hive_mind_bridge.BytesAccumulator.{push_bytes}

-- An index in range splits the rest of the list.
drop_step :
    (i : ℕ) (xs : List ℕ)
    → suc i ≤ length xs
    → (b : ℕ) × (get_elem? xs i ≡ some b) × (drop i xs ≡ b ∷ drop (suc i) xs)
drop_step i [] h = absurd (omega arith)
drop_step zero (x ∷ xs) h = (x, refl, refl)
drop_step (suc i) (x ∷ xs) h = drop_step i xs (omega arith)

push_bytes-from :
    (n i : ℕ) (bytes m_bytes : List ℕ)
    → i + n ≤ length bytes
    → push_bytes n i bytes m_bytes ≡ m_bytes ++ take n (drop i bytes)
unfolding push_bytes
push_bytes-from zero i bytes m_bytes h = sym (append-nil m_bytes)
push_bytes-from (suc n) i bytes m_bytes h =
    let (b, here, rest) = drop_step i bytes (omega arith) in
    let next : i + 1 ≡ suc i = omega arith in
    rw (here, rest, next)
      (rw (push_bytes-from n (suc i) bytes (m_bytes ++ b ∷ []) (omega arith))
        (append_assoc m_bytes (b ∷ []) _))

-- With at least `n` bytes in the array, the loop appends the first `n` of them.
pub push_bytes-eq-take :
    (n : ℕ) (bytes m_bytes : List ℕ)
    → n ≤ length bytes
    → push_bytes n 0 bytes m_bytes ≡ m_bytes ++ take n bytes
push_bytes-eq-take n bytes m_bytes h = push_bytes-from n 0 bytes m_bytes (omega arith)
