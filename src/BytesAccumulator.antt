-- ===== src/BytesAccumulator.antt =====
-- src/BytesAccumulator.cpp and include/hivemind-bridge/BytesAccumulator.h: the bytes of one packet
-- stream, put together in the order of the packet numbers.
pub mod Append
use hive_mind_bridge.Prelude.{
  ℕ, zero, suc, ◌+◌, ◌-◌, ◌%◌, ◌^◌, Bool, true, false, none, some, List, [], ◌∷◌, ◌++◌, ◌==◌,
  if◌then◌else◌, get_elem?,
}

pub record BytesAccumulator : Type 0 where
  pub bytes : List ℕ
  pub last_packet_number : ℕ  -- uint32_t

-- `m_lastPacketNumber = -1`, as a uint32_t
abbrev pub new_accumulator : BytesAccumulator
new_accumulator = record { bytes = []; last_packet_number = 2 ^ 32 - 1 }

-- The loop of `appendBytes` from index `i`, with `rounds` to go. A read past the end of the array is
-- undefined in C++; here it adds nothing.
unfoldable pub push_bytes : (rounds i : ℕ) → (bytes : List ℕ) → (m_bytes : List ℕ) → List ℕ
push_bytes zero i bytes m_bytes = m_bytes
push_bytes (suc n) i bytes m_bytes =
    push_bytes n (i + 1) bytes
      (elim (get_elem? bytes i) [ none ↦ m_bytes | some b ↦ m_bytes ++ b ∷ [] ])

unfoldable pub append_bytes :
    BytesAccumulator → (bytes : List ℕ) → (length packet_number : ℕ) → BytesAccumulator × Bool
unfolding push_bytes
append_bytes a bytes length packet_number =
    if packet_number == (a.last_packet_number + 1) % 2 ^ 32
    then (
      record { bytes = push_bytes length 0 bytes a.bytes; last_packet_number = packet_number },
      true,
    )
    else (a, false)

abbrev pub get_bytes : BytesAccumulator → List ℕ
get_bytes a = a.bytes

abbrev pub get_last_packet_number : BytesAccumulator → ℕ
get_last_packet_number a = a.last_packet_number
