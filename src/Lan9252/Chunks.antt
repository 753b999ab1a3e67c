-- ===== src/Lan9252/Chunks.antt =====
-- The widths of the accesses to the core registers (`esc_next_chunk_size`).
use ul_ecat.Common.{ℕ, ◌%◌, ◌≤◌, ◌≡◌, ◌⊎◌, inl, inr, refl, arith, and_1, and_2}
use ul_ecat.Lan9252.Core.{esc_next_chunk_size}

-- The accesses that the LAN9252 has: one byte anywhere, two at an even address, four at a multiple
-- of four.
abbrev pub IsAccess : ℕ → ℕ → Type 0
IsAccess address n = ((n ≡ 1) ⊎ (n ≡ 2) ⊎ (n ≡ 4)) × (address % n ≡ 0)

next_cases :
    (address len : ℕ)
    → 1 ≤ len
    → (esc_next_chunk_size address len ≡ 1)
      ⊎ (((esc_next_chunk_size address len ≡ 2) × (address % 2 ≡ 0) × (2 ≤ len))
          ⊎ ((esc_next_chunk_size address len ≡ 4) × (address % 4 ≡ 0) × (4 ≤ len)))
unfolding esc_next_chunk_size
next_cases address len h = ground (arith, and_1 address, and_2 address, and_1 len)

access_of :
    (address n len m : ℕ)
    → (n ≡ m)
    → ((m ≡ 1) ⊎ (m ≡ 2) ⊎ (m ≡ 4))
    → (address % m ≡ 0)
    → 1 ≤ m
    → m ≤ len
    → IsAccess address n × (1 ≤ n) × (n ≤ len)
access_of address n len m e c d l u = rw e ((c, d), l, u)

-- The next access is one that the chip has, takes something, and takes no more than is left.
pub esc_next_chunk_size-IsAccess :
    (address len : ℕ)
    → 1 ≤ len
    → IsAccess address (esc_next_chunk_size address len)
      × (1 ≤ esc_next_chunk_size address len)
      × (esc_next_chunk_size address len ≤ len)
esc_next_chunk_size-IsAccess address len h = elim (next_cases address len h) [
  | inl e ↦ access_of address _ len 1 e (inl refl) (omega arith) (omega arith) h
  | inr (inl (e, d, u)) ↦ access_of address _ len 2 e (inr (inl refl)) d (omega arith) u
  | inr (inr (e, d, u)) ↦ access_of address _ len 4 e (inr (inr refl)) d (omega arith) u
]
