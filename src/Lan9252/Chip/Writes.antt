-- ===== src/Lan9252/Chip/Writes.antt =====
-- A write to the core registers by controllers/lan9252/src/lan9252.c stores its bytes.
use ul_ecat.Common.{
  ℕ, zero, suc, ◌+◌, ◌-◌, ◌*◌, ◌≤◌, ◌<◌, ◌≡◌, ◌⊎◌, inl, inr, refl, ap, ap₂, ◌∙◌, List, [], ◌∷◌,
  arith, u16, IsU8, IsU32, AreBytes, AreBytes-take, AreBytes-drop, w32_le, w32_le-bytes, r32_le,
  r32_le-bytes, get_or, length, length-take, length-drop, take, drop, Memory, store,
}
use ul_ecat.Lan9252.{Spi, ok, etimedout, eio, busy_max}
use ul_ecat.Lan9252.Core.{
  csr_esc_csr_data, csr_esc_csr_cmd, esc_next_chunk_size, csr_cmd_wait_not_busy, esc_write_csr_u16,
  esc_write_loop,
}
use ul_ecat.Lan9252.Access.{esc_write}
use ul_ecat.Lan9252.Chunks.{IsAccess, esc_next_chunk_size-IsAccess}
use ul_ecat.Lan9252.Chip.{Registers, Runs, then-Runs, done-Runs, or_error-Runs, reg32_write-Runs}
use ul_ecat.Lan9252.Chip.Core.{CoreRegisters, WritableCore}
use ul_ecat.Lan9252.Chip.Reads.{
  command, within_limit, is_zero, not_zero, zero_or, poll-Runs, write-Runs,
}

four :
    {a b c d a' b' c' d' : ℕ}
    → a ≡ a'
    → b ≡ b'
    → c ≡ c'
    → d ≡ d'
    → a ∷ b ∷ c ∷ d ∷ [] ≡ a' ∷ b' ∷ c' ∷ d' ∷ []
four h i j k = rw (h, i, j, k) refl

four_bytes :
    (a b c d : ℕ)
    → IsU8 a
    → IsU8 b
    → IsU8 c
    → IsU8 d
    → IsU32 (r32_le (a ∷ b ∷ c ∷ d ∷ []))
      × (w32_le (r32_le (a ∷ b ∷ c ∷ d ∷ [])) ≡ a ∷ b ∷ c ∷ d ∷ [])
four_bytes a b c d p q r s =
    let sum = r32_le-bytes a b c d [] p q r in
    (
      omega (arith, sum),
      w32_le-bytes (r32_le (a ∷ b ∷ c ∷ d ∷ []))
          ∙ four (omega (arith, sum)) (omega (arith, sum)) (omega (arith, sum))
              (omega (arith, sum)),
    )

-- The word of one, two or four bytes, and its bytes again.
word_bytes :
    (bytes : List ℕ)
    → AreBytes bytes
    → (length bytes ≡ 1) ⊎ (length bytes ≡ 2) ⊎ (length bytes ≡ 4)
    → IsU32 (r32_le bytes) × (take (length bytes) (w32_le (r32_le bytes)) ≡ bytes)
unfolding r32_le
word_bytes [] b h = absurd (omega arith)
word_bytes (w ∷ []) b h =
    let whole = four_bytes w 0 0 0 (omega arith) (omega arith) (omega arith) (omega arith) in
    (whole.0, ap (take 1) whole.1)
word_bytes (w ∷ x ∷ []) b h =
    let whole = four_bytes w x 0 0 (omega arith) (omega arith) (omega arith) (omega arith) in
    (whole.0, ap (take 2) whole.1)
word_bytes (w ∷ x ∷ y ∷ []) b h = absurd (omega arith)
word_bytes (w ∷ x ∷ y ∷ z ∷ []) b h =
    let whole = four_bytes w x y z (omega arith) (omega arith) (omega arith) (omega arith) in
    (whole.0, ap (take 4) whole.1)
word_bytes (w ∷ x ∷ y ∷ z ∷ v ∷ rest) b h = absurd (omega arith)

get_or-take : (c i : ℕ) (bs : List ℕ) → i < c → get_or (take c bs) i 0 ≡ get_or bs i 0
get_or-take zero i bs h = absurd (omega arith)
get_or-take (suc c) i [] h = refl
get_or-take (suc c) zero (b ∷ bs) h = refl
get_or-take (suc c) (suc i) (b ∷ bs) h = get_or-take c i bs (omega arith)

get_or-drop : (c i k : ℕ) (bs : List ℕ) → k ≡ c + i → get_or (drop c bs) i 0 ≡ get_or bs k 0
get_or-drop zero i k bs h = ap (λ n. get_or bs n 0) (omega (arith, h))
get_or-drop (suc c) i k [] h = refl
get_or-drop (suc c) i zero (b ∷ bs) h = absurd (omega arith)
get_or-drop (suc c) i (suc k) (b ∷ bs) h = get_or-drop c i k bs (omega arith)

-- Two stores side by side.
store_split_at :
    (m : Memory) (a c : ℕ) (bs : List ℕ) (j : ℕ)
    → c ≤ length bs
    → store (store m a (take c bs)) (a + c) (drop c bs) j ≡ store m a bs j
unfolding store
store_split_at m a c bs j h = ground (
  arith,
  length-take c bs,
  length-drop c bs,
  get_or-take c (j - a) bs,
  get_or-drop c (j - (a + c)) (j - a) bs,
)

store_split :
    (m : Memory) (a c : ℕ) (bs : List ℕ)
    → c ≤ length bs
    → store (store m a (take c bs)) (a + c) (drop c bs) ≡ store m a bs
store_split m a c bs h i j = store_split_at m a c bs j h i

nothing_at :
    (m : Memory) (ado : ℕ) (buf : List ℕ) (j : ℕ) → length buf ≡ 0 → m j ≡ store m ado buf j
unfolding store
nothing_at m ado buf j z = ground arith

nothing : (m : Memory) (ado : ℕ) (buf : List ℕ) → length buf ≡ 0 → m ≡ store m ado buf
nothing m ado buf z i j = nothing_at m ado buf j z i

module _ {W : Type 0} (spi : Spi W) (chip : Registers spi) (core : CoreRegisters chip)
    (writable : WritableCore core) where
  esc_write_csr_u16-Runs :
      (w : W) (address : ℕ) (bytes : List ℕ)
      → chip.IsIdle w
      → IsAccess address (length bytes)
      → AreBytes bytes
      → address + length bytes ≤ 4096
      → (w' : W) × (Runs (esc_write_csr_u16 spi address bytes) w w' tt)
        × (chip.IsIdle w')
        × (core.memory w' ≡ store (core.memory w) address bytes)
  unfolding esc_write_csr_u16 csr_cmd_wait_not_busy
  esc_write_csr_u16-Runs w address bytes i a b h =
      let n : ℕ = length bytes in
      let v : ℕ = r32_le bytes in
      let (u, e) = word_bytes bytes b a.0 in
      let set : W = chip.after_write w csr_esc_csr_data v in
      let set_idle = chip.after_write-IsIdle w csr_esc_csr_data v i in
      let val : ℕ = 0x80000000 + n * 65536 + address in
      let asked : W = chip.after_write set csr_esc_csr_cmd val in
      let (m, q) = writable.write_starts w address n v i a h u in
      let poll =
        poll-Runs spi chip core busy_max asked
          (chip.after_write-IsIdle set csr_esc_csr_cmd val set_idle)
          (within_limit (core.busy asked) q) in
      (
        poll.0,
        then-Runs (or_error-Runs eio (reg32_write-Runs spi chip i (omega arith) u)) (
            then-Runs
              (or_error-Runs eio (
                write-Runs spi chip core val set_idle
                  (command 4096 address n (omega arith) (omega arith)) (omega arith)))
              (or_error-Runs etimedout poll.1)),
        poll.2.idle,
        poll.2.same ∙ m ∙ ap (store (core.memory w) address) e,
      )

  esc_write_loop-Runs :
      (turns : ℕ) (w : W) (ado : ℕ) (buf : List ℕ)
      → chip.IsIdle w
      → AreBytes buf
      → length buf ≤ turns
      → ado + length buf ≤ 4096
      → (w' : W) × (Runs (esc_write_loop spi turns ado buf) w w' tt)
        × (chip.IsIdle w')
        × (core.memory w' ≡ store (core.memory w) ado buf)
  unfolding esc_write_loop
  esc_write_loop-Runs zero w ado buf i b t h =
      (w, done-Runs refl, i, nothing (core.memory w) ado buf (omega arith))
  esc_write_loop-Runs (suc turns) w ado buf i b t h = elim (zero_or (length buf)) [
    | inl z ↦
        (w, rw (is_zero (length buf) z) (done-Runs refl), i, nothing (core.memory w) ado buf z)
    | inr l ↦
        let c : ℕ = esc_next_chunk_size ado (length buf) in
        let (a, lo, hi) = esc_next_chunk_size-IsAccess ado (length buf) l in
        let size = length-take c buf in
        let left = length-drop c buf in
        let taken : length (take c buf) ≡ c = omega arith in
        let first =
          esc_write_csr_u16-Runs w ado (take c buf) i (rw taken a) (AreBytes-take c buf b)
            (omega (arith, size)) in
        let place : u16 (ado + c) ≡ ado + c = omega arith in
        let rest =
          esc_write_loop-Runs turns first.0 (u16 (ado + c)) (drop c buf) first.2
            (AreBytes-drop c buf b) (omega (arith, left)) (omega (arith, left)) in
        (
          rest.0,
          rw (not_zero (length buf) (λ z. omega (arith, z)))
              (then-Runs (or_error-Runs eio first.1) rest.1),
          rest.2,
          rest.3
              ∙ ap₂ (λ m k. store m k (drop c buf)) first.3 place
              ∙ store_split (core.memory w) ado c buf hi,
        )
  ]

  core_part :
      (w w' : W) (ado : ℕ) (buf : List ℕ)
      → 1 ≤ length buf
      → ado < 4096
      → esc_write_loop spi (length buf) ado buf w ≡ (w', ok tt)
      → esc_write spi ado buf w ≡ (w', ok tt)
  unfolding esc_write
  core_part w w' ado buf l a r = ground (arith, r)

  -- On a chip that answers and takes writes: a write of bytes to a range of registers below the
  -- process data RAM succeeds, puts the bytes there, whatever their number and place, and changes
  -- no other register.
  pub esc_write-store :
      (w : W) (ado : ℕ) (buf : List ℕ)
      → chip.IsIdle w
      → AreBytes buf
      → 1 ≤ length buf
      → ado + length buf ≤ 4096
      → (w' : W) × (esc_write spi ado buf w ≡ (w', ok tt))
        × (chip.IsIdle w')
        × (core.memory w' ≡ store (core.memory w) ado buf)
  esc_write-store w ado buf i b l h =
      let (w', r, i', m) = esc_write_loop-Runs (length buf) w ado buf i b (omega arith) h in
      (w', core_part w w' ado buf l (omega arith) r.result, i', m)
