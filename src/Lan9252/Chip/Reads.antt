-- ===== src/Lan9252/Chip/Reads.antt =====
-- A read of the core registers by controllers/lan9252/src/lan9252.c gives what they hold.
use ul_ecat.Common.{
  ◌^◌, ℕ, zero, suc, ◌+◌, ◌-◌, ◌*◌, ◌≤◌, ◌<◌, ◌≡◌, ◌≢◌, ◌⊎◌, inl, inr, refl, sym, ap, ◌∙◌, List, [],
  ◌++◌, true, false, arith, ◌==◌, u16, IsU16, IsU32, bit_and, bit_or, or_low, w32_le, length, take,
  Memory, load, length-load, load-append,
}
use ul_ecat.Lan9252.{Spi, ok, etimedout, eio, reg32_write, wait_until, busy_max}
use ul_ecat.Lan9252.Core.{
  csr_esc_csr_data, csr_esc_csr_cmd, esc_csr_cmd_busy, esc_csr_cmd_size, esc_next_chunk_size,
  csr_cmd_wait_not_busy, esc_read_csr_u16, esc_read_loop,
}
use ul_ecat.Lan9252.Access.{esc_read}
use ul_ecat.Lan9252.Chunks.{IsAccess, esc_next_chunk_size-IsAccess}
use ul_ecat.Lan9252.Chip.{
  Registers, Runs, bind-Runs, then-Runs, done-Runs, or_error-Runs, reg32_read-Runs,
  reg32_write-Runs,
}
use ul_ecat.Lan9252.Chip.Core.{CoreRegisters}

pub zero_or : (n : ℕ) → (n ≡ 0) ⊎ (1 ≤ n)
zero_or n = omega arith

-- A command: its kind in the highest bits, then the size, then the address.
pub command :
    (kind address n : ℕ)
    → IsU16 address
    → n ≤ 4
    → bit_or (bit_or (kind * 2 ^ 19) (esc_csr_cmd_size n)) address
      ≡ kind * 2 ^ 19 + n * 65536 + address
command kind address n a h =
    ap (λ v. bit_or v address) (or_low 19 kind (n * 65536) (omega arith) ∙ omega arith)
    ∙ or_low 16 (kind * 8 + n) address a
    ∙ omega arith

pub within_limit : (n : ℕ) → n < 100000 → n < busy_max
unfolding busy_max
within_limit n h = h

pub is_zero : (n : ℕ) → n ≡ 0 → (n == 0) ≡ true
is_zero n h = ground arith

pub not_zero : (n : ℕ) → n ≢ 0 → (n == 0) ≡ false
not_zero n h = ground arith

nothing : (m : Memory) (ado len : ℕ) → len ≡ 0 → [] ≡ load m ado len
unfolding load
nothing m ado len z = ap (load m ado) (sym z)

-- The bytes of the first access and those of the rest.
joined :
    (m m' : Memory) (ado len c : ℕ)
    → m' ≡ m
    → c ≤ len
    → ado + len ≤ 4096
    → load m ado c ++ load m' (u16 (ado + c)) (u16 (len + 65536 - c)) ≡ load m ado len
joined m m' ado len c e hi h =
    let start : u16 (ado + c) ≡ ado + c = omega arith in
    let count : u16 (len + 65536 - c) ≡ len - c = omega arith in
    let sum : c + (len - c) ≡ len = omega arith in
    rw (e, start, count) (load-append m ado c (len - c) ∙ ap (load m ado) sum)

module _ {W : Type 0} (spi : Spi W) (chip : Registers spi) (core : CoreRegisters chip) where
  -- What a poll that ends leaves.
  pub record Polled (w w' : W) : Type 0 where
    pub idle : chip.IsIdle w'
    pub free : core.busy w' ≡ 0
    pub same : core.memory w' ≡ core.memory w
    pub kept : core.pending w' ≡ core.pending w

  pub poll-Runs :
      (left : ℕ) (w : W)
      → chip.IsIdle w
      → core.busy w < left
      → (w' : W) × (Runs
          (wait_until spi left csr_esc_csr_cmd (λ v. bit_and v esc_csr_cmd_busy == 0))
          w
          w'
          tt)
        × Polled w w'
  unfolding wait_until
  poll-Runs zero w i h = absurd (omega arith)
  poll-Runs (suc left) w i h = elim (zero_or (core.busy w)) [
    | inl z ↦ (
      chip.after_read w csr_esc_csr_cmd,
      bind-Runs _ (or_error-Runs eio (reg32_read-Runs spi chip i (omega arith))) (
          rw (is_zero (bit_and (chip.value w csr_esc_csr_cmd) esc_csr_cmd_busy) (core.is_free w z))
            (done-Runs refl)),
      record {
        idle = chip.after_read-IsIdle w csr_esc_csr_cmd i;
        free = omega (arith, (core.polled w).2);
        same = (core.polled w).0;
        kept = (core.polled w).1;
      },
    )
    | inr b ↦
        let rest =
          poll-Runs left (chip.after_read w csr_esc_csr_cmd)
            (chip.after_read-IsIdle w csr_esc_csr_cmd i) (omega (arith, (core.polled w).2)) in
        (
          rest.0,
          bind-Runs _ (or_error-Runs eio (reg32_read-Runs spi chip i (omega arith))) (
              rw
                (not_zero (bit_and (chip.value w csr_esc_csr_cmd) esc_csr_cmd_busy)
                  (core.is_busy w b))
                rest.1),
          record {
            idle = rest.2.idle;
            free = rest.2.free;
            same = rest.2.same ∙ (core.polled w).0;
            kept = rest.2.kept ∙ (core.polled w).1;
          },
        )
  ]

  pending_data :
      (w : W) (n : ℕ) (bytes : List ℕ)
      → core.pending w ≡ bytes
      → core.busy w ≡ 0
      → length bytes ≡ n
      → take n (w32_le (chip.value w csr_esc_csr_data)) ≡ bytes
  pending_data w n bytes p f l =
      ap (λ k. take k (w32_le (chip.value w csr_esc_csr_data))) (sym (ap length p ∙ l))
      ∙ core.data_ready w f
      ∙ p

  pub write-Runs :
      {w : W} {val : ℕ} (val' : ℕ)
      → chip.IsIdle w
      → val ≡ val'
      → IsU32 val'
      → Runs (reg32_write spi csr_esc_csr_cmd val) w (chip.after_write w csr_esc_csr_cmd val') tt
  write-Runs val' i e u = rw e (reg32_write-Runs spi chip i (omega arith) u)

  esc_read_csr_u16-Runs :
      (w : W) (address n : ℕ)
      → chip.IsIdle w
      → IsAccess address n
      → address + n ≤ 4096
      → (w' : W) × (Runs (esc_read_csr_u16 spi address n) w w' (load (core.memory w) address n))
        × (chip.IsIdle w')
        × (core.memory w' ≡ core.memory w)
  unfolding esc_read_csr_u16 csr_cmd_wait_not_busy
  esc_read_csr_u16-Runs w address n i a h =
      let val : ℕ = 0xc0000000 + n * 65536 + address in
      let (m, p, b) = core.read_starts w address n i a h in
      let asked : W = chip.after_write w csr_esc_csr_cmd val in
      let poll =
        poll-Runs busy_max asked (chip.after_write-IsIdle w csr_esc_csr_cmd val i)
          (within_limit (core.busy asked) b) in
      (
        chip.after_read poll.0 csr_esc_csr_data,
        then-Runs
            (or_error-Runs eio
              (write-Runs val i (command 6144 address n (omega arith) (omega arith)) (omega arith)))
            (then-Runs (or_error-Runs etimedout poll.1) (
              bind-Runs _ (or_error-Runs eio (reg32_read-Runs spi chip poll.2.idle (omega arith))) (
                done-Runs (
                  pending_data poll.0 n _ (poll.2.kept ∙ p) poll.2.free
                    (length-load (core.memory w) address n))))),
        chip.after_read-IsIdle poll.0 csr_esc_csr_data poll.2.idle,
        core.data_taken poll.0 ∙ poll.2.same ∙ m,
      )

  esc_read_loop-Runs :
      (turns : ℕ) (w : W) (ado len : ℕ)
      → chip.IsIdle w
      → len ≤ turns
      → ado + len ≤ 4096
      → (w' : W) × (Runs (esc_read_loop spi turns ado len) w w' (load (core.memory w) ado len))
        × (chip.IsIdle w')
        × (core.memory w' ≡ core.memory w)
  unfolding esc_read_loop
  esc_read_loop-Runs zero w ado len i t h =
      (w, done-Runs (nothing (core.memory w) ado len (omega arith)), i, refl)
  esc_read_loop-Runs (suc turns) w ado len i t h = elim (zero_or len) [
    | inl z ↦ (w, rw (is_zero len z) (done-Runs (nothing (core.memory w) ado len z)), i, refl)
    | inr l ↦
        let c : ℕ = esc_next_chunk_size ado len in
        let (a, lo, hi) = esc_next_chunk_size-IsAccess ado len l in
        let first = esc_read_csr_u16-Runs w ado c i a (omega arith) in
        let rest =
          esc_read_loop-Runs turns first.0 (u16 (ado + c)) (u16 (len + 65536 - c)) first.2
            (omega arith) (omega arith) in
        (
          rest.0,
          rw (not_zero len (λ z. omega (arith, z))) (
              bind-Runs _ (or_error-Runs eio first.1) (
                bind-Runs _ rest.1 (
                  done-Runs (
                    joined (core.memory w) (core.memory first.0) ado len c first.3 hi
                      (omega arith))))),
          rest.2,
          rest.3 ∙ first.3,
        )
  ]

  core_part :
      (w w' : W) (ado len : ℕ) (bytes : List ℕ)
      → 1 ≤ len
      → ado < 4096
      → esc_read_loop spi len ado len w ≡ (w', ok bytes)
      → esc_read spi ado len w ≡ (w', ok bytes)
  unfolding esc_read
  core_part w w' ado len bytes l a r = ground (arith, r)

  -- On a chip that answers: a read of a range of registers below the process data RAM succeeds and
  -- gives the bytes in it, whatever its start and length, and changes none.
  pub esc_read-load :
      (w : W) (ado len : ℕ)
      → chip.IsIdle w
      → 1 ≤ len
      → ado + len ≤ 4096
      → (w' : W) × (esc_read spi ado len w ≡ (w', ok (load (core.memory w) ado len)))
        × (chip.IsIdle w')
        × (core.memory w' ≡ core.memory w)
  esc_read-load w ado len i l h =
      let (w', r, i', m) = esc_read_loop-Runs len w ado len i (omega arith) h in
      (w', core_part w w' ado len _ l (omega arith) r.result, i', m)
