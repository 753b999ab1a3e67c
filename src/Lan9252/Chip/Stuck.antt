-- ===== src/Lan9252/Chip/Stuck.antt =====
-- A LAN9252 that stays busy: the driver gives up.
use ul_ecat.Common.{
  ℕ, zero, suc, ◌+◌, ◌*◌, ◌≤◌, ◌<◌, ◌≡◌, ◌≢◌, refl, ap, ◌∙◌, arith, ◌==◌, IsU16, bit_and,
}
use ul_ecat.Lan9252.{
  Spi, Errno, eio, etimedout, ok, err, Result, Action, next, ◌>>=◌, ◌>>◌, fail, as_error, or_error,
  busy_max, wait_until,
}
use ul_ecat.Lan9252.Core.{
  csr_esc_csr_cmd, esc_csr_cmd_busy, esc_next_chunk_size, csr_cmd_wait_not_busy, esc_read_csr_u16,
  esc_read_loop,
}
use ul_ecat.Lan9252.Access.{esc_read}
use ul_ecat.Lan9252.Chunks.{esc_next_chunk_size-IsAccess}
use ul_ecat.Lan9252.Chip.{Registers, Runs, or_error-Runs, reg32_read-Runs, reg32_write-Runs}
use ul_ecat.Lan9252.Chip.Reads.{command, not_zero}

-- From `w` the action fails with that error.
pub record Fails {W A : Type 0} (m : Action W A) (w : W) (e : Errno) : Type 0 where
  pub result : (m w).1 ≡ err e

recast : {A B : Type 0} → Errno → Result A → Result B
recast e (ok a) = err e
recast e (err x) = err x

module _ {W : Type 0} where
  failed_next :
      {A B : Type 0} (k : A → Action W B) (r : W × Result A) (e : Errno)
      → r.1 ≡ err e
      → (next k r).1 ≡ err e
  unfolding next recast
  failed_next k (w, err e') e h = ap (recast e') h
  failed_next k (w, ok a) e h = cc

  first-Fails :
      {A B : Type 0} {m : Action W A} (k : A → Action W B) {w : W} {e : Errno}
      → Fails m w e
      → Fails (m >>= k) w e
  unfolding ◌>>=◌
  first-Fails {m = m} k {w} {e} h = record { result = failed_next k (m w) e h.result }

  first_then-Fails :
      {A B : Type 0} {m : Action W A} (k : Action W B) {w : W} {e : Errno}
      → Fails m w e
      → Fails (m >> k) w e
  unfolding ◌>>◌
  first_then-Fails k h = first-Fails (λ _. k) h

  bind-Fails :
      {A B : Type 0} {m : Action W A} (k : A → Action W B) {w w' : W} {a : A} {e : Errno}
      → Runs m w w' a
      → Fails (k a) w' e
      → Fails (m >>= k) w e
  unfolding ◌>>=◌ next
  bind-Fails k r h = record { result = ap (λ x. (next k x).1) r.result ∙ h.result }

  then-Fails :
      {A B : Type 0} {m : Action W A} {k : Action W B} {w w' : W} {a : A} {e : Errno}
      → Runs m w w' a
      → Fails k w' e
      → Fails (m >> k) w e
  unfolding ◌>>◌
  then-Fails {k = k} r h = bind-Fails (λ _. k) r h

  changed : {A : Type 0} (e e' : Errno) (r : W × Result A) → r.1 ≡ err e' → (as_error e r).1 ≡ err e
  unfolding as_error
  changed e e' (w, ok a) h = cc
  changed e e' (w, err x) h = refl

  or_error-Fails :
      {A : Type 0} (e : Errno) {e' : Errno} {m : Action W A} {w : W}
      → Fails m w e'
      → Fails (or_error e m) w e
  unfolding or_error
  or_error-Fails e {e'} {m} {w} h = record { result = changed e e' (m w) h.result }

module _ {W : Type 0} (spi : Spi W) (chip : Registers spi)
    (stuck : (w : W) → bit_and (chip.value w csr_esc_csr_cmd) esc_csr_cmd_busy ≢ 0) where
  wait-Fails :
      (left : ℕ) (w : W)
      → chip.IsIdle w
      → Fails
          (wait_until spi left csr_esc_csr_cmd (λ v. bit_and v esc_csr_cmd_busy == 0))
          w
          etimedout
  unfolding wait_until fail
  wait-Fails zero w i = record { result = refl }
  wait-Fails (suc left) w i =
      bind-Fails _ (or_error-Runs eio (reg32_read-Runs spi chip i (omega arith))) (
        rw (not_zero (bit_and (chip.value w csr_esc_csr_cmd) esc_csr_cmd_busy) (stuck w)) (
          wait-Fails left (chip.after_read w csr_esc_csr_cmd)
            (chip.after_read-IsIdle w csr_esc_csr_cmd i)))

  esc_read_csr_u16-Fails :
      (w : W) (address n : ℕ)
      → chip.IsIdle w
      → IsU16 address
      → n ≤ 4
      → Fails (esc_read_csr_u16 spi address n) w etimedout
  unfolding esc_read_csr_u16 csr_cmd_wait_not_busy
  esc_read_csr_u16-Fails w address n i a h =
      let val : ℕ = 0xc0000000 + n * 65536 + address in
      then-Fails
        (or_error-Runs eio (
          rw (command 6144 address n a h)
            (reg32_write-Runs spi chip {val = val} i (omega arith) (omega arith))))
        (first_then-Fails _ (
          or_error-Fails etimedout (
            wait-Fails busy_max (chip.after_write w csr_esc_csr_cmd val)
              (chip.after_write-IsIdle w csr_esc_csr_cmd val i))))

  esc_read_loop-Fails :
      (turns : ℕ) (w : W) (ado len : ℕ)
      → chip.IsIdle w
      → 1 ≤ len
      → len ≤ suc turns
      → ado < 4096
      → Fails (esc_read_loop spi (suc turns) ado len) w eio
  unfolding esc_read_loop
  esc_read_loop-Fails turns w ado len i l t a =
      let (access, lo, hi) = esc_next_chunk_size-IsAccess ado len l in
      rw (not_zero len (λ z. omega (arith, z))) (
        first-Fails _ (
          or_error-Fails eio (
            esc_read_csr_u16-Fails w ado (esc_next_chunk_size ado len) i (omega arith)
              (omega (arith, access.0)))))

  core_part :
      (w : W) (ado turns : ℕ)
      → ado < 4096
      → Fails (esc_read_loop spi (suc turns) ado (suc turns)) w eio
      → (esc_read spi ado (suc turns) w).1 ≡ err eio
  unfolding esc_read
  core_part w ado turns a f = ground (arith, f.result)

  -- On a chip that answers but whose command register always reads as busy, a read of the core
  -- registers from an address below the process data RAM ends, with -EIO.
  pub esc_read-eio :
      (w : W) (ado len : ℕ)
      → chip.IsIdle w
      → ado < 4096
      → 1 ≤ len
      → (esc_read spi ado len w).1 ≡ err eio
  esc_read-eio w ado zero i a l = absurd (omega arith)
  esc_read-eio w ado (suc turns) i a l =
      core_part w ado turns a
        (esc_read_loop-Fails turns w ado (suc turns) i (omega arith) (omega arith) a)
