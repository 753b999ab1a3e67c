-- ===== src/Lan9252/Chip.antt =====
-- What controllers/lan9252/src/lan9252.c relies on of the chip: its register transactions, and the
-- command register behind which the registers of the EtherCAT core stand.
pub mod Core
pub mod Reads
pub mod Writes
pub mod Stuck
use ul_ecat.Common.{
  ℕ, ◌+◌, ◌-◌, ◌*◌, ◌/◌, ◌%◌, ◌≤◌, ◌<◌, ◌≡◌, ◌≢◌, refl, sym, ap, ◌∙◌, List, [], ◌∷◌, ◌++◌, Option,
  none, some, Bool, true, false, arith, IsU16, IsU32, u8, ◌>>>◌, bit_and, and_ff, w32_le, r32_le,
  r32_le-w32_le, append-nil, length, take, Memory, load,
}
use ul_ecat.Lan9252.{
  Spi, Result, ok, err, Action, next, ◌>>=◌, ◌>>◌, done, as_error, or_error, Errno, spi_fast_read,
  spi_fast_read_dummy_bytes, spi_serial_write, checked, checked_bytes, selected, spi_select,
  spi_deselect, releasing, or_release, spi_write, spi_read, reg32_read, reg32_write, busy_max,
}
use ul_ecat.Lan9252.Core.{csr_esc_csr_data, csr_esc_csr_cmd, esc_csr_cmd_busy}
use ul_ecat.Lan9252.Chunks.{IsAccess}

-- The bytes of a transaction: the command, the address with its high byte first, and then a byte
-- to wait in a read, the value with its low byte first in a write.
abbrev pub fast_read : ℕ → List ℕ
fast_read addr = 0x0b ∷ addr / 256 ∷ addr % 256 ∷ 1 ∷ []

abbrev pub serial_write : ℕ → ℕ → List ℕ
serial_write addr val = 0x02 ∷ addr / 256 ∷ addr % 256 ∷ w32_le val

-- A chip that answers: between two transactions every register has a value, and a transaction of
-- one of the two forms succeeds.
pub record Registers {W : Type 0} (spi : Spi W) : Type 1 where
  pub IsIdle : W → Type 0
  pub value : W → ℕ → ℕ
  pub after_read : W → ℕ → W
  pub after_write : W → ℕ → ℕ → W
  pub value-IsU32 : (w : W) (addr : ℕ) → IsU32 (value w addr)
  pub selects : (w : W) → IsIdle w → (spi.select w).1 ≡ true
  pub read_asks :
      (w : W) (addr : ℕ)
      → IsIdle w
      → IsU16 addr
      → (spi.write (spi.select w).0 (fast_read addr)).1 ≡ true
  pub read_answers :
      (w : W) (addr : ℕ)
      → IsIdle w
      → IsU16 addr
      → spi.read (spi.write (spi.select w).0 (fast_read addr)).0 4 ≡ (
        (spi.read (spi.write (spi.select w).0 (fast_read addr)).0 4).0,
        some (w32_le (value w addr)),
      )
  pub read_ends :
      (w : W) (addr : ℕ)
      → IsIdle w
      → IsU16 addr
      → spi.deselect (spi.read (spi.write (spi.select w).0 (fast_read addr)).0 4).0
        ≡ after_read w addr
  pub write_takes :
      (w : W) (addr val : ℕ)
      → IsIdle w
      → IsU16 addr
      → IsU32 val
      → (spi.write (spi.select w).0 (serial_write addr val)).1 ≡ true
  pub write_ends :
      (w : W) (addr val : ℕ)
      → IsIdle w
      → IsU16 addr
      → IsU32 val
      → spi.deselect (spi.write (spi.select w).0 (serial_write addr val)).0 ≡ after_write w addr val
  pub after_read-IsIdle : (w : W) (addr : ℕ) → IsIdle w → IsIdle (after_read w addr)
  pub after_write-IsIdle : (w : W) (addr val : ℕ) → IsIdle w → IsIdle (after_write w addr val)

-- From `w`, the action succeeds with `a` and leaves `w'`.
pub record Runs {W A : Type 0} (m : Action W A) (w w' : W) (a : A) : Type 0 where
  pub result : m w ≡ (w', ok a)

module _ {W : Type 0} where
  pub bind-Runs :
      {A B : Type 0} {m : Action W A} (k : A → Action W B) {w w' w'' : W} {a : A} {b : B}
      → Runs m w w' a
      → Runs (k a) w' w'' b
      → Runs (m >>= k) w w'' b
  unfolding ◌>>=◌ next
  bind-Runs k h c = record { result = ap (next k) h.result ∙ c.result }

  pub then-Runs :
      {A B : Type 0} {m : Action W A} {k : Action W B} {w w' w'' : W} {a : A} {b : B}
      → Runs m w w' a
      → Runs k w' w'' b
      → Runs (m >> k) w w'' b
  unfolding ◌>>◌
  then-Runs {k = k} h c = bind-Runs (λ _. k) h c

  pub done-Runs : {A : Type 0} {w : W} {a b : A} → a ≡ b → Runs (done a) w w b
  unfolding done
  done-Runs {w = w} h = record { result = ap (λ x. (w, ok x)) h }

  pub or_error-Runs :
      {A : Type 0} (e : Errno) {m : Action W A} {w w' : W} {a : A}
      → Runs m w w' a
      → Runs (or_error e m) w w' a
  unfolding or_error as_error
  or_error-Runs e h = record { result = ap (as_error e) h.result }

  checked-true : (r : W × Bool) → r.1 ≡ true → checked r ≡ (r.0, ok tt)
  unfolding checked
  checked-true (w, true) h = refl
  checked-true (w, false) h = cc

  or_release-Runs :
      {A : Type 0} (spi : Spi W) {m : Action W A} {w w' : W} {a : A}
      → Runs m w w' a
      → Runs (or_release spi m) w w' a
  unfolding or_release releasing
  or_release-Runs spi h = record { result = ap (releasing spi) h.result }

  selected-true : (spi : Spi W) (r : W × Bool) → r.1 ≡ true → selected spi r ≡ (r.0, ok tt)
  unfolding selected
  selected-true spi (w, true) h = refl
  selected-true spi (w, false) h = cc

  spi_select-Runs :
      (spi : Spi W) {w : W} → (spi.select w).1 ≡ true → Runs (spi_select spi) w (spi.select w).0 tt
  unfolding spi_select
  spi_select-Runs spi {w} h = record { result = selected-true spi (spi.select w) h }

  spi_deselect-Runs :
      (spi : Spi W) {w w' : W} → spi.deselect w ≡ w' → Runs (spi_deselect spi) w w' tt
  unfolding spi_deselect
  spi_deselect-Runs spi e = record { result = ap (λ x. (x, ok tt)) e }

read_header :
    (addr : ℕ)
    → IsU16 addr
    → spi_fast_read
        ∷ u8 (bit_and (addr >>> 8) 0xff)
        ∷ u8 (bit_and addr 0xff)
        ∷ spi_fast_read_dummy_bytes
        ∷ []
      ≡ fast_read addr
read_header addr a = ground (arith, and_ff addr, and_ff (addr / 256))

write_header :
    (addr val : ℕ)
    → IsU16 addr
    → spi_serial_write ∷ u8 (bit_and (addr >>> 8) 0xff) ∷ u8 (bit_and addr 0xff) ∷ w32_le val
      ≡ serial_write addr val
write_header addr val a = ground (arith, and_ff addr, and_ff (addr / 256))

module _ {W : Type 0} (spi : Spi W) (chip : Registers spi) where
  spi_write-Runs :
      {w : W} {bytes bytes' : List ℕ}
      → bytes ≡ bytes'
      → (spi.write w bytes').1 ≡ true
      → Runs (spi_write spi bytes) w (spi.write w bytes').0 tt
  unfolding spi_write
  spi_write-Runs {w} {bytes' = bytes'} e h = record {
    result = ap (λ b. checked (spi.write w b)) e ∙ checked-true (spi.write w bytes') h;
  }

  spi_read-Runs :
      {w w' : W} {count : ℕ} {bytes : List ℕ}
      → spi.read w count ≡ (w', some bytes)
      → Runs (spi_read spi count) w w' bytes
  unfolding spi_read checked_bytes
  spi_read-Runs h = record { result = ap checked_bytes h }

  pub reg32_read-Runs :
      {w : W} {addr : ℕ}
      → chip.IsIdle w
      → IsU16 addr
      → Runs (reg32_read spi addr) w (chip.after_read w addr) (chip.value w addr)
  unfolding reg32_read
  reg32_read-Runs {w} {addr} i a = then-Runs (spi_select-Runs spi (chip.selects w i)) (
      then-Runs
        (or_release-Runs spi (spi_write-Runs (read_header addr a) (chip.read_asks w addr i a)))
        (bind-Runs _ (or_release-Runs spi (spi_read-Runs (chip.read_answers w addr i a))) (
          then-Runs (spi_deselect-Runs spi (chip.read_ends w addr i a)) (
            done-Runs (
              ap r32_le (sym (append-nil (w32_le (chip.value w addr))))
              ∙ r32_le-w32_le (chip.value w addr) [] (chip.value-IsU32 w addr))))))

  pub reg32_write-Runs :
      {w : W} {addr val : ℕ}
      → chip.IsIdle w
      → IsU16 addr
      → IsU32 val
      → Runs (reg32_write spi addr val) w (chip.after_write w addr val) tt
  unfolding reg32_write
  reg32_write-Runs {w} {addr} {val} i a v = then-Runs (spi_select-Runs spi (chip.selects w i)) (
      then-Runs
        (or_release-Runs spi
          (spi_write-Runs (write_header addr val a) (chip.write_takes w addr val i a v)))
        (spi_deselect-Runs spi (chip.write_ends w addr val i a v)))
