-- ===== src/Lan9252/Selected.antt =====
-- Selections of the chip by lan9252_hal.h, and what the steps of a transaction keep.
pub mod Operations
pub mod Monitor
use ul_ecat.Common.{
  ℕ, zero, suc, ◌+◌, ◌-◌, ◌≡◌, refl, ap, List, [], ◌∷◌, ◌++◌, Option, none, some, Bool, true, false,
  ltb, leb, ◌==◌, if◌then◌else◌, length, take, drop, u16,
}
use ul_ecat.Lan9252.{
  Spi, Errno, eio, etimedout, Result, ok, err, Action, next, ◌>>=◌, ◌>>◌, done, fail, as_error,
  or_error, checked, checked_bytes, selected, spi_select, spi_deselect, releasing, or_release,
  spi_write, spi_read, reg32_read, reg32_write, wait_until, read_csr_u32, write_csr_u32, soft_reset,
}
use ul_ecat.Lan9252.Core.{
  csr_cmd_wait_not_busy, esc_next_chunk_size, esc_read_csr_u16, esc_write_csr_u16, esc_read_loop,
  esc_write_loop,
}
use ul_ecat.Lan9252.ProcessRam.{
  pram_rd_wait_avail, pram_wr_wait_avail, pram_wait_rd_not_busy, pram_wait_wr_not_busy, read_fifo,
  read_rest, pdram_read, write_fifo, write_rest, pdram_write,
}
use ul_ecat.Lan9252.Access.{pdram_base, esc_read, esc_write}

-- Begun in a state with the property, an action ends in one.
pub record Keeps {S A : Type 0} (P : S → Type 0) (m : Action S A) : Type 0 where
  pub at : (s : S) → P s → P (m s).0

abbrev pub After : {S : Type 0} → (S → Type 0) → (S → Type 0) → S × Bool → Type 0
After Idle Busy (s, true) = Busy s
After Idle Busy (s, false) = Idle s

-- A hardware layer that is idle but within a selection: `Idle` between them, `Busy` within one. A
-- selection that fails leaves it idle.
pub record IsSelector {S : Type 0} (spi : Spi S) (Idle Busy : S → Type 0) : Type 0 where
  pub select : (s : S) → Idle s → After Idle Busy (spi.select s)
  pub deselect : (s : S) → Busy s → Idle (spi.deselect s)
  pub write : (s : S) (bytes : List ℕ) → Busy s → Busy (spi.write s bytes).0
  pub read : (s : S) (count : ℕ) → Busy s → Busy (spi.read s count).0

-- Idle after an error, and with `Q` after a success.
abbrev pub Ends : {S A : Type 0} → (S → Type 0) → (S → Type 0) → S × Result A → Type 0
Ends Idle Q (s, ok a) = Q s
Ends Idle Q (s, err e) = Idle s

pub record Leads {S A : Type 0} (Idle P Q : S → Type 0) (m : Action S A) : Type 0 where
  pub at : (s : S) → P s → Ends Idle Q (m s)

ends_idle : {S A : Type 0} (Idle : S → Type 0) (r : S × Result A) → Ends Idle Idle r → Idle r.0
ends_idle Idle (s, ok a) h = h
ends_idle Idle (s, err e) h = h

module _ {S : Type 0} {Idle : S → Type 0} where
  next-Ends :
      {Q R : S → Type 0} {A B : Type 0} (k : A → Action S B) (r : S × Result A)
      → Ends Idle Q r
      → ((a : A) → Leads Idle Q R (k a))
      → Ends Idle R (next k r)
  unfolding next
  next-Ends k (s, ok a) h c = (c a).at s h
  next-Ends k (s, err e) h c = h

  pub bind-Leads :
      {P Q R : S → Type 0} {A B : Type 0} {m : Action S A} {k : A → Action S B}
      → Leads Idle P Q m
      → ((a : A) → Leads Idle Q R (k a))
      → Leads Idle P R (m >>= k)
  unfolding ◌>>=◌
  bind-Leads {m = m} {k = k} h c = record { at = λ s p. next-Ends k (m s) (h.at s p) c }

  pub then-Leads :
      {P Q R : S → Type 0} {A B : Type 0} {m : Action S A} {k : Action S B}
      → Leads Idle P Q m
      → Leads Idle Q R k
      → Leads Idle P R (m >> k)
  unfolding ◌>>◌
  then-Leads h c = bind-Leads h (λ _. c)

  pub done-Leads : {P : S → Type 0} {A : Type 0} (a : A) → Leads Idle P P (done a)
  unfolding done
  done-Leads a = record { at = λ s p. p }

  pub either-Leads :
      {P Q : S → Type 0} {A : Type 0} (b : Bool) {m n : Action S A}
      → Leads Idle P Q m
      → Leads Idle P Q n
      → Leads Idle P Q (if b then m else n)
  either-Leads true h k = h
  either-Leads false h k = k

  pub Leads-Keeps : {A : Type 0} {m : Action S A} → Leads Idle Idle Idle m → Keeps Idle m
  Leads-Keeps {m = m} h = record { at = λ s p. ends_idle Idle (m s) (h.at s p) }

as_error_kept :
    {S A : Type 0} (P : S → Type 0) (e : Errno) (r : S × Result A) → P r.0 → P (as_error e r).0
unfolding as_error
as_error_kept P e (s, ok a) h = h
as_error_kept P e (s, err e') h = h

module _ {S : Type 0} {P : S → Type 0} where
  next_kept :
      {A B : Type 0} (k : A → Action S B) (r : S × Result A)
      → P r.0
      → ((a : A) → Keeps P (k a))
      → P (next k r).0
  unfolding next
  next_kept k (s, ok a) h c = (c a).at s h
  next_kept k (s, err e) h c = h

  pub bind-Keeps :
      {A B : Type 0} {m : Action S A} {k : A → Action S B}
      → Keeps P m
      → ((a : A) → Keeps P (k a))
      → Keeps P (m >>= k)
  unfolding ◌>>=◌
  bind-Keeps {m = m} {k = k} h c = record { at = λ s p. next_kept k (m s) (h.at s p) c }

  pub then-Keeps :
      {A B : Type 0} {m : Action S A} {k : Action S B} → Keeps P m → Keeps P k → Keeps P (m >> k)
  unfolding ◌>>◌
  then-Keeps h c = bind-Keeps h (λ _. c)

  pub done-Keeps : {A : Type 0} (a : A) → Keeps P (done a)
  unfolding done
  done-Keeps a = record { at = λ s p. p }

  pub fail-Keeps : {A : Type 0} (e : Errno) → Keeps {A = A} P (fail e)
  unfolding fail
  fail-Keeps e = record { at = λ s p. p }

  pub or_error-Keeps :
      {A : Type 0} (e : Errno) {m : Action S A} → Keeps P m → Keeps P (or_error e m)
  unfolding or_error
  or_error-Keeps e {m} h = record { at = λ s p. as_error_kept P e (m s) (h.at s p) }

  pub either-Keeps :
      {A : Type 0} (b : Bool) {m n : Action S A}
      → Keeps P m
      → Keeps P n
      → Keeps P (if b then m else n)
  either-Keeps true h k = h
  either-Keeps false h k = k

module _ {S : Type 0} {spi : Spi S} {Idle Busy : S → Type 0} (law : IsSelector spi Idle Busy) where
  checked_kept : (r : S × Bool) → Busy r.0 → Busy (checked r).0
  unfolding checked
  checked_kept (s, true) h = h
  checked_kept (s, false) h = h

  checked_bytes_kept : (r : S × Option (List ℕ)) → Busy r.0 → Busy (checked_bytes r).0
  unfolding checked_bytes
  checked_bytes_kept (s, some bytes) h = h
  checked_bytes_kept (s, none) h = h

  pub spi_write-Keeps : (bytes : List ℕ) → Keeps Busy (spi_write spi bytes)
  unfolding spi_write
  spi_write-Keeps bytes = record {
    at = λ s h. checked_kept (spi.write s bytes) (law.write s bytes h);
  }

  pub spi_read-Keeps : (count : ℕ) → Keeps Busy (spi_read spi count)
  unfolding spi_read
  spi_read-Keeps count = record {
    at = λ s h. checked_bytes_kept (spi.read s count) (law.read s count h);
  }

  selected-Ends : (r : S × Bool) → After Idle Busy r → Ends Idle Busy (selected spi r)
  unfolding selected
  selected-Ends (s, true) busy = busy
  selected-Ends (s, false) idle = idle

  pub spi_select-Leads : Leads Idle Idle Busy (spi_select spi)
  unfolding spi_select
  spi_select-Leads = record { at = λ s idle. selected-Ends (spi.select s) (law.select s idle) }

  pub spi_deselect-Leads : Leads Idle Busy Idle (spi_deselect spi)
  unfolding spi_deselect
  spi_deselect-Leads = record { at = law.deselect }

  releasing-Ends : {A : Type 0} (r : S × Result A) → Busy r.0 → Ends Idle Busy (releasing spi r)
  unfolding releasing
  releasing-Ends (s, ok a) h = h
  releasing-Ends (s, err e) h = law.deselect s h

  -- A transfer that fails releases the chip.
  pub or_release-Leads :
      {A : Type 0} {m : Action S A} → Keeps Busy m → Leads Idle Busy Busy (or_release spi m)
  unfolding or_release
  or_release-Leads {m = m} h = record { at = λ s busy. releasing-Ends (m s) (h.at s busy) }

pub ruleset keeps = (bind-Keeps, then-Keeps, done-Keeps, fail-Keeps, or_error-Keeps, either-Keeps)
