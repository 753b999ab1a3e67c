-- ===== src/Lan9252/Ports/Locks.antt =====
-- The locks that the ports take: one for the time of a selection.
use ul_ecat.Common.{
  ℕ, ◌≡◌, ap, List, inl, inr, Option, none, some, Option-cases, Bool, true, false, ◌==◌, not,
  if◌then◌else◌, length,
}
use ul_ecat.Lan9252.Selected.{After, IsSelector}
use ul_ecat.Lan9252.Selected.Operations.{Call, calls, calls_idle}
use ul_ecat.Lan9252.Ports.{
  Zephyr, Hal, asserted, locked, hal_select, hal_deselect, hal_write, hal_read, zephyr_spi, Nuttx,
  NuttxHal, device_of, selected_on, nuttx_select, deselected_on, nuttx_deselect, written_on,
  nuttx_write, read_on, nuttx_read, nuttx_spi,
}

-- `misused` once it is taken while it is held, or given back while it is free.
pub data Lock : Type 0 where
  free held misused : Lock

abbrev pub on_lock : Lock → Bool → Lock
on_lock free true = held
on_lock free false = free
on_lock held b = misused
on_lock misused b = misused

abbrev pub on_unlock : Lock → Lock
on_unlock held = free
on_unlock free = misused
on_unlock misused = misused

abbrev pub with_lock : {W : Type 0} → Zephyr W → Zephyr (W × Lock)
with_lock z = record {
  is_ready = λ s. z.is_ready s.0;
  has_cs = λ s. z.has_cs s.0;
  configure_inactive = λ s. (((z.configure_inactive s.0).0, s.1), (z.configure_inactive s.0).1);
  mutex_init = λ s. (z.mutex_init s.0, s.1);
  mutex_lock =
      λ s. (((z.mutex_lock s.0).0, on_lock s.1 (z.mutex_lock s.0).1), (z.mutex_lock s.0).1);
  mutex_unlock = λ s. (z.mutex_unlock s.0, on_unlock s.1);
  pin_set = λ s v. (((z.pin_set s.0 v).0, s.1), (z.pin_set s.0 v).1);
  spi_write = λ s bytes. (((z.spi_write s.0 bytes).0, s.1), (z.spi_write s.0 bytes).1);
  spi_read = λ s len. (((z.spi_read s.0 len).0, s.1), (z.spi_read s.0 len).1);
  busy_wait = λ s us. (z.busy_wait s.0 us, s.1);
  usleep = λ s us. (z.usleep s.0 us, s.1);
}

either_kept :
    {S A : Type 0} (P : S → Type 0) (b : Bool) (r t : S × A)
    → P r.0
    → P t.0
    → P (if b then r else t).0
either_kept P true r t hr ht = hr
either_kept P false r t hr ht = ht

either-After :
    {S : Type 0} (P Q : S → Type 0) (b : Bool) (r t : S × Bool)
    → After P Q r
    → After P Q t
    → After P Q (if b then r else t)
either-After P Q true r t hr ht = hr
either-After P Q false r t hr ht = ht

module _ {W : Type 0} (z : Zephyr W) where
  abbrev Free : Hal (W × Lock) → Type 0
  Free h = h.world.1 ≡ free

  abbrev Held : Hal (W × Lock) → Type 0
  Held h = h.world.1 ≡ held

  asserted-After :
      (h : Hal (W × Lock)) (r : (W × Lock) × Bool)
      → r.0.1 ≡ held
      → After Free Held (asserted (with_lock z) h r)
  unfolding asserted
  asserted-After h (w, true) e = e
  asserted-After h (w, false) e = ap on_unlock e

  locked-After :
      (h : Hal (W × Lock)) (w : W × Lock) (b : Bool)
      → w.1 ≡ on_lock free b
      → After Free Held (locked (with_lock z) h (w, b))
  unfolding locked
  locked-After h w false e = e
  locked-After h w true e = asserted-After h ((with_lock z).pin_set w 0) e

  hal_select-After : (h : Hal (W × Lock)) → Free h → After Free Held (hal_select (with_lock z) h)
  unfolding hal_select
  hal_select-After h f =
      either-After Free Held (not h.ready) (h, false) _ f
        (locked-After h ((with_lock z).mutex_lock h.world).0 (z.mutex_lock h.world.0).1
          (ap (λ (l : Lock). on_lock l (z.mutex_lock h.world.0).1) f))

  zephyr-IsSelector : IsSelector (zephyr_spi (with_lock z)) Free Held
  unfolding hal_deselect hal_write hal_read
  zephyr-IsSelector = record {
    select = hal_select-After;
    deselect = λ h e. ap on_unlock e;
    write = λ h bytes e.
        either_kept Held (length bytes == 0) (h, false) _ e
          (either_kept Held (not h.ready) (h, false) _ e e);
    read = λ h len e.
        either_kept Held (len == 0) (h, none) _ e (either_kept Held (not h.ready) (h, none) _ e e);
  }

  -- On the Zephyr port, whatever the kernel and the SPI driver return: any sequence of calls of the
  -- LAN9252 driver that starts with the mutex of the bus free takes it and gives it back in turn,
  -- and leaves it free.
  pub zephyr_calls-Free :
      (cs : List Call) (h : Hal (W × Lock)) → Free h → Free (calls (zephyr_spi (with_lock z)) cs h)
  zephyr_calls-Free cs h f = calls_idle zephyr-IsSelector cs h f

if_some :
    {A : Type 0} (b : Bool) (o : Option A) (a : A) → (if b then o else none) ≡ some a → o ≡ some a
if_some true o a e = e
if_some false o a e = cc

abbrev on_spi_lock : Lock → Bool → Lock
on_spi_lock l true = on_lock l true
on_spi_lock l false = on_unlock l

abbrev pub with_spi_lock : {W Dev : Type 0} → Nuttx W Dev → Nuttx (W × Lock) Dev
with_spi_lock n = record {
  lock = λ s dev b. (n.lock s.0 dev b, on_spi_lock s.1 b);
  select_device = λ s dev devid b. (n.select_device s.0 dev devid b, s.1);
  send_block = λ s dev bytes. (n.send_block s.0 dev bytes, s.1);
  recv_block = λ s dev len. (((n.recv_block s.0 dev len).0, s.1), (n.recv_block s.0 dev len).1);
  udelay = λ s us. (n.udelay s.0 us, s.1);
}

module _ {W Dev : Type 0} (n : Nuttx W Dev) where
  abbrev IsFree : NuttxHal (W × Lock) Dev → Type 0
  IsFree h = h.world.1 ≡ free

  abbrev IsHeld : NuttxHal (W × Lock) Dev → Type 0
  IsHeld h = (dev : Dev) × (h.spidev ≡ some dev) × (h.world.1 ≡ held)

  device_of-some :
      (h : NuttxHal (W × Lock) Dev) (dev : Dev)
      → device_of (with_spi_lock n) h ≡ some dev
      → h.spidev ≡ some dev
  unfolding device_of
  device_of-some h dev e = if_some h.inited h.spidev dev e

  nuttx_select-After :
      (h : NuttxHal (W × Lock) Dev)
      → IsFree h
      → After IsFree IsHeld (nuttx_select (with_spi_lock n) h)
  unfolding nuttx_select selected_on
  nuttx_select-After h f = elim (Option-cases (device_of (with_spi_lock n) h)) [
    | inl e ↦ rw (nuttx_select, e) f
    | inr (dev, e) ↦
        rw (nuttx_select, e) (dev, device_of-some h dev e, ap (λ (l : Lock). on_lock l true) f)
  ]

  nuttx_deselect-IsFree :
      (h : NuttxHal (W × Lock) Dev) → IsHeld h → IsFree (nuttx_deselect (with_spi_lock n) h)
  unfolding nuttx_deselect deselected_on
  nuttx_deselect-IsFree h (dev, e, l) = rw (nuttx_deselect, e) (ap on_unlock l)

  nuttx_write-IsHeld :
      (h : NuttxHal (W × Lock) Dev) (bytes : List ℕ)
      → IsHeld h
      → IsHeld (nuttx_write (with_spi_lock n) h bytes).0
  unfolding nuttx_write written_on
  nuttx_write-IsHeld h bytes k =
      either_kept IsHeld (length bytes == 0) (h, false) _ k
        (written_held (device_of (with_spi_lock n) h))
    where
      written_held : (o : Option Dev) → IsHeld (written_on (with_spi_lock n) h bytes o).0
      written_held none = k
      written_held (some dev) = k

  nuttx_read-IsHeld :
      (h : NuttxHal (W × Lock) Dev) (len : ℕ)
      → IsHeld h
      → IsHeld (nuttx_read (with_spi_lock n) h len).0
  unfolding nuttx_read read_on
  nuttx_read-IsHeld h len k =
      either_kept IsHeld (len == 0) (h, none) _ k (read_held (device_of (with_spi_lock n) h))
    where
      read_held : (o : Option Dev) → IsHeld (read_on (with_spi_lock n) h len o).0
      read_held none = k
      read_held (some dev) = k

  nuttx-IsSelector : IsSelector (nuttx_spi (with_spi_lock n)) IsFree IsHeld
  nuttx-IsSelector = record {
    select = nuttx_select-After;
    deselect = nuttx_deselect-IsFree;
    write = nuttx_write-IsHeld;
    read = nuttx_read-IsHeld;
  }

  -- On the NuttX port, any sequence of calls of the LAN9252 driver that starts with the bus unlocked
  -- locks and unlocks it in turn, and leaves it unlocked.
  pub nuttx_calls-IsFree :
      (cs : List Call) (h : NuttxHal (W × Lock) Dev)
      → IsFree h
      → IsFree (calls (nuttx_spi (with_spi_lock n)) cs h)
  nuttx_calls-IsFree cs h f = calls_idle nuttx-IsSelector cs h f
