-- ===== src/Lan9252/Ports.antt =====
-- Two implementations of controllers/lan9252/include/lan9252_hal.h:
-- controllers/lan9252/ports/zephyr/hal_zephyr.c and controllers/lan9252/ports/nuttx/hal_nuttx.c. The
-- drivers of the operating systems are parameters: operations on their state, true where the
-- result is 0.
pub mod Locks
pub mod ChipSelect
use ul_ecat.Common.{
  ℕ, List, Option, none, some, Bool, true, false, ltb, ◌==◌, not, if◌then◌else◌, length,
}
use ul_ecat.Lan9252.{Spi}

-- `is_ready` is spi_is_ready_dt, `has_cs` says that the port of the chip select is not null.
pub record Zephyr (W : Type 0) : Type 0 where
  pub is_ready : W → Bool
  pub has_cs : W → Bool
  pub configure_inactive : W → W × Bool
  pub mutex_init : W → W
  pub mutex_lock : W → W × Bool
  pub mutex_unlock : W → W
  pub pin_set : W → ℕ → W × Bool
  pub spi_write : W → List ℕ → W × Bool
  pub spi_read : W → ℕ → W × Option (List ℕ)
  pub busy_wait : W → ℕ → W
  pub usleep : W → ℕ → W

-- The state of the port: the system, and `g_hal_ready`.
pub record Hal (W : Type 0) : Type 0 where
  pub world : W
  pub ready : Bool

module _ {W : Type 0} (z : Zephyr W) where
  configured : Hal W → W × Bool → Hal W × Bool
  configured h (w, false) = (record h { world = w }, false)
  configured h (w, true) = (record { world = z.mutex_init w; ready = true }, true)

  -- `ul_ecat_lan9252_hal_init`
  unfoldable pub hal_init : Hal W → Hal W × Bool
  unfolding configured
  hal_init h =
      if not (z.is_ready h.world)
      then (h, false)
      else if not (z.has_cs h.world)
      then (h, false)
      else configured h (z.configure_inactive h.world)

  asserted : Hal W → W × Bool → Hal W × Bool
  asserted h (w, true) = (record h { world = w }, true)
  asserted h (w, false) = (record h { world = z.mutex_unlock w }, false)

  locked : Hal W → W × Bool → Hal W × Bool
  unfolding asserted
  locked h (w, false) = (record h { world = w }, false)
  locked h (w, true) = asserted h (z.pin_set w 0)

  unfoldable pub hal_select : Hal W → Hal W × Bool
  unfolding locked
  hal_select h = if not h.ready then (h, false) else locked h (z.mutex_lock h.world)

  unfoldable pub hal_deselect : Hal W → Hal W
  hal_deselect h = record h { world = z.mutex_unlock (z.pin_set h.world 1).0 }

  unfoldable pub hal_write : Hal W → List ℕ → Hal W × Bool
  hal_write h bytes =
      let sent = z.spi_write h.world bytes in
      if length bytes == 0
      then (h, false)
      else if not h.ready
      then (h, false)
      else (record h { world = sent.0 }, sent.1)

  unfoldable pub hal_read : Hal W → ℕ → Hal W × Option (List ℕ)
  hal_read h len =
      let got = z.spi_read h.world len in
      if len == 0
      then (h, none)
      else if not h.ready
      then (h, none)
      else (record h { world = got.0 }, got.1)

  unfoldable pub hal_delay_us : Hal W → ℕ → Hal W
  hal_delay_us h us =
      if us == 0
      then h
      else if ltb us 100
      then record h { world = z.busy_wait h.world us }
      else record h { world = z.usleep h.world us }

  abbrev pub zephyr_spi : Spi (Hal W)
  zephyr_spi = record {
    select = hal_select;
    deselect = hal_deselect;
    write = hal_write;
    read = hal_read;
  }

-- The SPI device of NuttX, whose calls have no result: SPI_LOCK, SPI_SELECT, SPI_SNDBLOCK and
-- SPI_RECVBLOCK.
pub record Nuttx (W Dev : Type 0) : Type 0 where
  pub lock : W → Dev → Bool → W
  pub select_device : W → Dev → ℕ → Bool → W
  pub send_block : W → Dev → List ℕ → W
  pub recv_block : W → Dev → ℕ → W × List ℕ
  pub udelay : W → ℕ → W

-- `g_spidev`, `g_devid` and `g_inited`
pub record NuttxHal (W Dev : Type 0) : Type 0 where
  pub world : W
  pub spidev : Option Dev
  pub devid : ℕ
  pub inited : Bool

module _ {W Dev : Type 0} (n : Nuttx W Dev) where
  unfoldable pub nuttx_init : NuttxHal W Dev → Option Dev → ℕ → NuttxHal W Dev × Bool
  nuttx_init h none devid = (h, false)
  nuttx_init h (some dev) devid =
      (record { world = h.world; spidev = some dev; devid = devid; inited = true }, true)

  -- The device, where the port was initialised.
  unfoldable pub device_of : NuttxHal W Dev → Option Dev
  device_of h = if h.inited then h.spidev else none

  selected_on : NuttxHal W Dev → Option Dev → NuttxHal W Dev × Bool
  selected_on h none = (h, false)
  selected_on h (some dev) =
      (record h { world = n.select_device (n.lock h.world dev true) dev h.devid true }, true)

  unfoldable pub nuttx_select : NuttxHal W Dev → NuttxHal W Dev × Bool
  unfolding selected_on
  nuttx_select h = selected_on h (device_of h)

  deselected_on : NuttxHal W Dev → Option Dev → NuttxHal W Dev
  deselected_on h none = h
  deselected_on h (some dev) = record h {
    world = n.lock (n.select_device h.world dev h.devid false) dev false;
  }

  unfoldable pub nuttx_deselect : NuttxHal W Dev → NuttxHal W Dev
  unfolding deselected_on
  nuttx_deselect h = deselected_on h h.spidev

  written_on : NuttxHal W Dev → List ℕ → Option Dev → NuttxHal W Dev × Bool
  written_on h bytes none = (h, false)
  written_on h bytes (some dev) = (record h { world = n.send_block h.world dev bytes }, true)

  unfoldable pub nuttx_write : NuttxHal W Dev → List ℕ → NuttxHal W Dev × Bool
  unfolding written_on
  nuttx_write h bytes = if length bytes == 0 then (h, false) else written_on h bytes (device_of h)

  read_on : NuttxHal W Dev → ℕ → Option Dev → NuttxHal W Dev × Option (List ℕ)
  read_on h len none = (h, none)
  read_on h len (some dev) =
      let got = n.recv_block h.world dev len in (record h { world = got.0 }, some got.1)

  unfoldable pub nuttx_read : NuttxHal W Dev → ℕ → NuttxHal W Dev × Option (List ℕ)
  unfolding read_on
  nuttx_read h len = if len == 0 then (h, none) else read_on h len (device_of h)

  unfoldable pub nuttx_delay_us : NuttxHal W Dev → ℕ → NuttxHal W Dev
  nuttx_delay_us h us = record h { world = n.udelay h.world us }

  abbrev pub nuttx_spi : Spi (NuttxHal W Dev)
  nuttx_spi = record {
    select = nuttx_select;
    deselect = nuttx_deselect;
    write = nuttx_write;
    read = nuttx_read;
  }
