-- ===== src/Lan9252/Ports/ChipSelect.antt =====
-- The chip select line of the Zephyr port, by its logical level: GPIO_OUTPUT_INACTIVE is level 0, and
-- gpio_pin_set_dt sets the level that it is given.
use ul_ecat.Common.{ℕ, ◌≡◌, ◌≢◌, refl, sym, ◌∙◌, Bool, true, false, not, if◌then◌else◌, arith}
use ul_ecat.Lan9252.Ports.{
  Zephyr, Hal, configured, hal_init, asserted, locked, hal_select, hal_deselect,
}

abbrev on_level : ℕ → Bool → ℕ → ℕ
on_level v true level = v
on_level v false level = level

abbrev pub with_level : {W : Type 0} → Zephyr W → Zephyr (W × ℕ)
with_level z = record {
  is_ready = λ s. z.is_ready s.0;
  has_cs = λ s. z.has_cs s.0;
  configure_inactive = λ s. (
    ((z.configure_inactive s.0).0, on_level 0 (z.configure_inactive s.0).1 s.1),
    (z.configure_inactive s.0).1,
  );
  mutex_init = λ s. (z.mutex_init s.0, s.1);
  mutex_lock = λ s. (((z.mutex_lock s.0).0, s.1), (z.mutex_lock s.0).1);
  mutex_unlock = λ s. (z.mutex_unlock s.0, s.1);
  pin_set = λ s v. (((z.pin_set s.0 v).0, on_level v (z.pin_set s.0 v).1 s.1), (z.pin_set s.0 v).1);
  spi_write = λ s bytes. (((z.spi_write s.0 bytes).0, s.1), (z.spi_write s.0 bytes).1);
  spi_read = λ s len. (((z.spi_read s.0 len).0, s.1), (z.spi_read s.0 len).1);
  busy_wait = λ s us. (z.busy_wait s.0 us, s.1);
  usleep = λ s us. (z.usleep s.0 us, s.1);
}

-- A call that succeeds leaves the level.
abbrev Leaves : {W : Type 0} → ℕ → Hal (W × ℕ) × Bool → Type 0
Leaves v r = r.1 ≡ true → r.0.world.1 ≡ v

either-Leaves :
    {W : Type 0} (v : ℕ) (b : Bool) (r t : Hal (W × ℕ) × Bool)
    → Leaves v r
    → Leaves v t
    → Leaves v (if b then r else t)
either-Leaves v true r t hr ht = hr
either-Leaves v false r t hr ht = ht

module _ {W : Type 0} (z : Zephyr W) where
  configured-Leaves :
      (h : Hal (W × ℕ)) (w : W × ℕ) (b : Bool)
      → w.1 ≡ on_level 0 b h.world.1
      → Leaves 0 (configured (with_level z) h (w, b))
  unfolding configured
  configured-Leaves h w true e ok = e
  configured-Leaves h w false e ok = cc

  hal_init-Leaves : (h : Hal (W × ℕ)) → Leaves 0 (hal_init (with_level z) h)
  unfolding hal_init
  hal_init-Leaves h =
      either-Leaves 0 (not (z.is_ready h.world.0)) (h, false) _ (λ ok. cc)
        (either-Leaves 0 (not (z.has_cs h.world.0)) (h, false) _ (λ ok. cc)
          (configured-Leaves h ((with_level z).configure_inactive h.world).0
            (z.configure_inactive h.world.0).1 refl))

  asserted-Leaves :
      (h : Hal (W × ℕ)) (w : W × ℕ) (b : Bool) (level : ℕ)
      → w.1 ≡ on_level 0 b level
      → Leaves 0 (asserted (with_level z) h (w, b))
  unfolding asserted
  asserted-Leaves h w true level e ok = e
  asserted-Leaves h w false level e ok = cc

  locked-Leaves : (h : Hal (W × ℕ)) (r : (W × ℕ) × Bool) → Leaves 0 (locked (with_level z) h r)
  unfolding locked
  locked-Leaves h (w, false) = λ ok. cc
  locked-Leaves h (w, true) =
      asserted-Leaves h ((with_level z).pin_set w 0).0 (z.pin_set w.0 0).1 w.1 refl

  hal_select-Leaves : (h : Hal (W × ℕ)) → Leaves 0 (hal_select (with_level z) h)
  unfolding hal_select
  hal_select-Leaves h =
      either-Leaves 0 (not h.ready) (h, false) _ (λ ok. cc)
        (locked-Leaves h ((with_level z).mutex_lock h.world))

  hal_deselect_level :
      (h : Hal (W × ℕ))
      → (z.pin_set h.world.0 1).1 ≡ true
      → (hal_deselect (with_level z) h).world.1 ≡ 1
  unfolding hal_deselect
  hal_deselect_level h ok = rw ok refl

  -- After an initialisation that succeeds, a first selection that succeeds leaves the chip select line
  -- at the level that it has since the initialisation, and the release after it, if the pin can
  -- be set, brings it to the other level: the line is either selected from the initialisation on
  -- or never.
  pub first_select_level :
      (h : Hal (W × ℕ))
      → (hal_init (with_level z) h).1 ≡ true
      → (hal_select (with_level z) (hal_init (with_level z) h).0).1 ≡ true
      → (z.pin_set (hal_select (with_level z) (hal_init (with_level z) h).0).0.world.0 1).1 ≡ true
      → ((hal_select (with_level z) (hal_init (with_level z) h).0).0.world.1
          ≡ (hal_init (with_level z) h).0.world.1)
        × ((hal_deselect
              (with_level z)
              (hal_select (with_level z) (hal_init (with_level z) h).0).0).world.1
            ≢ (hal_init (with_level z) h).0.world.1)
  first_select_level h init select set =
      let idle = hal_init-Leaves h init in
      let chosen = hal_select-Leaves (hal_init (with_level z) h).0 select in
      let released =
        hal_deselect_level (hal_select (with_level z) (hal_init (with_level z) h).0).0 set in
      (chosen ∙ sym idle, λ e. absurd (omega (arith, e, idle, released)))
