-- ===== src/Lan9252/Selected/Monitor.antt =====
-- The chip select line of lan9252_hal.h: a monitor of the calls of the hardware layer, whatever
-- the layer returns.
use ul_ecat.Common.{◌≡◌, refl, ap, List, Bool, true, false}
use ul_ecat.Lan9252.{Spi}
use ul_ecat.Lan9252.Selected.{After, IsSelector}
use ul_ecat.Lan9252.Selected.Operations.{Call, calls, calls_idle}

-- `misused` once a transfer or a release came without a selection, or a selection within one.
pub data Line : Type 0 where
  released selected misused : Line

abbrev pub on_select : Line → Bool → Line
on_select released true = selected
on_select released false = released
on_select selected b = misused
on_select misused b = misused

abbrev pub on_transfer : Line → Line
on_transfer selected = selected
on_transfer released = misused
on_transfer misused = misused

abbrev pub on_deselect : Line → Line
on_deselect selected = released
on_deselect released = misused
on_deselect misused = misused

abbrev pub monitored : {W : Type 0} → Spi W → Spi (W × Line)
monitored spi = record {
  select = λ s. ((((spi.select s.0).0, on_select s.1 (spi.select s.0).1)), (spi.select s.0).1);
  deselect = λ s. (spi.deselect s.0, on_deselect s.1);
  write = λ s bytes. (((spi.write s.0 bytes).0, on_transfer s.1), (spi.write s.0 bytes).1);
  read = λ s count. (((spi.read s.0 count).0, on_transfer s.1), (spi.read s.0 count).1);
}

on_select-After :
    {W : Type 0} (s : W × Line) (w : W) (b : Bool)
    → s.1 ≡ released
    → After (λ (t : W × Line). t.1 ≡ released) (λ t. t.1 ≡ selected) ((w, on_select s.1 b), b)
on_select-After s w true h = ap (λ (l : Line). on_select l true) h
on_select-After s w false h = ap (λ (l : Line). on_select l false) h

monitored-IsSelector :
    {W : Type 0} (spi : Spi W)
    → IsSelector (monitored spi) (λ s. s.1 ≡ released) (λ s. s.1 ≡ selected)
monitored-IsSelector spi = record {
  select = λ s h. on_select-After s (spi.select s.0).0 (spi.select s.0).1 h;
  deselect = λ s h. ap on_deselect h;
  write = λ s bytes h. ap on_transfer h;
  read = λ s count h. ap on_transfer h;
}

-- Whatever the hardware layer returns, in any sequence of calls of the driver that starts with
-- the chip not selected: no transfer and no release comes outside a selection, no selection
-- inside one, and in the end the chip is not selected, error paths included.
pub calls-released :
    {W : Type 0} (spi : Spi W) (cs : List Call) (w : W)
    → (calls (monitored spi) cs (w, released)).1 ≡ released
calls-released spi cs w = calls_idle (monitored-IsSelector spi) cs (w, released) refl
