-- ===== src/Slave/Pdu/Addressing.antt =====
-- Which datagrams the slave takes, and what it does to the others.
use ul_ecat.Common.{ℕ, ◌≡◌, ◌≢◌, ◌⊎◌, List, [], ◌∷◌, arith}
use ul_ecat.Wire.Datagram.{Dgram}
use ul_ecat.Slave.Esc.{reg_stadr, Slave, esc_read_u16_le}
use ul_ecat.Slave.Pdu.{process_fprd, process_fpwr, process_apwr, process_one}
use ul_ecat.Slave.Pdu.Refine.{respond}

abbrev pub station : Slave → ℕ
station s = esc_read_u16_le s.esc reg_stadr

-- A datagram for this slave: FPRD (4) and FPWR (5) by a station address that is set, APWR (2) by
-- the position in the ring.
abbrev pub IsFor : Slave → Dgram → Type 0
IsFor s d =
    ((d.cmd ≡ 4) ⊎ (d.cmd ≡ 5)) × (station s ≢ 0) × (d.adp ≡ station s)
    ⊎ (d.cmd ≡ 2) × (d.adp ≡ s.logical_position)

abbrev pub AreForOthers : Slave → List Dgram → Type 0
AreForOthers s [] = Unit
AreForOthers s (d ∷ ds) = (¬ IsFor s d) × AreForOthers s ds

-- The same datagrams with no answer counted.
pub uncounted : List Dgram → List Dgram
uncounted [] = []
uncounted (d ∷ ds) = record d { wkc = 0 } ∷ uncounted ds

pub respond_ignored :
    (s : Slave) (d : Dgram) → ¬ IsFor s d → respond s d ≡ (s, record d { wkc = 0 })
unfolding respond process_one process_fprd process_fpwr process_apwr
respond_ignored s d h = ground arith
