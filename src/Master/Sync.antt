-- ===== src/Master/Sync.antt =====
-- `ul_ecat_fprd_sync` and `ul_ecat_fpwr_sync`: one access that has to be counted.
use ul_ecat.Common.{
  ℕ, List, Option, none, some, Bool, true, false, ltb, ◌==◌, if◌then◌else◌, length, take,
}
use ul_ecat.Master.{Transport, Port, Access, counted, fprd_blocking, fpwr_blocking}

unfoldable pub read_of : {W : Type 0} → W × Access → W × Option (List ℕ)
read_of (w, a) = (w, counted a)

-- `out` has `len` bytes or more; the bytes read, or `none` for the -1.
unfoldable pub fprd_sync :
    {W : Type 0} → Transport W → Port → W → ℕ → ℕ → ℕ → List ℕ → ℕ → W × Option (List ℕ)
unfolding read_of
fprd_sync t port w adp ado len out timeout_ms =
    let access = read_of (fprd_blocking t port w adp ado (take len out) timeout_ms) in
    if len == 0
    then (w, none)
    else if ltb (length out) len
    then (w, none)
    else if port.is_open
    then if ltb 512 len then (w, none) else access
    else (w, none)

-- True is the 0.
unfoldable pub fpwr_sync : {W : Type 0} → Transport W → Port → W → ℕ → ℕ → List ℕ → ℕ → W × Bool
unfolding read_of
fpwr_sync t port w adp ado bytes timeout_ms =
    let access = read_of (fpwr_blocking t port w adp ado bytes timeout_ms) in
    if length bytes == 0
    then (w, false)
    else if port.is_open
    then if ltb 512 (length bytes)
      then (w, false)
      else (access.0, elim access.1 [ none ↦ false | some out ↦ true ])
    else (w, false)
