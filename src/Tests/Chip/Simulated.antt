-- ===== src/Tests/Chip/Simulated.antt =====
-- A simulated LAN9252 that is busy for two polls after a command.
use ul_ecat.Common.{
  bit_and, ◌≢◌, ◌≤◌, ◌<◌, store, AreBytes, AreBytes-take, AreBytes-w32_le, AreBytes-get_or, ℕ, zero,
  suc, ◌+◌, ◌-◌, ◌*◌, ◌/◌, ◌%◌, ◌≡◌, ◌⊎◌, inl, inr, refl, sym, ap, ap₂, ◌∙◌, List, [], ◌∷◌,
  append-nil, some, true, arith, ◌==◌, if◌then◌else◌, IsU32, w32_le, r32_le, r32_le-w32_le,
  w32_le-bytes, length, take, Memory, load,
}
use ul_ecat.Lan9252.{Spi}
use ul_ecat.Lan9252.Core.{csr_esc_csr_data, csr_esc_csr_cmd, esc_csr_cmd_busy}
use ul_ecat.Lan9252.Chunks.{IsAccess}
use ul_ecat.Lan9252.Chip.{Registers}
use ul_ecat.Lan9252.Chip.Core.{CoreRegisters, WritableCore}

-- The register asked for, the polls left, what the data register shows, and the core registers.
pub record Sim : Type 0 where
  pub asked : ℕ
  pub busy : ℕ
  pub count : ℕ
  pub word : ℕ
  pub cells : Memory

abbrev pub core : Sim → Memory
core s j = s.cells j % 256

abbrev word_at : Memory → ℕ → ℕ
word_at m a = m a + m (a + 1) * 256 + m (a + 2) * 65536 + m (a + 3) * 16777216

abbrev sim_value : Sim → ℕ → ℕ
sim_value s addr =
    if addr == csr_esc_csr_cmd
    then if s.busy == 0 then 0 else 2147483648
    else if addr == csr_esc_csr_data
    then s.word % 4294967296
    else 0

abbrev sim_read : Sim → ℕ → Sim
sim_read s addr = record s {
  asked = 0;
  busy = if addr == csr_esc_csr_cmd then s.busy - 1 else s.busy;
}

abbrev sim_command : Sim → ℕ → ℕ → Sim
sim_command s count address = record s {
  asked = 0;
  busy = 2;
  count = count;
  word = word_at (core s) address;
}

abbrev sim_stored : Sim → ℕ → ℕ → Sim
sim_stored s count address = record s {
  asked = 0;
  busy = 2;
  cells = store s.cells address (take count (w32_le (s.word % 4294967296)));
}

abbrev sim_write : Sim → ℕ → ℕ → Sim
sim_write s addr val =
    if addr == csr_esc_csr_cmd
    then if val / 1073741824 == 3
      then sim_command s (val / 65536 % 8) (val % 65536)
      else sim_stored s (val / 65536 % 8) (val % 65536)
    else if addr == csr_esc_csr_data
    then record s { asked = 0; word = val }
    else record s { asked = 0 }

-- A transaction: what is sent, and what comes back.
abbrev sim_sent : Sim → List ℕ → Sim
sim_sent s [] = s
sim_sent s (op ∷ []) = s
sim_sent s (op ∷ hi ∷ []) = s
sim_sent s (op ∷ hi ∷ lo ∷ rest) =
    if op == 0x0b
    then record s { asked = hi * 256 + lo }
    else sim_write s (hi * 256 + lo) (r32_le rest)

abbrev pub sim : Spi Sim
sim = record {
  select = λ s. (s, true);
  deselect = λ s. s;
  write = λ s bytes. (sim_sent s bytes, true);
  read = λ s count. (sim_read s s.asked, some (w32_le (sim_value s s.asked)));
}

pub whole : (addr : ℕ) → addr / 256 * 256 + addr % 256 ≡ addr
whole addr = omega arith

pub whole_word : (val : ℕ) → IsU32 val → r32_le (w32_le val) ≡ val
whole_word val v = ap r32_le (sym (append-nil (w32_le val))) ∙ r32_le-w32_le val [] v

pub sim_value-IsU32 : (s : Sim) (addr : ℕ) → IsU32 (sim_value s addr)
sim_value-IsU32 s addr = ground arith

unfoldable pub sim_registers : Registers sim
sim_registers = record {
  IsIdle = λ s. Unit;
  value = sim_value;
  after_read = sim_read;
  after_write = sim_write;
  value-IsU32 = sim_value-IsU32;
  selects = λ s i. refl;
  read_asks = λ s addr i a. refl;
  read_answers = λ s addr i a.
      ap (λ k. (sim_read s (addr / 256 * 256 + addr % 256), some (w32_le (sim_value s k))))
        (whole addr);
  read_ends = λ s addr i a. ap (sim_read s) (whole addr);
  write_takes = λ s addr val i a v. refl;
  write_ends = λ s addr val i a v. ap₂ (sim_write s) (whole addr) (whole_word val v);
  after_read-IsIdle = λ s addr i. tt;
  after_write-IsIdle = λ s addr val i. tt;
}

pub take_shown : (n : ℕ) (bytes : List ℕ) → take (length (take n bytes)) bytes ≡ take n bytes
take_shown zero bytes = refl
take_shown (suc n) [] = refl
take_shown (suc n) (b ∷ bs) = ap (◌∷◌ b) (take_shown n bs)

four :
    {a b c d a' b' c' d' : ℕ}
    → a ≡ a'
    → b ≡ b'
    → c ≡ c'
    → d ≡ d'
    → a ∷ b ∷ c ∷ d ∷ [] ≡ a' ∷ b' ∷ c' ∷ d' ∷ []
four h i j k = rw (h, i, j, k) refl

word_bytes :
    (m : Memory) (a : ℕ)
    → w32_le (word_at (λ j. m j % 256) a % 4294967296)
      ≡ m a % 256 ∷ m (a + 1) % 256 ∷ m (a + 2) % 256 ∷ m (a + 3) % 256 ∷ []
word_bytes m a =
    w32_le-bytes (word_at (λ j. m j % 256) a % 4294967296)
    ∙ four (omega arith) (omega arith) (omega arith) (omega arith)

take_loaded :
    (m : Memory) (a n : ℕ)
    → (n ≡ 1) ⊎ (n ≡ 2) ⊎ (n ≡ 4)
    → take n (m a ∷ m (a + 1) ∷ m (a + 2) ∷ m (a + 3) ∷ []) ≡ load m a n
unfolding load
take_loaded m a n (inl h) = rw h refl
take_loaded m a n (inr (inl h)) = rw h refl
take_loaded m a n (inr (inr h)) = rw h (four refl refl (ap m (omega arith)) (ap m (omega arith)))

shown :
    (m : Memory) (count place a n : ℕ)
    → count ≡ n
    → place ≡ a
    → (n ≡ 1) ⊎ (n ≡ 2) ⊎ (n ≡ 4)
    → take count (w32_le (word_at (λ j. m j % 256) place % 4294967296)) ≡ load (λ j. m j % 256) a n
shown m count place a n c p h = rw (c, p, word_bytes m a) (take_loaded (λ j. m j % 256) a n h)

pub sim_reads :
    (s : Sim) (address n : ℕ)
    → IsAccess address n
    → address + n ≤ 4096
    → let after = sim_write s csr_esc_csr_cmd (0xc0000000 + n * 65536 + address) in
      (core after ≡ core s)
      × (take after.count (w32_le (after.word % 4294967296)) ≡ load (core s) address n)
      × (after.busy < 100000)
sim_reads s address n a h =
    let kind : (0xc0000000 + n * 65536 + address) / 1073741824 ≡ 3 = omega arith in
    rw kind (refl, shown s.cells _ _ address n (omega arith) (omega arith) a.0, omega arith)

low_bytes :
    (m : Memory) (a j : ℕ) (bs : List ℕ)
    → AreBytes bs
    → store m a bs j % 256 ≡ store (λ k. m k % 256) a bs j
unfolding store
low_bytes m a j bs b = ground (arith, AreBytes-get_or bs (j - a) b)

stored_byte :
    (m : Memory) (count place a n v word j : ℕ)
    → count ≡ n
    → place ≡ a
    → word ≡ v
    → store m place (take count (w32_le word)) j % 256
      ≡ store (λ k. m k % 256) a (take n (w32_le v)) j
stored_byte m count place a n v word j c p w =
    rw (c, p, w)
      (low_bytes m a j (take n (w32_le v)) (AreBytes-take n (w32_le v) (AreBytes-w32_le v)))

stored_bytes :
    (m : Memory) (count place a n v word : ℕ)
    → count ≡ n
    → place ≡ a
    → word ≡ v
    → (λ j. store m place (take count (w32_le word)) j % 256)
      ≡ store (λ k. m k % 256) a (take n (w32_le v))
stored_bytes m count place a n v word c p w i j = stored_byte m count place a n v word j c p w i

pub sim_writes :
    (s : Sim) (address n v : ℕ)
    → IsAccess address n
    → address + n ≤ 4096
    → IsU32 v
    → let after =
        sim_write
          (sim_write s csr_esc_csr_data v)
          csr_esc_csr_cmd
          (0x80000000 + n * 65536 + address) in
      (core after ≡ store (core s) address (take n (w32_le v))) × (after.busy < 100000)
sim_writes s address n v a h u =
    let kind : (0x80000000 + n * 65536 + address) / 1073741824 ≡ 2 = omega arith in
    rw kind (
      stored_bytes s.cells _ _ address n v _ (omega arith) (omega arith) (omega arith),
      omega arith,
    )

pub sim_is_free :
    (s : Sim) → s.busy ≡ 0 → bit_and (sim_value s csr_esc_csr_cmd) esc_csr_cmd_busy ≡ 0
sim_is_free s h = ground arith

pub sim_is_busy :
    (s : Sim) → 1 ≤ s.busy → bit_and (sim_value s csr_esc_csr_cmd) esc_csr_cmd_busy ≢ 0
sim_is_busy s h = ground arith

unfoldable pub sim_core : CoreRegisters sim_registers
unfolding sim_registers
sim_core = record {
  memory = core;
  busy = λ s. s.busy;
  pending = λ s. take s.count (w32_le (s.word % 4294967296));
  read_starts = λ s address n i a h. sim_reads s address n a h;
  is_free = sim_is_free;
  is_busy = sim_is_busy;
  polled = λ s. (refl, refl, refl);
  data_ready = λ s h. take_shown s.count (w32_le (s.word % 4294967296));
  data_taken = λ s. refl;
}

unfoldable pub sim_writable : WritableCore sim_core
unfolding sim_registers sim_core
sim_writable = record { write_starts = λ s address n v i a h u. sim_writes s address n v a h u }
