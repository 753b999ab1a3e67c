-- ===== src/Od/Storage.antt =====
-- Reading and writing the storage behind an entry.
use ul_ecat.Common.{
  ℕ, ◌+◌, ◌-◌, ◌≤◌, ◌<◌, ◌≡◌, ◌≢◌, ◌⊎◌, ◌↔◌, inr, ap, ap₂, ◌∙◌, sym, List, ◌++◌, none, some,
  bit_and, arith, length, Memory, load, store, load-append, load-store_self, load_ext,
  store_outside,
}
use ul_ecat.Od.{Entry, read, od_read, od_write}

abbrev pub IsReadable : Entry → Type 0
IsReadable e = bit_and e.flags 0x01 ≢ 0

abbrev pub IsWritable : Entry → Type 0
IsWritable e = bit_and e.flags 0x02 ≢ 0

-- Storage of at least one byte behind a pointer that is not null.
abbrev pub HasStorage : Entry → Type 0
HasStorage e = (e.storage ≢ 0) × (e.len ≢ 0)

-- A write succeeds exactly on a writable entry with storage that holds the bytes given.
pub od_write_iff :
    (objects : Memory) (e : Entry) (src : List ℕ)
    → ((od_write objects (some e) src).1 ≡ none)
      ↔ (IsWritable e × HasStorage e × (length src ≤ e.len))
unfolding od_write
od_write_iff objects e src = ground arith

-- A write changes nothing outside the storage of its entry, and nothing at all when it fails.
pub od_write_elsewhere :
    (objects : Memory) (e : Entry) (src : List ℕ) (j : ℕ)
    → (j < e.storage) ⊎ (e.storage + e.len ≤ j)
    → (od_write objects (some e) src).0 j ≡ objects j
unfolding od_write
od_write_elsewhere objects e src j h = ground (arith, store_outside objects e.storage src j)

pub load-store_front :
    (objects : Memory) (a n : ℕ) (src : List ℕ)
    → length src ≤ n
    → load (store objects a src) a n ≡ src ++ load objects (a + length src) (n - length src)
load-store_front objects a n src h =
    let count : n ≡ length src + (n - length src) = omega arith in
    ap (load (store objects a src) a) count
    ∙ sym (load-append (store objects a src) a (length src) (n - length src))
    ∙ ap₂ ◌++◌ (load-store_self objects a src) (
        load_ext (store objects a src) objects (a + length src) (n - length src)
          (λ j p q. store_outside objects a src j (inr p)))

-- After a successful write to a readable entry, a read gives the bytes written, followed by what
-- the storage held behind them.
pub od_read-od_write :
    (objects : Memory) (e : Entry) (src : List ℕ) (room : ℕ)
    → IsReadable e
    → IsWritable e
    → HasStorage e
    → length src ≤ e.len
    → e.len ≤ room
    → od_read (od_write objects (some e) src).0 (some e) room
      ≡ read (src ++ load objects (e.storage + length src) (e.len - length src))
unfolding od_read od_write
od_read-od_write objects e src room r w s fits enough =
    ground (arith, load-store_front objects e.storage e.len src fits)
