-- ===== src/Od.antt =====
-- src/slave/ul_ecat_slave_od.c: the object dictionary. The table is an argument in place of the
-- static pointer: `none` where no table, or one with no entries array, is set. The storage that
-- the entries point to is a memory with addresses; the address 0 is the null pointer.
pub mod Lookup
pub mod Storage
use ul_ecat.Common.{
  ℕ, ◌+◌, List, [], ◌∷◌, Option, none, some, Bool, true, false, ◌&&◌, ◌||◌, ltb, ◌==◌,
  if◌then◌else◌, bit_and, length, Memory, load, store,
}

-- UL_ECAT_OD_FLAG_R, UL_ECAT_OD_FLAG_W
abbrev pub od_flag_r : ℕ
od_flag_r = 0x01

abbrev pub od_flag_w : ℕ
od_flag_w = 0x02

-- ul_ecat_od_entry_t
pub record Entry : Type 0 where
  pub index : ℕ
  pub subindex : ℕ
  pub type : ℕ
  pub flags : ℕ
  pub len : ℕ
  pub storage : ℕ

abbrev pub Table : Type 0
Table = Option (List Entry)

-- `ul_ecat_od_set_table` of a null pointer or of a table: the static pointer afterwards.
unfoldable pub od_set_table : Option Table → Table
od_set_table none = none
od_set_table (some table) = table

unfoldable pub lookup_in : List Entry → ℕ → ℕ → Option Entry
lookup_in [] index subindex = none
lookup_in (e ∷ es) index subindex =
    let rest = lookup_in es index subindex in
    if e.index == index && e.subindex == subindex then some e else rest

unfoldable pub od_lookup : Table → ℕ → ℕ → Option Entry
unfolding lookup_in
od_lookup none index subindex = none
od_lookup (some entries) index subindex = lookup_in entries index subindex

exists_in : List Entry → ℕ → Bool
exists_in [] index = false
exists_in (e ∷ es) index = let rest = exists_in es index in if e.index == index then true else rest

unfoldable pub od_index_exists : Table → ℕ → Bool
unfolding exists_in
od_index_exists none index = false
od_index_exists (some entries) index = exists_in entries index

-- `ul_ecat_od_first` with the count of `ul_ecat_od_entries_count`: the array from the first entry
-- on.
unfoldable pub od_first : Table → List Entry
od_first none = []
od_first (some entries) = entries

unfoldable pub od_entries_count : Table → ℕ
od_entries_count none = 0
od_entries_count (some entries) = length entries

-- UL_ECAT_OD_ERR_*
pub data OdError : Type 0 where
  not_found not_readable not_writable length_error : OdError

pub data OdRead : Type 0 where
  read : List ℕ → OdRead
  read_failed : OdError → OdRead

-- The bytes that go to `dst`, whose number is returned.
unfoldable pub od_read : Memory → Option Entry → ℕ → OdRead
od_read objects none room = read_failed not_found
od_read objects (some entry) room =
    if bit_and entry.flags od_flag_r == 0
    then read_failed not_readable
    else if entry.storage == 0 || entry.len == 0
    then read_failed length_error
    else if ltb room entry.len
    then read_failed length_error
    else read (load objects entry.storage entry.len)

-- The storage afterwards; `none` is UL_ECAT_OD_OK.
unfoldable pub od_write : Memory → Option Entry → List ℕ → Memory × Option OdError
od_write objects none src = (objects, some not_found)
od_write objects (some entry) src =
    if bit_and entry.flags od_flag_w == 0
    then (objects, some not_writable)
    else if entry.storage == 0 || entry.len == 0
    then (objects, some length_error)
    else if ltb entry.len (length src)
    then (objects, some length_error)
    else (store objects entry.storage src, none)
