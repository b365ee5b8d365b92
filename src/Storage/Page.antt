-- ===== src/Storage/Page.antt =====
-- server/storage/page.c: the records of one page. A record of the page's fixed size is one value of
-- the record type `R`; `slots` holds the record area as far as it was ever written.
pub mod Laws
use event_ticketing_platform.Base.{
  ℕ, zero, suc, ◌+◌, ◌-◌, ◌*◌, ◌/◌, ◌%◌, Bool, true, false, Option, none, some, List, [], ◌∷◌, ltb,
  leb, ◌==◌, if◌then◌else◌, get_elem?,
}
use Prim.Native.Nat.{bit_or}

-- PAGE_SIZE and PAGE_HEADER_SIZE.
abbrev pub page_size : ℕ
page_size = 4096

abbrev pub page_header_size : ℕ
page_header_size = 16

abbrev pub u16_mod : ℕ
u16_mod = 65536

abbrev pub page_flag_dirty : ℕ
page_flag_dirty = 1

pub record Page (R : Type 0) : Type 0 where
  pub page_id : ℕ
  pub record_count : ℕ
  pub free_space_offset : ℕ
  pub record_size : ℕ
  pub flags : ℕ
  pub slots : List R

unfoldable pub page_get_max_records : ℕ → ℕ
page_get_max_records record_size =
    if record_size == 0 then 0 else ((page_size - page_header_size) / record_size) % u16_mod

-- A write of one record into the record area, at a slot written before or at the next one.
unfoldable pub write_slot : {R : Type 0} → List R → ℕ → R → List R
write_slot [] i r = r ∷ []
write_slot (x ∷ xs) zero r = r ∷ xs
write_slot (x ∷ xs) (suc i) r = x ∷ write_slot xs i r

module _ {R : Type 0} where
  unfoldable pub page_init_header : ℕ → ℕ → Page R
  page_init_header page_id record_size = record {
    page_id = page_id;
    record_count = 0;
    free_space_offset = page_header_size;
    record_size = record_size;
    flags = 0;
    slots = [];
  }

  -- The page that a read past the end of the file yields: zero bytes.
  abbrev pub zero_page : Page R
  zero_page = record {
    page_id = 0;
    record_count = 0;
    free_space_offset = 0;
    record_size = 0;
    flags = 0;
    slots = [];
  }

  unfoldable pub page_is_full : Page R → Bool
  unfolding page_get_max_records
  page_is_full page = leb (page_get_max_records page.record_size) page.record_count

  abbrev pub appended : Page R → R → Page R
  appended page r = record page {
    record_count = (page.record_count + 1) % u16_mod;
    free_space_offset =
        (page_header_size + ((page.record_count + 1) % u16_mod) * page.record_size) % u16_mod;
    flags = bit_or page.flags page_flag_dirty;
    slots = write_slot page.slots page.record_count r;
  }

  -- The slot index and the page, or none for the source's -1.
  unfoldable pub page_insert_record : Page R → R → Option (ℕ × Page R)
  unfolding page_get_max_records
  page_insert_record page r =
      if leb (page_get_max_records page.record_size) page.record_count
      then none
      else some (page.record_count, appended page r)

  unfoldable pub page_get_record : Page R → ℕ → Option R
  page_get_record page slot_id =
      if ltb slot_id page.record_count then get_elem? page.slots slot_id else none

  abbrev pub overwritten : Page R → ℕ → R → Page R
  overwritten page slot_id r = record page {
    flags = bit_or page.flags page_flag_dirty;
    slots = write_slot page.slots slot_id r;
  }

  unfoldable pub page_update_record : Page R → ℕ → R → Option (Page R)
  page_update_record page slot_id r =
      if ltb slot_id page.record_count then some (overwritten page slot_id r) else none
