-- ===== src/Storage/Page/Laws.antt =====
-- What server/storage/page.c keeps in a page's slots.
use event_ticketing_platform.Base.{
  ℕ, zero, suc, ◌+◌, ◌*◌, ◌/◌, ◌%◌, ◌↔◌, ◌≤◌, ◌<◌, ◌≡◌, refl, ◌⊎◌, true, false, inl, inr,
  Bool-cases, none, some, List, [], ◌∷◌, arith, ltb, leb, ◌==◌, if◌then◌else◌, get_elem?, length,
}
use event_ticketing_platform.Storage.Page.{
  Page, u16_mod, page_get_max_records, write_slot, page_init_header, page_is_full,
  page_insert_record, page_get_record, page_update_record, appended, overwritten,
}
use native.Mathlib.Nat.{div-lt_iff_lt-mul, div-le_self}

-- A page of records of `size` bytes: the count is that of the slots written, and they fit.
pub record IsPage {R : Type 0} (size : ℕ) (page : Page R) : Type 0 where
  pub counted : page.record_count ≡ length page.slots
  pub fits : page.record_count ≤ page_get_max_records size
  pub sized : page.record_size ≡ size

pub page_get_max_records-le : (size : ℕ) → page_get_max_records size ≤ 4080
unfolding page_get_max_records
page_get_max_records-le size = grind arith

module _ {R : Type 0} where
  length-write_slot :
      (xs : List R) (i : ℕ) (r : R)
      → length (write_slot xs i r) ≡ (if ltb i (length xs) then length xs else suc (length xs))
  unfolding write_slot
  length-write_slot [] i r = ground arith
  length-write_slot (x ∷ xs) zero r = ground arith
  length-write_slot (x ∷ xs) (suc i) r = ground (arith, length-write_slot xs i r)

  get_elem?-write_slot :
      (xs : List R) (i : ℕ) (r : R) (j : ℕ)
      → i ≤ length xs
      → get_elem? (write_slot xs i r) j ≡ (if j == i then some r else get_elem? xs j)
  unfolding write_slot
  get_elem?-write_slot [] zero r zero h = refl
  get_elem?-write_slot [] zero r (suc j) h = ground arith
  get_elem?-write_slot [] (suc i) r j h = absurd (omega arith)
  get_elem?-write_slot (x ∷ xs) zero r zero h = refl
  get_elem?-write_slot (x ∷ xs) zero r (suc j) h = ground arith
  get_elem?-write_slot (x ∷ xs) (suc i) r zero h = ground arith
  get_elem?-write_slot (x ∷ xs) (suc i) r (suc j) h = ground (arith, get_elem?-write_slot xs i r j)

  pub page_init_header-IsPage :
      (page_id size : ℕ) → IsPage {R = R} size (page_init_header page_id size)
  unfolding page_init_header
  page_init_header-IsPage page_id size = record { counted = refl; fits = omega arith; sized = refl }

  -- The new page, in which slot `i` holds `r` and every other slot what it held.
  abbrev pub Holds : ℕ → Page R → ℕ → R → Page R → Type 0
  Holds size page i r page' =
      IsPage size page'
      × ((j : ℕ) → page_get_record page' j ≡ (if j == i then some r else page_get_record page j))

  -- On a page whose count is that of its slots, an insertion succeeds exactly when the page is not
  -- full. It takes the first unused slot, changes no other one, and keeps the page in order.
  pub page_insert_record_lem :
      (size : ℕ) (page : Page R) (r : R)
      → IsPage size page
      → ((page_is_full page ≡ true) × (page_insert_record page r ≡ none))
        ⊎ ((page' : Page R) × (page_is_full page ≡ false)
            × (page_insert_record page r ≡ some (page.record_count, page'))
            × (page.record_count < u16_mod)
            × Holds size page page.record_count r page')
  unfolding page_insert_record page_is_full page_get_record
  page_insert_record_lem size page r v =
      elim (Bool-cases (leb (page_get_max_records page.record_size) page.record_count)) [
        | inl full ↦ inl (full, rw full refl)
        | inr room ↦
            let small : page.record_count + 1 ≤ 4080 =
              ground (arith, page_get_max_records-le page.record_size) in
            let count : (page.record_count + 1) % u16_mod ≡ page.record_count + 1 = omega arith in
            inr (
              appended page r,
              room,
              rw room refl,
              omega arith,
              (
                record {
                  counted = ground (arith, count, length-write_slot page.slots page.record_count r);
                  fits = ground (arith, count);
                  sized = v.sized;
                },
                λ j. ground (arith, count, get_elem?-write_slot page.slots page.record_count r j),
              ),
            )
      ]

  page_is_full-bytes :
      (size : ℕ) (page : Page R)
      → 0 < size
      → page.record_size ≡ size
      → (page_is_full page ≡ true) ↔ (4096 < 16 + (page.record_count + 1) * size)
  unfolding page_is_full page_get_max_records
  page_is_full-bytes size page h e =
      let below : (4080 / size < page.record_count + 1) ↔ (4080 < (page.record_count + 1) * size) =
        div-lt_iff_lt-mul h in
      let small : 4080 / size ≤ 4080 = div-le_self 4080 size in ground (arith, below, small, e)

  -- On a page whose count is that of its slots, an insertion of a record that is not empty succeeds
  -- exactly when the header's 16 bytes and the records, the new one with them, fit into 4096 bytes. It
  -- takes the first unused slot, changes no other one, and keeps the page in order.
  pub page_insert_record_bounds :
      (size : ℕ) (page : Page R) (r : R)
      → IsPage size page
      → 0 < size
      → ((4096 < 16 + (page.record_count + 1) * size) × (page_insert_record page r ≡ none))
        ⊎ ((page' : Page R) × (16 + (page.record_count + 1) * size ≤ 4096)
            × (page_insert_record page r ≡ some (page.record_count, page'))
            × Holds size page page.record_count r page')
  page_insert_record_bounds size page r v h =
      let full = page_is_full-bytes size page h v.sized in
      elim (page_insert_record_lem size page r v) [
        | inl (f, e) ↦ inl (full.0 f, e)
        | inr (page', f, e, _, holds) ↦ inr (page', ground (arith, full, f), e, holds)
      ]

  -- On a page whose count is that of its slots, an update of a slot that holds a record succeeds,
  -- changes no other slot, and keeps the page in order.
  pub page_update_record_lem :
      (size : ℕ) (page : Page R) (i : ℕ) (r old : R)
      → IsPage size page
      → page_get_record page i ≡ some old
      → (page' : Page R) × (page_update_record page i r ≡ some page') × Holds size page i r page'
  unfolding page_update_record page_get_record
  page_update_record_lem size page i r old v e =
      let inside : i < page.record_count = ground arith in
      (
        overwritten page i r,
        ground arith,
        (
          record {
            counted = ground (arith, length-write_slot page.slots i r);
            fits = v.fits;
            sized = v.sized;
          },
          λ j. ground (arith, get_elem?-write_slot page.slots i r j),
        ),
      )

  -- A write through the pointer to a record is an update, but for the page's flags.
  pub write_slot-Holds :
      (size : ℕ) (page : Page R) (i : ℕ) (r old : R)
      → IsPage size page
      → page_get_record page i ≡ some old
      → Holds size page i r (record page { slots = write_slot page.slots i r })
  unfolding page_get_record
  write_slot-Holds size page i r old v e =
      let inside : i < page.record_count = ground arith in
      (
        record {
          counted = ground (arith, length-write_slot page.slots i r);
          fits = v.fits;
          sized = v.sized;
        },
        λ j. ground (arith, get_elem?-write_slot page.slots i r j),
      )
