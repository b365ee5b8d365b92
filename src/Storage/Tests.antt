-- ===== src/Storage/Tests.antt =====
-- The storage modules at work on a small table.
use event_ticketing_platform.Base.{
  ℕ, zero, suc, ◌+◌, ◌*◌, ◌%◌, ◌≤◌, ◌<◌, ◌≡◌, refl, ◌⊎◌, Bool, true, false, none, some, List, [],
  ◌∷◌, ◌++◌, arith, ◌==◌, length, take,
}
use event_ticketing_platform.Types.{seats, u64_mod, invalid_lsn, wal_insert, not_found, io, err}
use event_ticketing_platform.Storage.BTree.{
  leaf, BTree, RecordPtr, btree_insert, btree_search, key_lower_bound,
}
use event_ticketing_platform.Storage.BTree.Search.{
  Sorted, IsLowerBound, key_lower_bound-IsLowerBound,
}
use event_ticketing_platform.Storage.BTree.Laws.{
  IsTree, Adds, empty, search-empty, btree_insert_lem,
}
use event_ticketing_platform.Storage.Page.{
  Page, page_init_header, page_insert_record, page_get_record, page_get_max_records,
}
use event_ticketing_platform.Storage.Page.Laws.{
  IsPage, Holds, page_init_header-IsPage, page_insert_record_bounds,
}
use event_ticketing_platform.Storage.Wal.{Env, WalEntry, fails, wal_append}
use event_ticketing_platform.Storage.Wal.Laws.{entry_of, is_torn, wal_append_lem}
use event_ticketing_platform.Storage.Table.{
  Layout, Table, table_insert, table_find_by_id, table_update, table_delete, table_scan,
  table_count,
}
use event_ticketing_platform.Storage.Table.Laws.{view, found_or, IsTable, table_find_by_id_lem}
use event_ticketing_platform.Storage.Table.Update.{Updated, table_update_lem}
use event_ticketing_platform.Storage.Table.Insertion.{Landed, table_insert_lem}
use event_ticketing_platform.Storage.Table.Deletion.{Deleted, table_delete_lem}
use event_ticketing_platform.Storage.Table.Scan.{
  matches, records, readable, table_scan_lem, table_count_lem,
}

record Row : Type 0 where
  key : ℕ
  deleted : Bool
  value : ℕ

abbrev row_layout : Layout Row
row_layout = record {
  key = λ r. r.key;
  set_key = λ k r. record r { key = k };
  deleted = λ r. r.deleted;
  mark_deleted = λ r. record r { deleted = true };
  bytes = λ r. r.key ∷ r.value ∷ [];
  key-set_key = λ k r. refl;
  deleted-set_key = λ k r. refl;
  key-mark_deleted = λ r. refl;
  deleted-mark_deleted = λ r. refl;
}

abbrev row : ℕ → Row
row n = record { key = 1; deleted = false; value = n }

abbrev calm : Env
calm = record { wal = record { file = []; next_lsn = 1; flushed_lsn = 0 }; faults = [] }

abbrev shaky : Env
shaky = record {
  wal = record { file = []; next_lsn = 1; flushed_lsn = 0 };
  faults = false ∷ true ∷ [];
}

abbrev empty_tree : BTree
empty_tree = record { order = 4; root = leaf [] []; size = 0; dirty = true }

empty_tree-IsTree : IsTree empty_tree
empty_tree-IsTree = (omega arith, empty)

abbrev empty_table : Table Row
empty_table = record { id = seats; pages = []; index = empty_tree; next_id = 1 }

empty_table-IsTable : IsTable row_layout empty_table
empty_table-IsTable = record {
  tree = empty_tree-IsTree;
  paged = λ p h. absurd (omega arith);
  linked = λ j ptr k e. absurd (ground (arith, search-empty 4 j));
  unused = λ j h k. search-empty 4 j;
  next_small = omega arith;
}

abbrev one_row : Table Row
one_row = (table_insert row_layout (row 7) empty_table calm).1

one_row-IsTable : IsTable row_layout one_row
one_row-IsTable =
    (table_insert_lem row_layout empty_table (row 7) calm empty_table-IsTable (omega arith)).0.0

ptr_3_4 : RecordPtr
ptr_3_4 = record { page_id = 3; slot_id = 4 }

btree_insert_lem_example :
    ((old : RecordPtr) × (btree_search empty_tree 5 ≡ some old)
      × (btree_insert empty_tree 5 ptr_3_4 ≡ none))
    ⊎ ((t' : BTree) × (btree_search empty_tree 5 ≡ none)
        × (btree_insert empty_tree 5 ptr_3_4 ≡ some t')
        × Adds empty_tree 5 ptr_3_4 t')
btree_insert_lem_example = btree_insert_lem empty_tree 5 ptr_3_4 empty_tree-IsTree (omega arith)

abbrev three_keys : List ℕ
three_keys = 2 ∷ 5 ∷ 9 ∷ []

three_keys-Sorted : Sorted three_keys
three_keys-Sorted i zero h k = absurd (omega arith)
three_keys-Sorted zero (suc zero) h k = omega arith
three_keys-Sorted (suc i) (suc zero) h k = absurd (omega arith)
three_keys-Sorted zero (suc (suc zero)) h k = omega arith
three_keys-Sorted (suc zero) (suc (suc zero)) h k = omega arith
three_keys-Sorted (suc (suc i)) (suc (suc zero)) h k = absurd (omega arith)
three_keys-Sorted i (suc (suc (suc j))) h k = absurd (omega arith)

key_lower_bound-IsLowerBound_example : IsLowerBound three_keys 5 (key_lower_bound three_keys 5)
key_lower_bound-IsLowerBound_example = key_lower_bound-IsLowerBound three_keys 5 three_keys-Sorted

abbrev new_page : Page Row
new_page = page_init_header 0 32

page_insert_record_bounds_example :
    ((4096 < 16 + (new_page.record_count + 1) * 32) × (page_insert_record new_page (row 7) ≡ none))
    ⊎ ((page' : Page Row) × (16 + (new_page.record_count + 1) * 32 ≤ 4096)
        × (page_insert_record new_page (row 7) ≡ some (new_page.record_count, page'))
        × Holds 32 new_page new_page.record_count (row 7) page')
page_insert_record_bounds_example =
    page_insert_record_bounds 32 new_page (row 7) (page_init_header-IsPage 0 32) (omega arith)

abbrev used_page : Page Row
used_page = record {
  page_id = 0;
  record_count = 1;
  free_space_offset = 48;
  record_size = 32;
  flags = 0;
  slots = row 7 ∷ [];
}

used_page-IsPage : IsPage 32 used_page
unfolding page_get_max_records
used_page-IsPage = record { counted = refl; fits = omega arith; sized = refl }

used_page-row : page_get_record used_page 0 ≡ some (row 7)
unfolding page_get_record
used_page-row = refl

wal_append_lem_example :
    ((wal_append shaky 3 wal_insert seats 1 none (some (1 ∷ [])) 1).1.wal.flushed_lsn
      ≡ shaky.wal.flushed_lsn)
    × ((((wal_append shaky 3 wal_insert seats 1 none (some (1 ∷ [])) 1).0 ≡ shaky.wal.next_lsn)
          × ((wal_append shaky 3 wal_insert seats 1 none (some (1 ∷ [])) 1).1.wal.next_lsn
              ≡ (shaky.wal.next_lsn + 1) % u64_mod)
          × ((wal_append shaky 3 wal_insert seats 1 none (some (1 ∷ [])) 1).1.wal.file
              ≡ shaky.wal.file ++ entry_of shaky 3 wal_insert seats 1 none (some (1 ∷ [])) 1 ∷ []))
        ⊎ (((wal_append shaky 3 wal_insert seats 1 none (some (1 ∷ [])) 1).0 ≡ invalid_lsn)
            × ((wal_append shaky 3 wal_insert seats 1 none (some (1 ∷ [])) 1).1.wal.next_lsn
                ≡ shaky.wal.next_lsn)
            × ((piece : WalEntry) × (is_torn piece ≡ true)
                × ((wal_append shaky 3 wal_insert seats 1 none (some (1 ∷ [])) 1).1.wal.file
                    ≡ shaky.wal.file ++ piece ∷ []))))
wal_append_lem_example = wal_append_lem shaky 3 wal_insert seats 1 none (some (1 ∷ [])) 1

table_insert_lem_example :
    Landed row_layout empty_table (row 7) (table_insert row_layout (row 7) empty_table calm)
table_insert_lem_example =
    table_insert_lem row_layout empty_table (row 7) calm empty_table-IsTable (omega arith)

table_find_by_id_lem_example :
    ((table_find_by_id row_layout 1 one_row calm).1 ≡ one_row)
    × (((table_find_by_id row_layout 1 one_row calm).0
          ≡ found_or row_layout not_found (view row_layout one_row 1))
        ⊎ ((fails calm ≡ true) × ((table_find_by_id row_layout 1 one_row calm).0 ≡ err io)))
table_find_by_id_lem_example = table_find_by_id_lem row_layout 1 one_row calm

table_update_lem_example :
    Updated row_layout one_row 1 (row 9) (table_update row_layout 1 (row 9) one_row calm)
table_update_lem_example =
    table_update_lem row_layout 1 (row 9) one_row calm one_row-IsTable (omega arith) refl

table_delete_lem_example : Deleted row_layout one_row 1 (table_delete row_layout 1 one_row calm)
table_delete_lem_example = table_delete_lem row_layout 1 one_row calm one_row-IsTable (omega arith)

table_scan_lem_example :
    (table_scan row_layout (λ r. r.value == 7) 10 one_row calm).0
    ≡ take 10 (
        matches row_layout
          (λ r. r.value == 7)
          (records row_layout (readable row_layout one_row.pages calm)))
table_scan_lem_example = table_scan_lem row_layout (λ r. r.value == 7) 10 one_row calm

table_count_lem_example :
    (table_count row_layout one_row calm).0
    ≡ length (
        matches row_layout
          (λ _. true)
          (records row_layout (readable row_layout one_row.pages calm)))
table_count_lem_example = table_count_lem row_layout one_row calm
