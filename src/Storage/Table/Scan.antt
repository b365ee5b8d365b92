-- ===== src/Storage/Table/Scan.antt =====
-- `table_scan` and `table_count` of server/storage/table.c against a filter of all the records.
use event_ticketing_platform.Base.{
  ℕ, zero, suc, ==_iff, ◌-◌, ◌≡◌, refl, sym, ◌∙◌, ap, inl, inr, Bool, true, not, ◌&&◌, Bool-cases,
  List, [], ◌∷◌, ◌++◌, arith, ◌==◌, if◌then◌else◌, length, length-append, take,
}
use event_ticketing_platform.Storage.Page.{Page}
use event_ticketing_platform.Storage.Wal.{Env, fails, after_call}
use event_ticketing_platform.Storage.Table.{
  Layout, Table, scan_slots, scan_pages, table_scan, count_slots, count_pages, table_count,
}

module _ {R : Type 0} (L : Layout R) where
  -- The live records among `rs` that match.
  unfoldable pub matches : (R → Bool) → List R → List R
  matches filter [] = []
  matches filter (r ∷ rs) =
      let rest = matches filter rs in if not (L.deleted r) && filter r then r ∷ rest else rest

  -- The records of the pages, in the order of pages and slots.
  unfoldable pub records : List (Page R) → List R
  records [] = []
  records (page ∷ pages) = take page.record_count page.slots ++ records pages

  -- The pages that can be fetched, one call after the other.
  unfoldable pub readable : List (Page R) → Env → List (Page R)
  readable [] env = []
  readable (page ∷ pages) env =
      let rest = readable pages (after_call env) in if fails env then rest else page ∷ rest

  matches-append :
      (filter : R → Bool) (xs ys : List R)
      → matches filter (xs ++ ys) ≡ matches filter xs ++ matches filter ys
  unfolding matches
  matches-append filter [] ys = refl
  matches-append filter (x ∷ xs) ys = ground (arith, matches-append filter xs ys)

  take-nil : (n : ℕ) → take {A = R} n [] ≡ []
  take-nil zero = refl
  take-nil (suc n) = refl

  take-cons :
      (n : ℕ) (x : R) (xs : List R) → take n (x ∷ xs) ≡ (if n == 0 then [] else x ∷ take (n - 1) xs)
  take-cons zero x xs = ground arith
  take-cons (suc n) x xs = ground arith

  scan_slots_lem :
      (filter : R → Bool) (rs : List R) (room : ℕ)
      → scan_slots L filter rs room ≡ take room (matches filter rs)
  unfolding scan_slots matches
  scan_slots_lem filter [] room = sym (take-nil room)
  scan_slots_lem filter (r ∷ rs) room = elim (Bool-cases (room == 0)) [
    | inl z ↦ rw ((==_iff room 0).0 z) refl
    | inr s ↦ elim (Bool-cases (not (L.deleted r) && filter r)) [
      | inl w ↦
          rw (s, w)
            (sym (
              take-cons room r (matches filter rs)
              ∙ rw s (ap (λ (m : List R). r ∷ m) (sym (scan_slots_lem filter rs (room - 1))))))
      | inr w ↦ rw (s, w) (scan_slots_lem filter rs room)
    ]
  ]

  suc_minus : (n k : ℕ) → suc n - suc k ≡ n - k
  suc_minus n k = omega arith

  minus_zero : (n : ℕ) → n - 0 ≡ n
  minus_zero n = omega arith

  take_split :
      (n : ℕ) (xs ys : List R) → take n (xs ++ ys) ≡ take n xs ++ take (n - length (take n xs)) ys
  take_split zero xs ys = refl
  take_split (suc n) [] ys = rw (minus_zero (suc n)) refl
  take_split (suc n) (x ∷ xs) ys =
      ap (λ (m : List R). x ∷ m) (take_split n xs ys) ∙ rw (suc_minus n (length (take n xs))) refl

  -- `table_scan` delivers, in the order of pages and slots, the first `max_results` of the live records
  -- that match, on the pages that can be fetched; the table is not changed.
  pub table_scan_lem :
      (filter : R → Bool) (max_results : ℕ) (t : Table R) (env : Env)
      → (table_scan L filter max_results t env).0
        ≡ take max_results (matches filter (records (readable t.pages env)))
  unfolding table_scan matches records readable
  table_scan_lem filter max_results t env = pages_lem t.pages max_results env
    where
      pages_lem :
          (pages : List (Page R)) (room : ℕ) (env : Env)
          → (scan_pages L filter pages room env).0
            ≡ take room (matches filter (records (readable pages env)))
      pages_lem [] room env = sym (take-nil room)
      pages_lem (page ∷ pages) room env = elim (Bool-cases (room == 0)) [
        | inl z ↦ rw ((==_iff room 0).0 z) refl
        | inr s ↦ elim (Bool-cases (fails env)) [
          | inl f ↦ rw (s, f) (pages_lem pages room (after_call env))
          | inr f ↦
              rw (s, f)
                (rw (scan_slots_lem filter here room) (
                  ap (λ (m : List R). take room (matches filter here) ++ m)
                    (pages_lem pages (room - length (take room (matches filter here)))
                      (after_call env))
                  ∙ sym (take_split room (matches filter here) _)
                  ∙ ap (take room) (sym (matches-append filter here _))))
        ]
      ]
        where
          here : List R
          here = take page.record_count page.slots

  -- `table_count` delivers the number of the live records on the pages that can be fetched.
  pub table_count_lem :
      (t : Table R) (env : Env)
      → (table_count L t env).0 ≡ length (matches (λ _. true) (records (readable t.pages env)))
  unfolding table_count matches records readable
  table_count_lem t env = pages_lem t.pages env
    where
      slots_lem : (rs : List R) → count_slots L rs ≡ length (matches (λ _. true) rs)
      slots_lem [] = refl
      slots_lem (r ∷ rs) = ground (arith, slots_lem rs)

      pages_lem :
          (pages : List (Page R)) (env : Env)
          → (count_pages L pages env).0
            ≡ length (matches (λ _. true) (records (readable pages env)))
      pages_lem [] env = refl
      pages_lem (page ∷ pages) env = ground (
        arith,
        pages_lem pages (after_call env),
        slots_lem (take page.record_count page.slots),
        matches-append (λ _. true) (take page.record_count page.slots)
            (records (readable pages (after_call env))),
        length-append (matches (λ _. true) (take page.record_count page.slots))
            (matches (λ _. true) (records (readable pages (after_call env)))),
      )
