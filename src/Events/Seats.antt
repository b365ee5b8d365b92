-- ===== src/Events/Seats.antt =====
-- The seats that the creation of an event by server/core/event_mgr.c makes.
use event_ticketing_platform.Base.{
  ℕ, zero, suc, ◌+◌, ◌-◌, ◌*◌, ◌/◌, ◌%◌, ◌≤◌, ◌<◌, ◌≡◌, refl, sym, ap, ap₂, ◌∙◌, some, arith, inl,
  inr, ◌⊎◌, ◌==◌, false, Option, Bool-cases,
}
use event_ticketing_platform.Types.{Result, ok, err, u32_mod}
use event_ticketing_platform.Records.{SeatRecord, Images, seat_layout, seat_available}
use event_ticketing_platform.Storage.Table.{Table, table_insert}
use event_ticketing_platform.Storage.Table.Laws.{view, IsTable}
use event_ticketing_platform.Storage.Table.Insertion.{Landed, table_insert_lem}
use event_ticketing_platform.Storage.Wal.{Env}
use event_ticketing_platform.Server.{Server, then_do}
use event_ticketing_platform.Events.{new_seat, ignored, make_seat, make_row, make_rows}
use native.Mathlib.Nat.{div-eq_of_lt-le, mul-add-mod_self_right, mod-eq_of_lt}

module _ {Price : Type 0} (images : Images Price) (event_id seats_per_row : ℕ) where
  -- The seat at the place `k` of the event, counted from 0 along the rows: row A has the first places,
  -- and the seats of a row are numbered from 1.
  abbrev pub seat_at : ℕ → SeatRecord
  seat_at k = record {
    seat_id = 0;
    event_id = event_id;
    row_label = 65 + k / seats_per_row;
    seat_number = k % seats_per_row + 1;
    status = seat_available;
    booked_by = 0;
    is_deleted = false;
  }

  -- `n` insertions, of the seats from the place `k` on.
  unfoldable pub insert_seats : ℕ → ℕ → Table SeatRecord → Env → Table SeatRecord × Env
  insert_seats zero k t env = (t, env)
  insert_seats (suc n) k t env =
      insert_seats n (k + 1) (table_insert (seat_layout images) (seat_at k) t env).1
        (table_insert (seat_layout images) (seat_at k) t env).2

  -- What `n` insertions come to: as many ids are taken, and each shows its seat or what it showed before.
  abbrev pub Lands : ℕ → ℕ → Table SeatRecord → Table SeatRecord → Type 0
  Lands n k t t' =
      IsTable (seat_layout images) t'
      × (t'.next_id ≡ t.next_id + n)
      × ((j : ℕ)
          → j < u32_mod
          → (view (seat_layout images) t' j ≡ view (seat_layout images) t j)
            ⊎ ((t.next_id ≤ j)
                × (j < t.next_id + n)
                × (view (seat_layout images) t' j
                    ≡ some (record (seat_at (k + (j - t.next_id))) { seat_id = j }))))

  after_one :
      (k : ℕ) (t : Table SeatRecord) (o : Result ℕ × Table SeatRecord × Env)
      → Landed (seat_layout images) t (seat_at k) o
      → Lands 1 k t o.1
  after_one k t (out, t', env') ((v, m), inr (e, law)) = (v, m, λ j h. inl (law j h))
  after_one k t (out, t', env') ((v, m), inl (e, law)) = (
    v,
    m,
    λ j h. elim (Bool-cases (j == t.next_id)) [
      | inl here ↦
          let same : j ≡ t.next_id = ground (arith, here) in
          inr (
            omega (arith, same),
            omega (arith, same),
            law j h
                ∙ rw here (
                    ap₂ (λ (i a : ℕ). some (record (seat_at a) { seat_id = i })) (sym same)
                      (omega (arith, same))),
          )
      | inr there ↦ inl (law j h ∙ rw there refl)
    ],
  )

  pub insert_seats-Lands :
      (n k : ℕ) (t : Table SeatRecord) (env : Env)
      → IsTable (seat_layout images) t
      → t.next_id + n < u32_mod
      → Lands n k t (insert_seats n k t env).0
  unfolding insert_seats
  insert_seats-Lands zero k t env v room = (v, omega arith, λ j h. inl refl)
  insert_seats-Lands (suc n) k t env v room =
      let o = table_insert (seat_layout images) (seat_at k) t env in
      let first : Lands 1 k t o.1 =
        after_one k t o
          (table_insert_lem (seat_layout images) t (seat_at k) env v (omega (arith, room))) in
      let rest : Lands n (k + 1) o.1 (insert_seats n (k + 1) o.1 o.2).0 =
        insert_seats-Lands n (k + 1) o.1 o.2 first.0 (omega (arith, first.1, room)) in
      (
        rest.0,
        omega (arith, first.1, rest.1),
        λ j h. joined j o.1.next_id first.1 (first.2 j h) (rest.2 j h),
      )
    where
      joined :
          (j next : ℕ)
          → next ≡ t.next_id + 1
          → {x y z : Option SeatRecord}
          → (y ≡ x)
            ⊎ ((t.next_id ≤ j)
                × (j < t.next_id + 1)
                × (y ≡ some (record (seat_at (k + (j - t.next_id))) { seat_id = j })))
          → (z ≡ y)
            ⊎ ((next ≤ j)
                × (j < next + n)
                × (z ≡ some (record (seat_at (k + 1 + (j - next))) { seat_id = j })))
          → (z ≡ x)
            ⊎ ((t.next_id ≤ j)
                × (j < t.next_id + suc n)
                × (z ≡ some (record (seat_at (k + (j - t.next_id))) { seat_id = j })))
      joined j next m (inl e) (inl f) = inl (f ∙ e)
      joined j next m (inr (h, i, e)) (inl f) = inr (h, omega (arith, i), f ∙ e)
      joined j next m o (inr (h, i, e)) = inr (
        omega (arith, h, m),
        omega (arith, i, m),
        e ∙ ap (λ (a : ℕ). some (record (seat_at a) { seat_id = j })) (omega (arith, h, m)),
      )

  insert_seats-append :
      (m n k : ℕ) (t : Table SeatRecord) (env : Env)
      → insert_seats (m + n) k t env
        ≡ insert_seats n (k + m) (insert_seats m k t env).0 (insert_seats m k t env).1
  unfolding insert_seats
  insert_seats-append zero n k t env = rw (plus_zero k, zero_plus n) refl
    where
      plus_zero : (k : ℕ) → k + 0 ≡ k
      plus_zero k = omega arith

      zero_plus : (n : ℕ) → 0 + n ≡ n
      zero_plus n = omega arith
  insert_seats-append (suc m) n k t env =
      let o = table_insert (seat_layout images) (seat_at k) t env in
      ap (λ (i : ℕ). insert_seats i k t env) suc_plus
      ∙ insert_seats-append m n (k + 1) o.1 o.2
      ∙ ap
          (λ (i : ℕ).
            insert_seats n i (insert_seats m (k + 1) o.1 o.2).0 (insert_seats m (k + 1) o.1 o.2).1)
          (omega arith)
    where
      suc_plus : suc m + n ≡ suc (m + n)
      suc_plus = omega arith

  new_seat-seat_at :
      (row i : ℕ)
      → i < seats_per_row
      → new_seat event_id row (i + 1) ≡ seat_at (row * seats_per_row + i)
  new_seat-seat_at row i h = ap₂ place (sym quotient) (ap (λ (a : ℕ). a + 1) (sym remainder))
    where
      place : ℕ → ℕ → SeatRecord
      place a b = record {
        seat_id = 0;
        event_id = event_id;
        row_label = 65 + a;
        seat_number = b;
        status = seat_available;
        booked_by = 0;
        is_deleted = false;
      }

      quotient : (row * seats_per_row + i) / seats_per_row ≡ row
      quotient = div-eq_of_lt-le seats_per_row (omega arith) (ground (arith, h))

      remainder : (row * seats_per_row + i) % seats_per_row ≡ i
      remainder = mul-add-mod_self_right row seats_per_row i ∙ mod-eq_of_lt h

  abbrev pub with_seats : Server Price → Table SeatRecord × Env → Server Price
  with_seats s o = record s { seats_table = o.0; env = o.1 }

  ignored_lem : {A : Type 0} (o : Result A) (s : Server Price) → ignored (o, s) ≡ (ok tt, s)
  ignored_lem (ok a) s = refl
  ignored_lem (err e) s = refl

  make_row_lem :
      (row left i : ℕ) (s : Server Price)
      → i + left ≤ seats_per_row
      → make_row images event_id row (i + 1) left s
        ≡ (ok tt, with_seats s (insert_seats left (row * seats_per_row + i) s.seats_table s.env))
  unfolding make_row make_seat insert_seats
  make_row_lem row zero i s h = refl
  make_row_lem row (suc left) i s h =
      let o =
        table_insert (seat_layout images) (seat_at (row * seats_per_row + i)) s.seats_table s.env in
      ap
        (λ (seat : SeatRecord).
          then_do (make_seat_record seat s) (λ _. make_row images event_id row (i + 1 + 1) left))
        (new_seat-seat_at row i (omega (arith, h)))
      ∙ ap
          (λ (r : Result (Unit {0}) × Server Price).
            then_do r (λ _. make_row images event_id row (i + 1 + 1) left))
          (ignored_lem o.0 (with_seats s (o.1, o.2)))
      ∙ make_row_lem row left (i + 1) (with_seats s (o.1, o.2)) (omega (arith, h))
      ∙ ap (λ (a : ℕ). (ok tt, with_seats s (insert_seats left a o.1 o.2))) (omega arith)
    where
      make_seat_record : SeatRecord → Server Price → Result (Unit {0}) × Server Price
      make_seat_record seat s =
          let o = table_insert (seat_layout images) seat s.seats_table s.env in
          ignored (o.0, with_seats s (o.1, o.2))

  pub make_rows_lem :
      (left row : ℕ) (s : Server Price)
      → make_rows images event_id seats_per_row row left s ≡ (
        ok tt,
        with_seats s
            (insert_seats (left * seats_per_row) (row * seats_per_row) s.seats_table s.env),
      )
  unfolding make_rows insert_seats
  make_rows_lem zero row s = rw no_seats refl
    where
      no_seats : 0 * seats_per_row ≡ 0
      no_seats = ground arith
  make_rows_lem (suc left) row s =
      let o = insert_seats seats_per_row (row * seats_per_row + 0) s.seats_table s.env in
      ap
        (λ (r : Result (Unit {0}) × Server Price).
          then_do r (λ _. make_rows images event_id seats_per_row (row + 1) left))
        (make_row_lem row seats_per_row 0 s (omega arith))
      ∙ make_rows_lem left (row + 1) (with_seats s o)
      ∙ ap (λ (r : Table SeatRecord × Env). (ok tt, with_seats s r)) whole
    where
      first : ℕ
      first = row * seats_per_row

      starts : first + 0 ≡ first
      starts = omega arith

      ends : first + seats_per_row ≡ (row + 1) * seats_per_row
      ends = ground arith

      more : suc left * seats_per_row ≡ seats_per_row + left * seats_per_row
      more = ground arith

      whole :
          insert_seats
            (left * seats_per_row)
            ((row + 1) * seats_per_row)
            (insert_seats seats_per_row (first + 0) s.seats_table s.env).0
            (insert_seats seats_per_row (first + 0) s.seats_table s.env).1
          ≡ insert_seats (suc left * seats_per_row) first s.seats_table s.env
      whole =
          rw (starts, more)
            (ap
                (λ (i : ℕ).
                  insert_seats (left * seats_per_row) i
                    (insert_seats seats_per_row first s.seats_table s.env).0
                    (insert_seats seats_per_row first s.seats_table s.env).1)
                (sym ends)
              ∙ sym (
                  insert_seats-append seats_per_row (left * seats_per_row) first s.seats_table
                    s.env))
