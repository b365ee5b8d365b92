-- ===== src/Booking/Order.antt =====
-- The order that server/core/booking_engine.c gives to the seats of a booking before it locks them.
use event_ticketing_platform.Base.{
  ℕ, zero, suc, ◌+◌, ◌≤◌, ◌<◌, ◌≡◌, ◌≢◌, refl, true, false, List, [], ◌∷◌, arith, ◌==◌,
  if◌then◌else◌, length,
}
use event_ticketing_platform.Booking.{
  among, check_seat_ids, valid_request, sweep, sort_loop, sort_seat_ids,
}

-- How often an id occurs.
unfoldable pub count : ℕ → List ℕ → ℕ
count k [] = 0
count k (x ∷ xs) = (if k == x then 1 else 0) + count k xs

-- Each id is below the ids behind it.
abbrev pub Ascending : List ℕ → Type 0
Ascending [] = Unit {0}
Ascending (x ∷ xs) = ((k : ℕ) → 0 < count k xs → x < k) × Ascending xs

abbrev Rising : List ℕ → Type 0
Rising [] = Unit {0}
Rising (x ∷ xs) = ((k : ℕ) → 0 < count k xs → x ≤ k) × Rising xs

count-sweep :
    (x : ℕ) (ys : List ℕ) (k : ℕ) → count k ((sweep x ys).0 ∷ (sweep x ys).1) ≡ count k (x ∷ ys)
unfolding sweep count
count-sweep x [] k = refl
count-sweep x (y ∷ ys) k = ground (arith, count-sweep x ys k, count-sweep y ys k)

sweep-least :
    (x : ℕ) (ys : List ℕ) (k : ℕ)
    → ((sweep x ys).0 ≤ x) × (0 < count k (sweep x ys).1 → (sweep x ys).0 ≤ k)
unfolding sweep count
sweep-least x [] k = (omega arith, λ h. absurd (omega arith))
sweep-least x (y ∷ ys) k = ground (arith, sweep-least x ys k, sweep-least y ys k)

pub length-sweep : (x : ℕ) (ys : List ℕ) → length (sweep x ys).1 ≡ length ys
unfolding sweep
length-sweep x [] = refl
length-sweep x (y ∷ ys) = ground (arith, length-sweep x ys, length-sweep y ys)

count-sort_loop : (n : ℕ) (ids : List ℕ) (k : ℕ) → count k (sort_loop n ids) ≡ count k ids
unfolding sort_loop count
count-sort_loop zero ids k = refl
count-sort_loop (suc n) [] k = refl
count-sort_loop (suc n) (x ∷ xs) k =
    ground (arith, count-sort_loop n (sweep x xs).1 k, count-sweep x xs k)

sort_loop-Rising : (n : ℕ) (ids : List ℕ) → length ids ≤ n → Rising (sort_loop n ids)
unfolding sort_loop
sort_loop-Rising zero [] h = tt
sort_loop-Rising zero (x ∷ xs) h = absurd (omega arith)
sort_loop-Rising (suc n) [] h = tt
sort_loop-Rising (suc n) (x ∷ xs) h = (
  λ k m. (sweep-least x xs k).1 (omega (arith, m, count-sort_loop n (sweep x xs).1 k)),
  sort_loop-Rising n (sweep x xs).1 (omega (arith, h, length-sweep x xs)),
)

pub among-count : (k : ℕ) (xs : List ℕ) → among k xs ≡ false → count k xs ≡ 0
unfolding among count
among-count k [] e = refl
among-count k (x ∷ xs) e = ground (arith, among-count k xs)

-- The ids that pass the check are different, not 0, and not seen before.
check_seat_ids-once :
    (seen ids : List ℕ) (k : ℕ)
    → check_seat_ids seen ids ≡ true
    → (count k ids ≤ 1) × (0 < count k ids → (count k seen ≡ 0) × (k ≢ 0))
unfolding check_seat_ids count
check_seat_ids-once seen [] k e = (omega arith, λ h. absurd (omega arith))
check_seat_ids-once seen (x ∷ xs) k e =
    ground (arith, check_seat_ids-once (x ∷ seen) xs k, among-count x seen)

Rising-Ascending : (ids : List ℕ) → ((k : ℕ) → count k ids ≤ 1) → Rising ids → Ascending ids
unfolding count
Rising-Ascending [] once r = tt
Rising-Ascending (x ∷ xs) once (a, r) = (
  λ k h. ground (arith, a k h, once x, once k),
  Rising-Ascending xs (λ k. ground (arith, once k)) r,
)

-- The ids of a request that passes the tests at the head of `booking_book_seats` are sorted into
-- strictly ascending order, and the sort keeps how often each id occurs.
pub sort_seat_ids-Ascending :
    (ids : List ℕ)
    → valid_request ids ≡ true
    → Ascending (sort_seat_ids ids) × ((k : ℕ) → count k (sort_seat_ids ids) ≡ count k ids)
unfolding valid_request sort_seat_ids
sort_seat_ids-Ascending ids e =
    let checked : check_seat_ids [] ids ≡ true = ground (arith, e) in
    (
      Rising-Ascending (sort_seat_ids ids)
          (λ k.
            ground
              (arith, count-sort_loop (length ids) ids k, check_seat_ids-once [] ids k checked))
          (sort_loop-Rising (length ids) ids (omega arith)),
      λ k. count-sort_loop (length ids) ids k,
    )
