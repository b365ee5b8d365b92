-- ===== src/Booking.antt =====
-- server/core/booking_engine.c: which seats a booking asks for, and in which order it locks them.
pub mod Order
pub mod Book
pub mod Cancel
mod Tests
use event_ticketing_platform.Base.{
  ℕ, zero, suc, ◌+◌, Bool, true, false, ◌||◌, List, [], ◌∷◌, ltb, leb, ◌==◌, if◌then◌else◌, length,
}

-- MAX_SEATS_PER_BOOKING.
abbrev pub max_seats_per_booking : ℕ
max_seats_per_booking = 10

unfoldable pub among : ℕ → List ℕ → Bool
among id [] = false
among id (x ∷ xs) = id == x || among id xs

-- The loop over the ids: each is not 0 and differs from those before it, which `seen` holds.
unfoldable pub check_seat_ids : List ℕ → List ℕ → Bool
unfolding among
check_seat_ids seen [] = true
check_seat_ids seen (x ∷ xs) =
    let rest = check_seat_ids (x ∷ seen) xs in if x == 0 || among x seen then false else rest

-- The tests at the head of `booking_book_seats`.
unfoldable pub valid_request : List ℕ → Bool
unfolding check_seat_ids
valid_request seat_ids =
    if length seat_ids == 0
    then false
    else if ltb max_seats_per_booking (length seat_ids)
    then false
    else check_seat_ids [] seat_ids

-- The inner loop of the sort, for the place `i` that holds `x`: the elements behind it, one by one,
-- change places with it when they are smaller. Delivers what `i` then holds and what stands behind.
unfoldable pub sweep : ℕ → List ℕ → ℕ × List ℕ
sweep x [] = (x, [])
sweep x (y ∷ ys) =
    let swapped = sweep y ys in
    let kept = sweep x ys in if ltb y x then (swapped.0, x ∷ swapped.1) else (kept.0, y ∷ kept.1)

-- The outer loop, one round for each place.
unfoldable pub sort_loop : ℕ → List ℕ → List ℕ
unfolding sweep
sort_loop zero ids = ids
sort_loop (suc n) [] = []
sort_loop (suc n) (x ∷ xs) = (sweep x xs).0 ∷ sort_loop n (sweep x xs).1

unfoldable pub sort_seat_ids : List ℕ → List ℕ
unfolding sort_loop
sort_seat_ids ids = sort_loop (length ids) ids
