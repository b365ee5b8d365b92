-- ===== src/Booking/Book/Locking.antt =====
-- How `booking_book_seats` of server/core/booking_engine.c begins its transaction and locks the seats:
-- no table changes on the way.
use event_ticketing_platform.Base.{
  ℕ, zero, suc, ◌<◌, ◌≡◌, refl, ◌∙◌, List, [], ◌∷◌, arith, Bool, true, false, not, inl, inr,
  Bool-cases, ltb, ◌==◌, if◌then◌else◌, length,
}
use event_ticketing_platform.Types.{
  generic, invalid_txn_id, Result, ok, err, u32_mod, TableId, seats, lock_exclusive,
}
use event_ticketing_platform.Records.{Images}
use event_ticketing_platform.Storage.Wal.{fails}
use event_ticketing_platform.Txn.Manager.{LockReply, locked, refused, asleep, txn_begin, txn_lock}
use event_ticketing_platform.Server.{Server, return, settled, acquire, begin}
use event_ticketing_platform.Server.Rules.{Ensures, Ensures-then, Ensures-mono}
use event_ticketing_platform.Booking.{sweep, sort_loop, sort_seat_ids}
use event_ticketing_platform.Booking.Order.{length-sweep}
use event_ticketing_platform.Booking.Book.{lock_seats}
use event_ticketing_platform.Booking.Book.Check.{tables}
use event_ticketing_platform.Booking.Book.Writes.{AllSmall}

length-sort_loop : (n : ℕ) (ids : List ℕ) → length (sort_loop n ids) ≡ length ids
unfolding sort_loop
length-sort_loop zero ids = refl
length-sort_loop (suc n) [] = refl
length-sort_loop (suc n) (x ∷ xs) =
    omega (arith, length-sort_loop n (sweep x xs).1, length-sweep x xs)

pub length-sort_seat_ids : (ids : List ℕ) → length (sort_seat_ids ids) ≡ length ids
unfolding sort_seat_ids
length-sort_seat_ids ids = length-sort_loop (length ids) ids

-- An action that leaves every table as it is.
abbrev pub Reads : {P A : Type 0} → Server P → Result A × Server P → Type 0
Reads s (r, s') = tables s' ≡ tables s

module _ {Price : Type 0} (images : Images Price) where
  AllSmall-sweep :
      (x : ℕ) (ys : List ℕ)
      → x < u32_mod
      → AllSmall images ys
      → ((sweep x ys).0 < u32_mod) × AllSmall images (sweep x ys).1
  unfolding sweep
  AllSmall-sweep x [] h k = (h, tt)
  AllSmall-sweep x (y ∷ ys) h (a, k) = elim (Bool-cases (ltb y x)) [
    | inl b ↦ rw b ((AllSmall-sweep y ys a k).0, (h, (AllSmall-sweep y ys a k).1))
    | inr b ↦ rw b ((AllSmall-sweep x ys h k).0, (a, (AllSmall-sweep x ys h k).1))
  ]

  AllSmall-sort_loop :
      (n : ℕ) (ids : List ℕ) → AllSmall images ids → AllSmall images (sort_loop n ids)
  unfolding sort_loop
  AllSmall-sort_loop zero ids h = h
  AllSmall-sort_loop (suc n) [] h = tt
  AllSmall-sort_loop (suc n) (x ∷ xs) (a, h) =
      let swept = AllSmall-sweep x xs a h in (swept.0, AllSmall-sort_loop n (sweep x xs).1 swept.1)

  pub AllSmall-sort_seat_ids :
      (ids : List ℕ) → AllSmall images ids → AllSmall images (sort_seat_ids ids)
  unfolding sort_seat_ids
  AllSmall-sort_seat_ids ids = AllSmall-sort_loop (length ids) ids

  pub acquire-Reads :
      (txn_id : ℕ) (table : TableId) (id : ℕ) (s : Server Price)
      → Reads s (acquire txn_id table id s)
  acquire-Reads txn_id table id s =
      by_reply (txn_lock s.txn_mgr s.lock_mgr txn_id table id lock_exclusive (not (fails s.env))).0
        _ refl
    where
      by_reply :
          (r : LockReply) (s1 : Server Price) → tables s1 ≡ tables s → Reads s (settled txn_id r s1)
      by_reply locked s1 e = e
      by_reply refused s1 e = e
      by_reply asleep s1 e = e

  pub Reads-Ensures :
      {A : Type 0} (s : Server Price) (o : Result A × Server Price)
      → Reads s o
      → Ensures o (λ _ s'. tables s' ≡ tables s) (λ e s'. tables s' ≡ tables s)
  Reads-Ensures s (ok a, s') e = e
  Reads-Ensures s (err c, s') e = e

  pub lock_seats-Ensures :
      (txn_id : ℕ) (ids : List ℕ) (s : Server Price)
      → Ensures
          (lock_seats txn_id ids s)
          (λ _ s'. tables s' ≡ tables s)
          (λ e s'. tables s' ≡ tables s)
  unfolding lock_seats
  lock_seats-Ensures txn_id [] s = refl
  lock_seats-Ensures txn_id (id ∷ ids) s =
      Ensures-then (acquire txn_id seats id s)
        (λ held. if held then lock_seats txn_id ids else return false)
        (λ _ s'. tables s' ≡ tables s) (λ _ s'. tables s' ≡ tables s) (λ e s'. tables s' ≡ tables s)
        (Reads-Ensures s (acquire txn_id seats id s) (acquire-Reads txn_id seats id s))
        (rest (lock_seats-Ensures txn_id ids))
    where
      rest :
          ((s1 : Server Price)
            → Ensures
                (lock_seats txn_id ids s1)
                (λ _ s'. tables s' ≡ tables s1)
                (λ e s'. tables s' ≡ tables s1))
          → (held : Bool) (s1 : Server Price) → tables s1 ≡ tables s
          → Ensures
              ((if held then lock_seats txn_id ids else return false) s1)
              (λ _ s'. tables s' ≡ tables s)
              (λ e s'. tables s' ≡ tables s)
      rest ih true s1 e =
          Ensures-mono (lock_seats txn_id ids s1) (λ _ s'. tables s' ≡ tables s1)
            (λ _ s'. tables s' ≡ tables s) (λ c s'. tables s' ≡ tables s1)
            (λ c s'. tables s' ≡ tables s) (ih s1) (λ _ s' h. h ∙ e) (λ c s' h. h ∙ e)
      rest ih false s1 e = e

  pub begin-Ensures :
      (s : Server Price)
      → Ensures (begin s) (λ _ s'. tables s' ≡ tables s) (λ e s'. tables s' ≡ tables s)
  begin-Ensures s = by_id ((txn_begin s.txn_mgr).0 == invalid_txn_id)
    where
      by_id :
          (b : Bool)
          → Ensures
              (if b then err generic else ok (txn_begin s.txn_mgr).0, (begin s).1)
              (λ _ s'. tables s' ≡ tables s)
              (λ e s'. tables s' ≡ tables s)
      by_id true = refl
      by_id false = refl
