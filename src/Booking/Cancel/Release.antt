-- ===== src/Booking/Cancel/Release.antt =====
-- The seats that `booking_cancel` of server/core/booking_engine.c frees.
use event_ticketing_platform.Base.{
  ℕ, ◌<◌, ◌≡◌, refl, sym, ap, ◌∙◌, none, some, List, [], ◌∷◌, arith, Bool, true, false, Bool-cases,
  inl, inr, ◌⊎◌, ◌==◌, not, if◌then◌else◌,
}
use event_ticketing_platform.Types.{
  TableId, lock_exclusive, EtpError, Result, ok, err, io, seats, u32_mod,
}
use event_ticketing_platform.Records.{SeatRecord, Images, seat_layout}
use event_ticketing_platform.Storage.Table.{Table, table_find_by_id}
use event_ticketing_platform.Storage.Table.Laws.{view, view-live, table_find_by_id_lem}
use event_ticketing_platform.Storage.Wal.{Env, fails}
use event_ticketing_platform.Txn.Manager.{LockReply, locked, refused, asleep, txn_lock}
use event_ticketing_platform.Server.Faults.{
  Fewer, Fewer-after_call, fails-faulty, Fewer-find, Quiet-update,
}
use event_ticketing_platform.Server.{Server, ◌>>◌, return, abort_on_error, acquire, settled}
use event_ticketing_platform.Server.Rules.{Ensures, Ensures-then, Ensures-mono}
use event_ticketing_platform.Server.Stores.{find-cases, update-cases}
use event_ticketing_platform.Booking.{among}
use event_ticketing_platform.Booking.Book.Check.{tables}
use event_ticketing_platform.Booking.Book.Writes.{IsSound, AllSmall}
use event_ticketing_platform.Booking.Book.Laws.{IsSound-tables}
use event_ticketing_platform.Booking.Cancel.{freed, release_found, release_seat, release_seats}
use event_ticketing_platform.Booking.Cancel.Freed.{
  freed_seat, Released, Released-tables, Released-then, Released-trans, release_one,
}

module _ {Price : Type 0} (images : Images Price) where
  -- A seat that is not found does not exist, or its page could not be read.
  missing_seat :
      (id : ℕ) (s : Server Price) (env : Env)
      → IsSound images s
      → (view (seat_layout images) s.seats_table id ≡ none) ⊎ (fails s.env ≡ true)
      → Released images true (id ∷ []) s (record s { env = env })
  unfolding among
  missing_seat id s env v why = record {
    sound = IsSound-tables images s _ refl v;
    same_users = refl;
    same_events = refl;
    same_bookings = refl;
    same_booking_seats = refl;
    seats = λ j k. elim (Bool-cases (j == id)) [
      | inl h ↦ elim why [
        | inl gone ↦
            let same : j ≡ id = ground (arith, h) in
            inr (rw h refl, rw same (gone ∙ sym (ap (freed_seat images) gone)))
        | inr f ↦ inl (refl, inr (inl (fails-faulty s.env f)))
      ]
      | inr h ↦ inl (refl, inl (rw h refl))
    ];
  }

  missed :
      (id : ℕ) (t : Table SeatRecord) (env : Env) (e : EtpError)
      → (table_find_by_id (seat_layout images) id t env).0 ≡ err e
      → (view (seat_layout images) t id ≡ none) ⊎ (fails env ≡ true)
  missed id t env e h = ground (arith, h, table_find_by_id_lem (seat_layout images) id t env)

  -- What a call on the seats delivers, and that it brings no new fault.
  abbrev Quiets : {A : Type 0} → Server Price → Result A × Server Price → Type 0
  Quiets s o = Fewer s.env o.1.env

  abbrev Frees : ℕ → Server Price → Result (Unit {0}) × Server Price → Type 0
  Frees id s o =
      Ensures o (λ _ s'. Released images true (id ∷ []) s s' × Fewer s.env s'.env)
        (λ e s'. IsSound images s')

  release_found-Frees :
      (txn_id id : ℕ) (s : Server Price) (seat : SeatRecord) (env : Env)
      → IsSound images s
      → id < u32_mod
      → view (seat_layout images) s.seats_table id ≡ some seat
      → Fewer s.env env
      → Frees id s (release_found images txn_id id (ok seat, record s { env = env }))
  unfolding release_found
  release_found-Frees txn_id id s seat env v small found q =
      let keyed = view-live (seat_layout images) s.seats_table id seat v.seats small found in
      update-cases (seat_layout images) (λ t env'. record s { seats_table = t; env = env' })
        s.seats_table env id (freed images seat)
        (λ o. Fewer env o.1.env → Frees id s (abort_on_error txn_id (λ _. io) o)) v.seats small
        keyed.0
        (λ t env' law fewer.
          (release_one images s id seat t env env' v keyed.1 found law, λ x. q (fewer x)))
        (λ c env' fewer. IsSound-tables images s _ refl v)
        (Quiet-update (seat_layout images) id (freed images seat) s.seats_table env)

  release_seat-Ensures :
      (txn_id id : ℕ) (s : Server Price)
      → IsSound images s
      → id < u32_mod
      → Frees id s (release_seat images txn_id id s)
  unfolding release_seat release_found
  release_seat-Ensures txn_id id s v small =
      find-cases (seat_layout images) (λ t env. record s { seats_table = t; env = env })
        s.seats_table s.env id
        (λ o.
          Fewer s.env o.1.env
          → ((e : EtpError)
              → o.0 ≡ err e
              → (view (seat_layout images) s.seats_table id ≡ none) ⊎ (fails s.env ≡ true))
          → Frees id s (release_found images txn_id id o))
        (λ seat env found fewer _. release_found-Frees txn_id id s seat env v small found fewer)
        (λ c env fewer why. (missing_seat id s env v (why c refl), fewer))
        (Fewer-find (seat_layout images) id s.seats_table s.env) (missed id s.seats_table s.env)

  pub acquire-Fewer :
      (txn_id : ℕ) (table : TableId) (id : ℕ) (s : Server Price)
      → Ensures
          (acquire txn_id table id s)
          (λ _ s'. (tables s' ≡ tables s) × Fewer s.env s'.env)
          (λ e s'. tables s' ≡ tables s)
  acquire-Fewer txn_id table id s =
      by_reply (txn_lock s.txn_mgr s.lock_mgr txn_id table id lock_exclusive (not (fails s.env))).0
        _ refl (Fewer-after_call s.env)
    where
      by_reply :
          (r : LockReply) (s1 : Server Price)
          → tables s1 ≡ tables s
          → Fewer s.env s1.env
          → Ensures
              (settled txn_id r s1)
              (λ _ s'. (tables s' ≡ tables s) × Fewer s.env s'.env)
              (λ e s'. tables s' ≡ tables s)
      by_reply locked s1 e q = (e, q)
      by_reply refused s1 e q = e
      by_reply asleep s1 e q = (e, q)

  -- The loop over the seats frees every seat of the list that it can read, unless it has to wait.
  pub release_seats-Ensures :
      (txn_id : ℕ) (ids : List ℕ) (s : Server Price)
      → IsSound images s
      → AllSmall images ids
      → Ensures
          (release_seats images txn_id ids s)
          (λ held s'. Released images held ids s s')
          (λ e s'. IsSound images s')
  unfolding release_seats among
  release_seats-Ensures txn_id [] s v small =
      Released-tables images true [] s s v refl (λ j. inl refl)
  release_seats-Ensures txn_id (id ∷ ids) s v (a, small) =
      Ensures-then (acquire txn_id seats id s)
        (λ held.
          if held
          then (release_seat images txn_id id >> release_seats images txn_id ids)
          else return false)
        (λ _ s'. (tables s' ≡ tables s) × Fewer s.env s'.env)
        (λ held s'. Released images held (id ∷ ids) s s') (λ e s'. IsSound images s')
        (Ensures-mono (acquire txn_id seats id s)
          (λ _ s'. (tables s' ≡ tables s) × Fewer s.env s'.env)
          (λ _ s'. (tables s' ≡ tables s) × Fewer s.env s'.env) (λ e s'. tables s' ≡ tables s)
          (λ e s'. IsSound images s') (acquire-Fewer txn_id seats id s) (λ _ s' h. h)
          (λ e s' h. IsSound-tables images s s' h v))
        (λ held s1 e. rest (release_seats-Ensures txn_id ids) held s1 e.0 e.1)
    where
      rest :
          ((s1 : Server Price)
            → IsSound images s1
            → AllSmall images ids
            → Ensures
                (release_seats images txn_id ids s1)
                (λ held s'. Released images held ids s1 s')
                (λ e s'. IsSound images s'))
          → (held : Bool) (s1 : Server Price) → tables s1 ≡ tables s
          → Fewer s.env s1.env
          → Ensures
              ((if held
                  then (release_seat images txn_id id >> release_seats images txn_id ids)
                  else return false)
                s1)
              (λ held s'. Released images held (id ∷ ids) s s')
              (λ e s'. IsSound images s')
      rest ih false s1 e q = Released-tables images false (id ∷ ids) s s1 v e (λ j. inr (inr refl))
      rest ih true s1 e q =
          Ensures-then (release_seat images txn_id id s1) (λ _. release_seats images txn_id ids)
            (λ _ s2. Released images true (id ∷ []) s1 s2 × Fewer s1.env s2.env)
            (λ held s'. Released images held (id ∷ ids) s s') (λ e s'. IsSound images s')
            (release_seat-Ensures txn_id id s1 (IsSound-tables images s s1 e v) a)
            (λ _ s2 r.
              Ensures-mono (release_seats images txn_id ids s2)
                (λ held s'. Released images held ids s2 s')
                (λ held s'. Released images held (id ∷ ids) s s') (λ e s'. IsSound images s')
                (λ e s'. IsSound images s') (ih s2 r.0.sound small)
                (λ held s' h.
                  Released-trans images held (id ∷ ids) s s1 s' e q
                    (Released-then images held id ids s1 s2 s' r.0 r.1 h))
                (λ c s' h. h))
