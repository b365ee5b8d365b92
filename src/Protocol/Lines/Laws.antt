-- ===== src/Protocol/Lines/Laws.antt =====
-- What arrives on a client's connection, by `send_all` and `read_command_line` of server/main.c.
use event_ticketing_platform.Base.{
  ℕ, zero, suc, ◌+◌, ◌≤◌, ◌<◌, ◌≡◌, ◌↔◌, refl, sym, ap, ◌∙◌, Bool, true, false, ◌||◌, Bool-cases,
  inl, inr, ◌⊎◌, some, List, [], ◌∷◌, ◌++◌, arith, ltb, ◌==◌, if◌then◌else◌, length, length-append,
  take, drop,
}
use event_ticketing_platform.Protocol.Lines.{
  ReadAnswer, interrupted, byte, line, too_long, read_loop, read_command_line, WriteAnswer, retry,
  fails, wrote, send_all,
}

-- The answers deliver the bytes and a line feed, with any number of interrupted calls between them.
pub data Delivers : List ℕ → List ReadAnswer → Type 0 where
  over : {rest : List ReadAnswer} → Delivers [] (byte 10 ∷ rest)
  again :
      {cs : List ℕ} {answers : List ReadAnswer}
      → Delivers cs answers
      → Delivers cs (interrupted ∷ answers)
  one :
      {cs : List ℕ} {answers : List ReadAnswer} (c : ℕ)
      → Delivers cs answers
      → Delivers (c ∷ cs) (byte c ∷ answers)

-- No byte is a line feed.
abbrev pub NoFeed : List ℕ → Type 0
NoFeed [] = Unit {0}
NoFeed (c ∷ cs) = ((c == 10) ≡ false) × NoFeed cs

abbrev pub has_zero : List ℕ → Bool
has_zero [] = false
has_zero (c ∷ cs) = let rest = has_zero cs in c == 0 || rest

append_assoc : (xs ys zs : List ℕ) → (xs ++ ys) ++ zs ≡ xs ++ (ys ++ zs)
append_assoc [] ys zs = refl
append_assoc (x ∷ xs) ys zs = ap (λ (l : List ℕ). x ∷ l) (append_assoc xs ys zs)

append_nil : (xs : List ℕ) → xs ++ [] ≡ xs
append_nil [] = refl
append_nil (x ∷ xs) = ap (λ (l : List ℕ). x ∷ l) (append_nil xs)

-- Once the flag is up the line is too long.
lost_line :
    (capacity : ℕ) (cs used : List ℕ) (answers : List ReadAnswer)
    → Delivers cs answers
    → NoFeed cs
    → read_loop capacity answers used true ≡ some too_long
unfolding read_loop
lost_line capacity [] used answers (again d) h = lost_line capacity [] used _ d h
lost_line capacity [] used answers over h = refl
lost_line capacity (c ∷ cs) used answers (again d) h = lost_line capacity (c ∷ cs) used _ d h
lost_line capacity (c ∷ cs) used answers (one _ d) (n, h) =
    rw n (elim (Bool-cases (ltb (length used + 1) capacity)) [
      | inl k ↦ rw k (lost_line capacity cs (used ++ c ∷ []) _ d h)
      | inr k ↦ rw k (lost_line capacity cs used _ d h)
    ])

-- A line that fits.
kept_line :
    (capacity : ℕ) (cs used : List ℕ) (answers : List ReadAnswer)
    → Delivers cs answers
    → NoFeed cs
    → has_zero cs ≡ false
    → length used + length cs < capacity
    → read_loop capacity answers used false ≡ some (line (used ++ cs))
unfolding read_loop
kept_line capacity [] used answers (again d) h z f = kept_line capacity [] used _ d h z f
kept_line capacity [] used answers over h z f =
    ap (λ (l : List ℕ). some (line l)) (sym (append_nil used))
kept_line capacity (c ∷ cs) used answers (again d) h z f =
    kept_line capacity (c ∷ cs) used _ d h z f
kept_line capacity (c ∷ cs) used answers (one _ d) (n, h) z f = rw n (
    rw room (
      rw first (
        kept_line capacity cs (used ++ c ∷ []) _ d h rest
          (omega (arith, f, length-append used (c ∷ [])))
        ∙ ap (λ (l : List ℕ). some (line l)) (append_assoc used (c ∷ []) cs))))
  where
    room : ltb (length used + 1) capacity ≡ true
    room = ground (arith, f)

    first : (c == 0) ≡ false
    first = ground (arith, z)

    rest : has_zero cs ≡ false
    rest = ground (arith, z)

-- A line that does not fit, or has a zero byte.
bad_line :
    (capacity : ℕ) (cs used : List ℕ) (answers : List ReadAnswer)
    → Delivers cs answers
    → NoFeed cs
    → length used < capacity
    → (has_zero cs ≡ true) ⊎ (capacity ≤ length used + length cs)
    → read_loop capacity answers used false ≡ some too_long
unfolding read_loop
bad_line capacity [] used answers (again d) h k b = bad_line capacity [] used _ d h k b
bad_line capacity [] used answers over h k (inl e) = absurd (ground (arith, e))
bad_line capacity [] used answers over h k (inr e) = absurd (omega (arith, k, e))
bad_line capacity (c ∷ cs) used answers (again d) h k b = bad_line capacity (c ∷ cs) used _ d h k b
bad_line capacity (c ∷ cs) used answers (one _ d) (n, h) k b =
    rw n (elim (Bool-cases (ltb (length used + 1) capacity)) [
      | inr full ↦ rw full (lost_line capacity cs used _ d h)
      | inl room ↦ elim (Bool-cases (c == 0)) [
        | inl zero_byte ↦ rw (room, zero_byte) (lost_line capacity cs (used ++ c ∷ []) _ d h)
        | inr other ↦
            rw (room, other)
              (bad_line capacity cs (used ++ c ∷ []) _ d h
                (ground (arith, room, length-append used (c ∷ []))) (behind other b))
      ]
    ])
  where
    behind :
        (c == 0) ≡ false
        → (has_zero (c ∷ cs) ≡ true) ⊎ (capacity ≤ length used + length (c ∷ cs))
        → (has_zero cs ≡ true) ⊎ (capacity ≤ length (used ++ c ∷ []) + length cs)
    behind o (inl e) = inl (ground (arith, o, e))
    behind o (inr e) = inr (omega (arith, e, length-append used (c ∷ [])))

-- When the bytes of a line and its line feed arrive, with any number of interrupted calls between them:
-- `read_command_line` delivers the line if it is shorter than the buffer and has no zero byte, and -2
-- otherwise.
pub read_command_line_lem :
    (capacity : ℕ) (cs : List ℕ) (answers : List ReadAnswer)
    → 0 < capacity
    → NoFeed cs
    → Delivers cs answers
    → read_command_line capacity answers
      ≡ some (
          if ltb (length cs) capacity
          then (if has_zero cs then too_long else line cs)
          else too_long)
unfolding read_command_line
read_command_line_lem capacity cs answers some_room h d =
    elim (Bool-cases (ltb (length cs) capacity)) [
      | inr long ↦
          rw long (bad_line capacity cs [] answers d h some_room (inr (ground (arith, long))))
      | inl fits ↦ elim (Bool-cases (has_zero cs)) [
        | inl z ↦ rw (fits, z) (bad_line capacity cs [] answers d h some_room (inl z))
        | inr z ↦ rw (fits, z) (kept_line capacity cs [] answers d h z (ground (arith, fits)))
      ]
    ]

-- What `send_all` writes is a beginning of the data. When it reports success it has written all of it,
-- and when it has written all of it, it reports success.
pub send_all_lem :
    (data_bytes : List ℕ) (answers : List WriteAnswer)
    → ((rest : List ℕ) × ((send_all data_bytes answers).0 ++ rest ≡ data_bytes))
      × ((send_all data_bytes answers).1 ≡ some true ↔ (send_all data_bytes answers).0 ≡ data_bytes)
unfolding send_all
send_all_lem [] answers = (([], refl), ((λ _. refl), (λ _. refl)))
send_all_lem (c ∷ cs) [] =
    ((c ∷ cs, refl), ((λ e. absurd (ground (arith, e))), (λ e. absurd (ground (arith, e)))))
send_all_lem (c ∷ cs) (retry ∷ answers) = send_all_lem (c ∷ cs) answers
send_all_lem (c ∷ cs) (fails ∷ answers) =
    ((c ∷ cs, refl), ((λ e. absurd (ground (arith, e))), (λ e. absurd (ground (arith, e)))))
send_all_lem (c ∷ cs) (wrote zero ∷ answers) =
    ((c ∷ cs, refl), ((λ e. absurd (ground (arith, e))), (λ e. absurd (ground (arith, e)))))
send_all_lem (c ∷ cs) (wrote (suc n) ∷ answers) =
    let later = send_all_lem (drop n cs) answers in
    (
      (
        later.0.0,
        ap (λ (l : List ℕ). c ∷ l)
            (append_assoc (take n cs) (send_all (drop n cs) answers).0 later.0.0
              ∙ ap (λ (l : List ℕ). take n cs ++ l) later.0.1
              ∙ take_drop n cs),
      ),
      (
        (λ e.
            ap (λ (l : List ℕ). c ∷ l)
              (ap (λ (l : List ℕ). take n cs ++ l) (later.1.0 e) ∙ take_drop n cs)),
        (λ e. later.1.1 (same_rest (take n cs) _ _ (tail_eq e ∙ sym (take_drop n cs)))),
      ),
    )
  where
    take_drop : (n : ℕ) (l : List ℕ) → take n l ++ drop n l ≡ l
    take_drop zero l = refl
    take_drop (suc n) [] = refl
    take_drop (suc n) (x ∷ l) = ap (λ (m : List ℕ). x ∷ m) (take_drop n l)

    tail_eq : {a b : ℕ} → {l m : List ℕ} → a ∷ l ≡ b ∷ m → l ≡ m
    tail_eq e = ground (arith, e)

    same_rest : (xs ys zs : List ℕ) → xs ++ ys ≡ xs ++ zs → ys ≡ zs
    same_rest [] ys zs e = e
    same_rest (x ∷ xs) ys zs e = same_rest xs ys zs (tail_eq e)
