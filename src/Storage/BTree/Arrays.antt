-- ===== src/Storage/BTree/Arrays.antt =====
-- The array loops of server/storage/btree.c: what stands at each index afterwards.
use event_ticketing_platform.Base.{
  ℕ, zero, suc, ◌+◌, ◌-◌, ◌≤◌, ◌<◌, ◌≡◌, refl, ap, List, [], ◌∷◌, arith, ltb, ◌==◌, if◌then◌else◌,
  length, get_or, take, drop,
}
use event_ticketing_platform.Storage.BTree.{insert_at, remove_at}

module _ {ℓ} {A : Type ℓ} where
  pub length-insert_at : (xs : List A) (i : ℕ) (a : A) → length (insert_at xs i a) ≡ suc (length xs)
  unfolding insert_at
  length-insert_at [] zero a = refl
  length-insert_at (x ∷ xs) zero a = refl
  length-insert_at [] (suc i) a = refl
  length-insert_at (x ∷ xs) (suc i) a = ap suc (length-insert_at xs i a)

  pub get_or-insert_at :
      (xs : List A) (i : ℕ) (a : A) (j : ℕ) (d : A)
      → i ≤ length xs
      → get_or (insert_at xs i a) j d
        ≡ (if ltb j i then get_or xs j d else if j == i then a else get_or xs (j - 1) d)
  unfolding insert_at
  get_or-insert_at [] zero a zero d h = refl
  get_or-insert_at [] zero a (suc j) d h = ground arith
  get_or-insert_at (x ∷ xs) zero a zero d h = refl
  get_or-insert_at (x ∷ xs) zero a (suc j) d h = ground arith
  get_or-insert_at [] (suc i) a j d h = absurd (omega arith)
  get_or-insert_at (x ∷ xs) (suc i) a zero d h = ground arith
  get_or-insert_at (x ∷ xs) (suc i) a (suc zero) d h = ground (arith, get_or-insert_at xs i a 0 d)
  get_or-insert_at (x ∷ xs) (suc i) a (suc (suc j)) d h =
      ground (arith, get_or-insert_at xs i a (suc j) d)

  pub get_or-take :
      (m : ℕ) (xs : List A) (j : ℕ) (d : A) → j < m → get_or (take m xs) j d ≡ get_or xs j d
  get_or-take zero xs j d h = absurd (omega arith)
  get_or-take (suc m) [] j d h = refl
  get_or-take (suc m) (x ∷ xs) zero d h = refl
  get_or-take (suc m) (x ∷ xs) (suc j) d h = get_or-take m xs j d (omega arith)

  pub get_or-drop :
      (m : ℕ) (xs : List A) (j : ℕ) (d : A) → get_or (drop m xs) j d ≡ get_or xs (j + m) d
  get_or-drop zero xs j d = ap (λ (i : ℕ). get_or xs i d) (omega arith)
  get_or-drop (suc m) [] j d = refl
  get_or-drop (suc m) (x ∷ xs) j d =
      let e : j + suc m ≡ suc (j + m) = omega arith in rw e (get_or-drop m xs j d)

  pub length-remove_at :
      (xs : List A) (i : ℕ) → i < length xs → length (remove_at xs i) + 1 ≡ length xs
  unfolding remove_at
  length-remove_at [] i h = absurd (omega arith)
  length-remove_at (x ∷ xs) zero h = omega arith
  length-remove_at (x ∷ xs) (suc i) h = omega (arith, length-remove_at xs i)

  pub get_or-remove_at :
      (xs : List A) (i j : ℕ) (d : A)
      → get_or (remove_at xs i) j d ≡ (if ltb j i then get_or xs j d else get_or xs (j + 1) d)
  unfolding remove_at
  get_or-remove_at [] i j d = ground arith
  get_or-remove_at (x ∷ xs) zero j d = ground arith
  get_or-remove_at (x ∷ xs) (suc i) zero d = ground arith
  get_or-remove_at (x ∷ xs) (suc i) (suc j) d = ground (arith, get_or-remove_at xs i j d)
