-- ===== src/Storage/BTree/Search.antt =====
-- The binary search of server/storage/btree.c, and lookup in a leaf.
use event_ticketing_platform.Base.{
  ℕ, zero, suc, ◌+◌, ◌/◌, ◌≤◌, ◌<◌, List, arith, ltb, length, Bool-cases, inl, inr,
}
use event_ticketing_platform.Storage.BTree.{key_at, lower_bound_loop, key_lower_bound}

-- The keys rise strictly.
abbrev pub Sorted : List ℕ → Type 0
Sorted keys = (i j : ℕ) → i < j → j < length keys → key_at keys i < key_at keys j

-- `pos` is the index of the first key that is at least `target`.
pub record IsLowerBound (keys : List ℕ) (target pos : ℕ) : Type 0 where
  pub in_range : pos ≤ length keys
  pub below : (j : ℕ) → j < pos → key_at keys j < target
  pub above : (j : ℕ) → pos ≤ j → j < length keys → target ≤ key_at keys j

loop-IsLowerBound :
    (fuel : ℕ) (keys : List ℕ) (target lo hi : ℕ)
    → Sorted keys
    → lo ≤ hi
    → hi ≤ length keys
    → hi ≤ lo + fuel
    → ((j : ℕ) → j < lo → key_at keys j < target)
    → ((j : ℕ) → hi ≤ j → j < length keys → target ≤ key_at keys j)
    → IsLowerBound keys target (lower_bound_loop fuel keys target lo hi)
unfolding lower_bound_loop
loop-IsLowerBound zero keys target lo hi s a b c d e = record {
  in_range = omega arith;
  below = d;
  above = λ j h. e j (omega arith);
}
loop-IsLowerBound (suc fuel) keys target lo hi s a b c d e = elim (Bool-cases (ltb lo hi)) [
  | inr h ↦
      rw (h, lower_bound_loop)
        (record { in_range = omega arith; below = d; above = λ j k. e j (ground arith) })
  | inl h ↦ elim (Bool-cases (ltb (key_at keys ((lo + hi) / 2)) target)) [
    | inl k ↦
        rw (h, lower_bound_loop)
          (rw (k, lower_bound_loop)
            (loop-IsLowerBound fuel keys target ((lo + hi) / 2 + 1) hi s (ground arith) b
              (ground arith) (λ j m. ground (arith, s j ((lo + hi) / 2))) e))
    | inr k ↦
        rw (h, lower_bound_loop)
          (rw (k, lower_bound_loop)
            (loop-IsLowerBound fuel keys target lo ((lo + hi) / 2) s (ground arith) (ground arith)
              (ground arith) d (λ j m n. ground (arith, s ((lo + hi) / 2) j))))
  ]
]

-- On sorted keys the binary search finds the first key that is not below the target.
pub key_lower_bound-IsLowerBound :
    (keys : List ℕ) (target : ℕ)
    → Sorted keys
    → IsLowerBound keys target (key_lower_bound keys target)
unfolding key_lower_bound
key_lower_bound-IsLowerBound keys target s =
    loop-IsLowerBound (length keys) keys target 0 (length keys) s (omega arith) (omega arith)
      (omega arith) (λ j h. absurd (omega arith)) (λ j h k. absurd (omega arith))
