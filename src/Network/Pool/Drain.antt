-- ===== src/Network/Pool/Drain.antt =====
-- How the workers of server/network/thread_pool.c end: `thread_pool_destroy` joins them, and relies on
-- the queue being drained then.
use event_ticketing_platform.Base.{
  ℕ, zero, suc, ◌+◌, ◌*◌, ◌≤◌, ◌<◌, ◌≡◌, refl, ap, ◌∙◌, Bool, true, false, not, ◌&&◌, inl, inr, ◌⊎◌,
  List, [], ◌∷◌, ◌++◌, arith, ◌==◌, if◌then◌else◌, length,
}
use event_ticketing_platform.Network.Pool.{
  waits, exits, dequeue, worker_turn, System, after_turn, turn, finished, Reach, next, work, finish,
}
use event_ticketing_platform.Network.Pool.Invariant.{IsInOrder, Reach-IsInOrder, length-drop_at}

-- The steps of the workers that are awake.
pub data WorkerStep {A : Type 0} (s : System A) : System A → Type 0 where
  works : 0 < s.idle → WorkerStep s (turn s)
  finishes : (i : ℕ) → i < length s.running → WorkerStep s (finished s i)

-- A sequence of `n` such steps.
pub data Run {A : Type 0} (s : System A) : ℕ → System A → Type 0 where
  here : Run s 0 s
  more : {n : ℕ} {t u : System A} → Run s n t → WorkerStep t u → Run s (n + 1) u

module _ {A : Type 0} where
  -- What a pool that is shut down has left to do.
  abbrev pub work_left : System A → ℕ
  work_left s = 3 * length s.pool.queue + 2 * length s.running + s.idle

  abbrev Shrinks : System A → System A → Type 0
  Shrinks s t = (work_left t < work_left s) × (t.pool.shutdown ≡ true)

  dequeue-Shrinks :
      (s : System A) (queue : List A)
      → s.pool.queue ≡ queue
      → 0 < length queue
      → 0 < s.idle
      → s.pool.shutdown ≡ true
      → Shrinks s (after_turn s (dequeue s.pool queue))
  unfolding dequeue
  dequeue-Shrinks s [] e k h d = absurd (omega (arith, k))
  dequeue-Shrinks s (task ∷ rest) e k h d = (omega (arith, ap length e, h), d)

  turn-Shrinks :
      (s : System A) → 0 < s.idle → IsInOrder s → s.pool.shutdown ≡ true → Shrinks s (turn s)
  unfolding worker_turn
  turn-Shrinks s h v d =
      by_tests (s.pool.queue_size == 0 && not s.pool.shutdown)
        (s.pool.shutdown && s.pool.queue_size == 0) refl refl
    where
      by_tests :
          (b c : Bool)
          → (s.pool.queue_size == 0 && not s.pool.shutdown) ≡ b
          → (s.pool.shutdown && s.pool.queue_size == 0) ≡ c
          → Shrinks s (
              after_turn s (
                if b
                then (waits, s.pool)
                else if c
                then (exits, s.pool)
                else dequeue s.pool s.pool.queue))
      by_tests true c k l = absurd (ground (arith, k, d))
      by_tests false true k l = (omega (arith, h), d)
      by_tests false false k l =
          dequeue-Shrinks s s.pool.queue refl (ground (arith, k, l, v.size)) h d

  step-Shrinks :
      (s t : System A) → WorkerStep s t → IsInOrder s → s.pool.shutdown ≡ true → Shrinks s t
  step-Shrinks s t (works h) v d = turn-Shrinks s h v d
  step-Shrinks s t (finishes i h) v d = (omega (arith, length-drop_at s.running i h), d)

  step-Reach : {s t : System A} → Reach s → WorkerStep s t → Reach t
  step-Reach r (works h) = next r (work h)
  step-Reach r (finishes i h) = next r (finish i h)

  steps_shrink :
      {s t : System A} {n : ℕ}
      → Reach s
      → s.pool.shutdown ≡ true
      → Run s n t
      → Reach t × (n + work_left t ≤ work_left s) × (t.pool.shutdown ≡ true)
  steps_shrink r d here = (r, omega arith, d)
  steps_shrink {s} r d (more {n} {t} {u} run step) =
      let before = steps_shrink r d run in
      let one = step-Shrinks t u step (Reach-IsInOrder before.0) before.2 in
      (step-Reach before.0 step, omega (arith, before.1, one.0), one.1)

  -- In any state of a pool that its threads can reach and that is shut down: every sequence of steps of
  -- workers that are awake has at most `work_left` steps, and where no further such step is possible every
  -- worker has left its loop, none of them asleep.
  pub workers_end :
      {s t : System A} {n : ℕ}
      → Reach s
      → s.pool.shutdown ≡ true
      → Run s n t
      → (n ≤ work_left s) × ((t.exited ≡ t.pool.num_threads) ⊎ ((u : System A) × WorkerStep t u))
  workers_end {s} {t} r d run =
      let after = steps_shrink r d run in
      (
        omega (arith, after.1),
        next_step t.idle t.running refl refl (
            omega (
              arith,
              (Reach-IsInOrder after.0).threads,
              (Reach-IsInOrder after.0).none_asleep after.2,
            )),
      )
    where
      next_step :
          (k : ℕ) (ts : List A)
          → t.idle ≡ k
          → t.running ≡ ts
          → t.idle + length t.running + t.exited ≡ t.pool.num_threads
          → (t.exited ≡ t.pool.num_threads) ⊎ ((u : System A) × WorkerStep t u)
      next_step zero [] e f h = inl (omega (arith, h, e, ap length f))
      next_step zero (x ∷ ts) e f h = inr (finished t 0, finishes 0 (omega (arith, ap length f)))
      next_step (suc k) ts e f h = inr (turn t, works (omega (arith, e)))

  -- Once all workers of a pool have left their loop, in any state that the threads can reach: the pool is
  -- shut down, the queue is empty, no task is running, and every accepted task was taken, in order.
  pub exited_drained :
      {s : System A}
      → Reach s
      → s.exited ≡ s.pool.num_threads
      → (s.pool.shutdown ≡ true) × (s.pool.queue ≡ []) × (s.running ≡ []) × (s.accepted ≡ s.taken)
  exited_drained {s} r e =
      let v = Reach-IsInOrder r in
      let done = v.left (omega (arith, v.some_thread, e)) in
      (
        done.0,
        done.1,
        nil s.running (omega (arith, v.threads, e)),
        v.order ∙ ap (λ (l : List A). s.taken ++ l) done.1 ∙ append_nil s.taken,
      )
    where
      nil : (l : List A) → length l ≡ 0 → l ≡ []
      nil [] e = refl
      nil (x ∷ xs) e = absurd (omega (arith, e))

      append_nil : (l : List A) → l ++ [] ≡ l
      append_nil [] = refl
      append_nil (x ∷ xs) = ap (λ (m : List A). x ∷ m) (append_nil xs)
