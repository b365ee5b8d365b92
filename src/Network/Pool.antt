-- ===== src/Network/Pool.antt =====
-- server/network/thread_pool.c: the bounded queue of tasks and its workers. A function of the model is
-- one critical section under the pool's mutex, up to its end or to `pthread_cond_wait`. A worker that
-- waits on `not_empty` sleeps, and runs the section's tests again only after the signal of a submit, the
-- broadcast of the destroy, or a spurious wake-up. A submitter that waits on `not_full` is no part of
-- the state: its next try is one more call. The queue's nodes, from head to tail, are a list.
pub mod Invariant
pub mod Drain
use event_ticketing_platform.Base.{
  ℕ, zero, suc, ◌+◌, ◌-◌, ◌<◌, ◌≡◌, Bool, true, false, not, ◌&&◌, ◌||◌, Option, none, some, List,
  [], ◌∷◌, ◌++◌, leb, ◌==◌, if◌then◌else◌, length,
}

pub record Pool (A : Type 0) : Type 0 where
  pub num_threads : ℕ
  pub queue : List A
  pub queue_size : ℕ
  pub max_queue_size : ℕ
  pub shutdown : Bool

-- What a submitter meets: it waits on `not_full`, gets -1, or gets 0.
pub data SubmitReply : Type 0 where
  blocked refused queued : SubmitReply

-- What a worker meets: it waits on `not_empty`, exits its loop, runs a task, or reads a null head.
pub data Turn (A : Type 0) : Type 0 where
  waits exits null_head : Turn A
  runs : A → Turn A

-- Does every `pthread_create` of the loop succeed? `answers` holds what they return, all successes after
-- its end.
unfoldable pub all_started : ℕ → List Bool → Bool
all_started zero answers = true
all_started (suc n) [] = true
all_started (suc n) (ok ∷ answers) = let rest = all_started n answers in ok && rest

module _ {A : Type 0} where
  -- The sizes are positive, and both allocations and all threads succeed; or else NULL.
  unfoldable pub thread_pool_create : ℕ → ℕ → Bool → Bool → List Bool → Option (Pool A)
  unfolding all_started
  thread_pool_create num_threads max_queue_size pool_memory threads_memory answers =
      if num_threads == 0
        || max_queue_size == 0
        || not pool_memory
        || not threads_memory
        || not (all_started num_threads answers)
      then none
      else some (record {
        num_threads = num_threads;
        queue = [];
        queue_size = 0;
        max_queue_size = max_queue_size;
        shutdown = false;
      })

  abbrev enqueued : Pool A → A → Pool A
  enqueued pool task = record pool {
    queue = pool.queue ++ task ∷ [];
    queue_size = pool.queue_size + 1;
  }

  -- `can_alloc` is false when `malloc` fails.
  unfoldable pub thread_pool_submit : Pool A → Bool → A → SubmitReply × Pool A
  thread_pool_submit pool can_alloc task =
      if leb pool.max_queue_size pool.queue_size && not pool.shutdown
      then (blocked, pool)
      else if pool.shutdown
      then (refused, pool)
      else if can_alloc
      then (queued, enqueued pool task)
      else (refused, pool)

  -- `queue_size` is an `int` that the source keeps at 0 or more: the subtraction stops at 0 here.
  unfoldable pub dequeue : Pool A → List A → Turn A × Pool A
  dequeue pool [] = (null_head, pool)
  dequeue pool (task ∷ rest) =
      (runs task, record pool { queue = rest; queue_size = pool.queue_size - 1 })

  -- A worker from the lock of the mutex to its unlock or wait.
  unfoldable pub worker_turn : Pool A → Turn A × Pool A
  unfolding dequeue
  worker_turn pool =
      if pool.queue_size == 0 && not pool.shutdown
      then (waits, pool)
      else if pool.shutdown && pool.queue_size == 0
      then (exits, pool)
      else dequeue pool pool.queue

  -- The write of the first section of `thread_pool_destroy`.
  unfoldable pub thread_pool_shutdown : Pool A → Pool A
  thread_pool_shutdown pool = record pool { shutdown = true }

-- The pool with its workers, of which `idle` are before a turn, `asleep` wait on `not_empty`, and
-- `exited` have left their loop.
-- `accepted` and `taken` list the tasks that were ever queued, and taken from the queue.
pub record System (A : Type 0) : Type 0 where
  pub pool : Pool A
  pub idle : ℕ
  pub asleep : ℕ
  pub running : List A
  pub exited : ℕ
  pub accepted : List A
  pub taken : List A

unfoldable pub drop_at : {A : Type 0} → List A → ℕ → List A
drop_at [] i = []
drop_at (x ∷ xs) zero = xs
drop_at (x ∷ xs) (suc i) = x ∷ drop_at xs i

module _ {A : Type 0} where
  -- `pthread_cond_signal(&pool->not_empty)`: one sleeper, if there is one, wakes up.
  abbrev pub signal : System A → System A
  signal s = record s { idle = s.idle + (if s.asleep == 0 then 0 else 1); asleep = s.asleep - 1 }

  -- `pthread_cond_broadcast(&pool->not_empty)`: all sleepers wake up.
  abbrev pub broadcast : System A → System A
  broadcast s = record s { idle = s.idle + s.asleep; asleep = 0 }

  -- A submit signals when it has queued the task.
  abbrev pub after_submit : System A → A → SubmitReply × Pool A → System A
  after_submit s task (queued, pool) =
      signal (record s { pool = pool; accepted = s.accepted ++ task ∷ [] })
  after_submit s task (blocked, pool) = record s { pool = pool }
  after_submit s task (refused, pool) = record s { pool = pool }

  abbrev pub after_turn : System A → Turn A × Pool A → System A
  after_turn s (waits, pool) = record s { pool = pool; idle = s.idle - 1; asleep = s.asleep + 1 }
  after_turn s (null_head, pool) = record s { pool = pool }
  after_turn s (exits, pool) = record s { pool = pool; idle = s.idle - 1; exited = s.exited + 1 }
  after_turn s (runs task, pool) = record s {
    pool = pool;
    idle = s.idle - 1;
    running = task ∷ s.running;
    taken = s.taken ++ task ∷ [];
  }

  abbrev pub turn : System A → System A
  turn s = after_turn s (worker_turn s.pool)

  -- A worker's task ends.
  abbrev pub finished : System A → ℕ → System A
  finished s i = record s { running = drop_at s.running i; idle = s.idle + 1 }

  -- A worker returns from `pthread_cond_wait` without a signal.
  abbrev pub roused : System A → System A
  roused s = record s { idle = s.idle + 1; asleep = s.asleep - 1 }

  -- The first section of `thread_pool_destroy`, with its broadcast to the workers.
  abbrev pub destroyed : System A → System A
  destroyed s = broadcast (record s { pool = thread_pool_shutdown s.pool })

  abbrev pub fresh : Pool A → System A
  fresh pool = record {
    pool = pool;
    idle = pool.num_threads;
    asleep = 0;
    running = [];
    exited = 0;
    accepted = [];
    taken = [];
  }

-- Submitters, workers and the thread that destroys the pool, in any order.
pub data Step {A : Type 0} (s : System A) : System A → Type 0 where
  submit :
      (task : A) (can_alloc : Bool)
      → Step s (after_submit s task (thread_pool_submit s.pool can_alloc task))
  work : 0 < s.idle → Step s (turn s)
  finish : (i : ℕ) → i < length s.running → Step s (finished s i)
  wake : 0 < s.asleep → Step s (roused s)
  destroy : Step s (destroyed s)

pub data Reach {A : Type 0} : System A → Type 0 where
  start :
      (num_threads max_queue_size : ℕ) (pool_memory threads_memory : Bool) (answers : List Bool)
      (pool : Pool A)
      → thread_pool_create num_threads max_queue_size pool_memory threads_memory answers ≡ some pool
      → Reach (fresh pool)
  next : {s t : System A} → Reach s → Step s t → Reach t
