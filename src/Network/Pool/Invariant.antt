-- ===== src/Network/Pool/Invariant.antt =====
-- What holds of the pool of server/network/thread_pool.c in every state that its threads can reach.
use event_ticketing_platform.Base.{
  ℕ, zero, suc, ◌+◌, ◌≤◌, ◌<◌, ◌≡◌, ◌≢◌, refl, sym, ap, subst, ◌∙◌, Bool, true, false, not, ◌&&◌,
  ◌||◌, Option, none, some, List, [], ◌∷◌, ◌++◌, arith, leb, ◌==◌, if◌then◌else◌, length,
  length-append,
}
use event_ticketing_platform.Network.Pool.{
  Pool, blocked, refused, queued, waits, exits, null_head, all_started, thread_pool_create,
  thread_pool_submit, dequeue, worker_turn, thread_pool_shutdown, System, drop_at, after_submit,
  after_turn, turn, fresh, submit, work, finish, wake, destroy, Reach, start, next,
}

module _ {A : Type 0} where
  pub length-drop_at : (xs : List A) (i : ℕ) → i < length xs → length (drop_at xs i) + 1 ≡ length xs
  unfolding drop_at
  length-drop_at [] i h = absurd (omega arith)
  length-drop_at (x ∷ xs) zero h = omega arith
  length-drop_at (x ∷ xs) (suc i) h = omega (arith, length-drop_at xs i (omega arith))

  append_assoc : (xs ys zs : List A) → (xs ++ ys) ++ zs ≡ xs ++ (ys ++ zs)
  append_assoc [] ys zs = refl
  append_assoc (x ∷ xs) ys zs = ap (λ (l : List A). x ∷ l) (append_assoc xs ys zs)

  pub record IsInOrder (s : System A) : Type 0 where
    pub size : s.pool.queue_size ≡ length s.pool.queue
    pub room : s.pool.queue_size ≤ s.pool.max_queue_size
    pub threads : s.idle + s.asleep + length s.running + s.exited ≡ s.pool.num_threads
    pub some_thread : 0 < s.pool.num_threads
    pub order : s.accepted ≡ s.taken ++ s.pool.queue
    -- No worker sleeps through the shutdown.
    pub none_asleep : s.pool.shutdown ≡ true → s.asleep ≡ 0
    -- A worker has left only a pool that is shut down and empty.
    pub left : 0 < s.exited → (s.pool.shutdown ≡ true) × (s.pool.queue ≡ [])

  fresh-IsInOrder :
      (n m : ℕ) (a b : Bool) (answers : List Bool) (pool : Pool A)
      → thread_pool_create n m a b answers ≡ some pool
      → IsInOrder (fresh pool)
  unfolding thread_pool_create
  fresh-IsInOrder n m a b answers pool e =
      by_test (n == 0 || m == 0 || not a || not b || not (all_started n answers)) refl e
    where
      made : Pool A
      made = record {
        num_threads = n;
        queue = [];
        queue_size = 0;
        max_queue_size = m;
        shutdown = false;
      }

      by_test :
          (c : Bool)
          → (n == 0 || m == 0 || not a || not b || not (all_started n answers)) ≡ c
          → (if c then none else some made) ≡ some pool
          → IsInOrder (fresh pool)
      by_test true h e = absurd (ground (arith, e))
      by_test false h e =
          subst (λ (p : Pool A). IsInOrder (fresh p))
            (ap (λ (o : Option (Pool A)). elim o [ none ↦ made | some p ↦ p ]) e)
            (record {
              size = refl;
              room = omega arith;
              threads = omega arith;
              some_thread = positive;
              order = refl;
              none_asleep = λ _. refl;
              left = λ k. absurd (omega (arith, k));
            })
        where
          positive : 0 < n
          positive = ground (arith, h)

  submit-IsInOrder :
      (s : System A) (task : A) (can_alloc : Bool)
      → IsInOrder s
      → IsInOrder (after_submit s task (thread_pool_submit s.pool can_alloc task))
  unfolding thread_pool_submit
  submit-IsInOrder s task can_alloc v =
      by_tests (leb s.pool.max_queue_size s.pool.queue_size && not s.pool.shutdown) s.pool.shutdown
        can_alloc refl refl
    where
      by_tests :
          (b c d : Bool)
          → (leb s.pool.max_queue_size s.pool.queue_size && not s.pool.shutdown) ≡ b
          → s.pool.shutdown ≡ c
          → IsInOrder (
              after_submit s task (
                if b
                then (blocked, s.pool)
                else if c
                then (refused, s.pool)
                else if d
                then (
                  queued,
                  record s.pool {
                    queue = s.pool.queue ++ task ∷ [];
                    queue_size = s.pool.queue_size + 1;
                  },
                )
                else (refused, s.pool)))
      by_tests true c d h k = v
      by_tests false true d h k = v
      by_tests false false false h k = v
      by_tests false false true h k = record {
        size = omega (arith, v.size, length-append s.pool.queue (task ∷ []));
        room = ground (arith, h, k);
        threads = ground (arith, v.threads);
        some_thread = v.some_thread;
        none_asleep = λ e. absurd (true_false (sym e ∙ k));
        order =
            ap (λ (l : List A). l ++ task ∷ []) v.order
            ∙ append_assoc s.taken s.pool.queue (task ∷ []);
        left = λ e. absurd (true_false (sym (v.left e).0 ∙ k));
      }
        where
          true_false : true ≡ false → ⊥
          true_false e = ground (arith, e)

  -- A worker that takes a task, from a queue that is not empty.
  taken-IsInOrder :
      (s : System A) (queue : List A)
      → s.pool.queue ≡ queue
      → 0 < length queue
      → 0 < s.idle
      → IsInOrder s
      → IsInOrder (after_turn s (dequeue s.pool queue))
  unfolding dequeue
  taken-IsInOrder s [] e k h v = absurd (omega (arith, k))
  taken-IsInOrder s (task ∷ rest) e k h v = record {
    size = omega (arith, v.size, ap length e);
    room = omega (arith, v.room);
    threads = omega (arith, v.threads, h);
    some_thread = v.some_thread;
    none_asleep = v.none_asleep;
    order =
        v.order ∙ ap (λ (l : List A). s.taken ++ l) e ∙ sym (append_assoc s.taken (task ∷ []) rest);
    left = λ x. absurd (omega (arith, ap length (sym e ∙ (v.left x).1)));
  }

  pub turn-IsInOrder : (s : System A) → 0 < s.idle → IsInOrder s → IsInOrder (turn s)
  unfolding worker_turn
  turn-IsInOrder s h v =
      by_tests (s.pool.queue_size == 0 && not s.pool.shutdown)
        (s.pool.shutdown && s.pool.queue_size == 0) refl refl
    where
      nil : (l : List A) → length l ≡ 0 → l ≡ []
      nil [] e = refl
      nil (x ∷ xs) e = absurd (omega (arith, e))

      by_tests :
          (b c : Bool)
          → (s.pool.queue_size == 0 && not s.pool.shutdown) ≡ b
          → (s.pool.shutdown && s.pool.queue_size == 0) ≡ c
          → IsInOrder (
              after_turn s (
                if b
                then (waits, s.pool)
                else if c
                then (exits, s.pool)
                else dequeue s.pool s.pool.queue))
      by_tests true c k l = record {
        size = v.size;
        room = v.room;
        threads = omega (arith, v.threads, h);
        some_thread = v.some_thread;
        order = v.order;
        none_asleep = λ d. absurd (ground (arith, k, d));
        left = v.left;
      }
      by_tests false true k l = record {
        size = v.size;
        room = v.room;
        threads = omega (arith, v.threads, h);
        some_thread = v.some_thread;
        order = v.order;
        none_asleep = v.none_asleep;
        left = λ _. (ground (arith, l), nil s.pool.queue (ground (arith, l, v.size)));
      }
      by_tests false false k l =
          taken-IsInOrder s s.pool.queue refl (ground (arith, k, l, v.size)) h v

  pub Reach-IsInOrder : {s : System A} → Reach s → IsInOrder s
  unfolding thread_pool_shutdown
  Reach-IsInOrder (start n m a b answers pool e) = fresh-IsInOrder n m a b answers pool e
  Reach-IsInOrder (next r (submit task can_alloc)) =
      submit-IsInOrder _ task can_alloc (Reach-IsInOrder r)
  Reach-IsInOrder (next r (work h)) = turn-IsInOrder _ h (Reach-IsInOrder r)
  Reach-IsInOrder (next {s} r (finish i h)) =
      let v = Reach-IsInOrder r in
      record {
        size = v.size;
        room = v.room;
        threads = omega (arith, v.threads, length-drop_at s.running i h);
        some_thread = v.some_thread;
        order = v.order;
        none_asleep = v.none_asleep;
        left = v.left;
      }
  Reach-IsInOrder (next {s} r (wake h)) =
      let v = Reach-IsInOrder r in
      record {
        size = v.size;
        room = v.room;
        threads = omega (arith, v.threads, h);
        some_thread = v.some_thread;
        order = v.order;
        none_asleep = λ d. omega (arith, h, v.none_asleep d);
        left = v.left;
      }
  Reach-IsInOrder (next r destroy) =
      let v = Reach-IsInOrder r in
      record {
        size = v.size;
        room = v.room;
        threads = omega (arith, v.threads);
        some_thread = v.some_thread;
        order = v.order;
        none_asleep = λ _. refl;
        left = λ e. (refl, (v.left e).1);
      }

  dequeue_head :
      (pool : Pool A) (queue : List A) → 0 < length queue → (dequeue pool queue).0 ≢ null_head
  unfolding dequeue
  dequeue_head pool [] h e = omega (arith, h)
  dequeue_head pool (task ∷ rest) h e = ground (arith, e)

  turn_head :
      (pool : Pool A) → pool.queue_size ≡ length pool.queue → (worker_turn pool).0 ≢ null_head
  unfolding worker_turn
  turn_head pool size =
      by_tests (pool.queue_size == 0 && not pool.shutdown) (pool.shutdown && pool.queue_size == 0)
        refl refl
    where
      by_tests :
          (b c : Bool)
          → (pool.queue_size == 0 && not pool.shutdown) ≡ b
          → (pool.shutdown && pool.queue_size == 0) ≡ c
          → (if b then (waits, pool) else if c then (exits, pool) else dequeue pool pool.queue).0
            ≢ null_head
      by_tests true c k l = λ e. ground (arith, e)
      by_tests false true k l = λ e. ground (arith, e)
      by_tests false false k l = dequeue_head pool pool.queue (ground (arith, k, l, size))

  -- In every state that the threads can reach: the tasks that were accepted are those taken, in the same
  -- order, and those in the queue, of which there are at most `max_queue_size`; and no worker finds a
  -- null head.
  pub queue_is_fifo :
      {s : System A}
      → Reach s
      → (s.accepted ≡ s.taken ++ s.pool.queue)
        × (length s.pool.queue ≤ s.pool.max_queue_size)
        × ((worker_turn s.pool).0 ≢ null_head)
  queue_is_fifo {s} r =
      let v = Reach-IsInOrder r in (v.order, omega (arith, v.size, v.room), turn_head s.pool v.size)
