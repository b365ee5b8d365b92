-- ===== src/Network/Tests.antt =====
-- A pool with two workers and room for three tasks.
use event_ticketing_platform.Base.{
  ℕ, ◌≤◌, ◌<◌, ◌≡◌, ◌≢◌, refl, true, false, ◌⊎◌, some, [], ◌++◌, arith, length,
}
use event_ticketing_platform.Network.Pool.{
  Pool, null_head, all_started, thread_pool_create, thread_pool_submit, dequeue, worker_turn,
  thread_pool_shutdown, System, drop_at, after_submit, turn, finished, destroyed, fresh, Reach,
  start, next, submit, work, finish, destroy,
}
use event_ticketing_platform.Network.Pool.Invariant.{queue_is_fifo}
use event_ticketing_platform.Network.Pool.Drain.{
  WorkerStep, here, more, work_left, works, workers_end, exited_drained,
}

abbrev pool : Pool ℕ
pool = record { num_threads = 1; queue = []; queue_size = 0; max_queue_size = 3; shutdown = false }

program : Unit {0}
unfolding all_started thread_pool_create thread_pool_submit dequeue worker_turn thread_pool_shutdown
    drop_at
program = tt

pool-created : thread_pool_create 1 3 true true [] ≡ some pool
unfolding program
pool-created = refl

abbrev ask : System ℕ → ℕ → System ℕ
ask s task = after_submit s task (thread_pool_submit s.pool true task)

abbrev two_tasks : System ℕ
two_tasks = ask (ask (fresh pool) 7) 8

abbrev shut_down : System ℕ
shut_down = destroyed two_tasks

two_tasks-Reach : Reach two_tasks
two_tasks-Reach =
    next (next (start 1 3 true true [] pool pool-created) (submit 7 true)) (submit 8 true)

shut_down-Reach : Reach shut_down
shut_down-Reach = next two_tasks-Reach destroy

shut_down-flag : shut_down.pool.shutdown ≡ true
unfolding program
shut_down-flag = refl

abbrev one_taken : System ℕ
one_taken = turn shut_down

one_idle : 0 < shut_down.idle
unfolding program
one_idle = omega arith

one_taken-runs : 0 < length one_taken.running
unfolding program
one_taken-runs = omega arith

abbrev second_turn : System ℕ
second_turn = turn (finished one_taken 0)

abbrev last_turn : System ℕ
last_turn = turn (finished second_turn 0)

second_idle : 0 < (finished one_taken 0).idle
unfolding program
second_idle = omega arith

second_runs : 0 < length second_turn.running
unfolding program
second_runs = omega arith

last_idle : 0 < (finished second_turn 0).idle
unfolding program
last_idle = omega arith

last_turn-Reach : Reach last_turn
last_turn-Reach =
    next
      (next
        (next (next (next shut_down-Reach (work one_idle)) (finish 0 one_taken-runs))
          (work second_idle))
        (finish 0 second_runs))
      (work last_idle)

last_turn-exited : last_turn.exited ≡ last_turn.pool.num_threads
unfolding program
last_turn-exited = refl

queue_is_fifo_example :
    (two_tasks.accepted ≡ two_tasks.taken ++ two_tasks.pool.queue)
    × (length two_tasks.pool.queue ≤ two_tasks.pool.max_queue_size)
    × ((worker_turn two_tasks.pool).0 ≢ null_head)
queue_is_fifo_example = queue_is_fifo {s = two_tasks} two_tasks-Reach

workers_end_example :
    (1 ≤ work_left shut_down)
    × ((one_taken.exited ≡ one_taken.pool.num_threads) ⊎ ((u : System ℕ) × WorkerStep one_taken u))
workers_end_example =
    workers_end {s = shut_down} {t = one_taken} {n = 1} shut_down-Reach shut_down-flag
      (more here (works one_idle))

exited_drained_example :
    (last_turn.pool.shutdown ≡ true)
    × (last_turn.pool.queue ≡ [])
    × (last_turn.running ≡ [])
    × (last_turn.accepted ≡ last_turn.taken)
exited_drained_example = exited_drained {s = last_turn} last_turn-Reach last_turn-exited
