-- ===== src/Threads.antt =====
-- common/threadpool.cc: `Threadpool`, without a callback for completed tasks. An interleaving of the
-- threads is a list of actions, each what one thread does under a lock or between two; an action that
-- has to wait changes nothing. A task is a number.
pub mod Count
pub mod Fifo
use cdc_file_transfer.Prelude.{
  ℕ, zero, suc, ◌+◌, ◌-◌, Bool, true, false, ◌&&◌, List, [], ◌∷◌, ◌++◌, Option, none, some,
  replicate, get_elem?, set, if◌then◌else◌, ◌==◌, leb,
}

-- Where `ThreadWorkerMain` stands: before the loop's lock for the first time, at `Await`, in
-- `ThreadRun`, before the lock with a finished task, or behind the loop.
pub data Worker : Type 0 where
  starting : Worker
  waiting : Worker
  running : ℕ → Worker
  finished : Worker
  stopped : Worker

pub record Pool : Type 0 where
  pub task_queue : List ℕ
  pub outstanding_task_count : ℕ
  pub shutdown : Bool
  pub completed_tasks : List ℕ
  pub workers : List Worker

pub new_pool : ℕ → Pool
new_pool num_threads = record {
  task_queue = [];
  outstanding_task_count = 0;
  shutdown = false;
  completed_tasks = [];
  workers = replicate num_threads starting;
}

pub queue_task : ℕ → Pool → Pool
queue_task task p = record p {
  outstanding_task_count = p.outstanding_task_count + 1;
  task_queue = p.task_queue ++ task ∷ [];
}

-- `TryGetCompletedTask`, and `GetCompletedTask` where it need not wait
pub try_get_completed_task : List ℕ → Option ℕ × List ℕ
try_get_completed_task [] = (none, [])
try_get_completed_task (task ∷ tasks) = (some task, tasks)

-- The worker's next action: its new place, and the pool.
pub grab : List ℕ → Pool → Worker × Pool
grab [] p = (waiting, p)
grab (task ∷ tasks) p = (running task, record p { task_queue = tasks })

pub work : Worker → Pool → Worker × Pool
work starting p = (waiting, p)
work waiting p = if p.shutdown then (stopped, p) else grab p.task_queue p
work (running task) p = (finished, record p { completed_tasks = p.completed_tasks ++ task ∷ [] })
work finished p = (waiting, record p { outstanding_task_count = p.outstanding_task_count - 1 })
work stopped p = (stopped, p)

pub work_at : ℕ → Pool → Pool
work_at i p = elim (get_elem? p.workers i) [
  | none ↦ p
  | some w ↦ let (w', p') = work w p in record p' { workers = set p.workers i w' }
]

-- All workers are joined.
pub all_stopped : List Worker → Bool
all_stopped [] = true
all_stopped (stopped ∷ ws) = all_stopped ws
all_stopped (_ ∷ ws) = false

-- `Shutdown` behind the joins
pub discard : Pool → Pool
discard p = if p.shutdown && all_stopped p.workers then record p { completed_tasks = [] } else p

pub data Act : Type 0 where
  act_queue : ℕ → Act
  act_get : Act
  act_work : ℕ → Act
  act_shutdown : Act
  act_discard : Act

-- The pool, with the tasks queued and gotten so far.
pub record Trace : Type 0 where
  pub pool : Pool
  pub queued : List ℕ
  pub gotten : List ℕ

-- A task that is gotten goes to the end.
pub append_task : Option ℕ → List ℕ → List ℕ
append_task none gotten = gotten
append_task (some task) gotten = gotten ++ task ∷ []

pub perform : Act → Trace → Trace
perform (act_queue task) t = record t {
  pool = queue_task task t.pool;
  queued = t.queued ++ task ∷ [];
}
perform act_get t =
    let (task, left) = try_get_completed_task t.pool.completed_tasks in
    record t {
      pool = record (t.pool) { completed_tasks = left };
      gotten = append_task task t.gotten;
    }
perform (act_work i) t = record t { pool = work_at i t.pool }
perform act_shutdown t = record t { pool = record (t.pool) { shutdown = true } }
perform act_discard t = record t { pool = discard t.pool }

pub run : List Act → Trace → Trace
run [] t = t
run (a ∷ acts) t = run acts (perform a t)

pub start : ℕ → Trace
start num_threads = record { pool = new_pool num_threads; queued = []; gotten = [] }

-- `WaitForQueuedTasksAtMost`, where it returns without a timeout: whether it need not wait, and the
-- value.
pub may_return : ℕ → Pool → Bool
may_return count p = if p.shutdown then true else leb p.outstanding_task_count count

pub at_most : ℕ → Pool → Bool
at_most count p = leb p.outstanding_task_count count

-- `Wait` need not wait.
pub is_done : Pool → Bool
is_done p = p.outstanding_task_count == 0
