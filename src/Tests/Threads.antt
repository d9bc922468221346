-- ===== src/Tests/Threads.antt =====
-- A pool with one thread, and one task that is submitted, taken and executed.
use net_prog.Prelude.{◌≡◌, refl, none, some, [], ◌∷◌, ◌++◌, set, replicate, arith}
use net_prog.Web.Semaphore.{b_sem_init, b_sem_post, b_sem_wait, signal}
use net_prog.Web.TaskQueue.{
  Task, Heap, TaskQueue, write, set_prev, init_task_queue, enqueue_task, dequeue_task,
}
use net_prog.Web.TaskQueue.Chain.{Job, Items}
use net_prog.Web.TaskQueue.Fifo.{IsQueue}
use net_prog.Web.Threads.{
  starting, waiting, counted, holding, System, start, wake, begin, take_task, run, finish, submit,
  notify, Reach, begins, later, Steps, execute, free, thread_pool_init, thread_pool_enqueue,
  thread_pool_wait,
}
use net_prog.Web.Threads.Tally.{tally}
use net_prog.Web.Threads.Invariant.{jobs}
use net_prog.Web.Threads.Safe.{Safe, Reach-Safe, Reach-fifo, thread_pool_wait-executed}
use net_prog.Web.Threads.Served.{head-served}

abbrev job : Job
job = (1, record { client_sock = 4; client_addr = 9; assigned_thr_id = 0 })

abbrev no_tasks : Heap
no_tasks a = none

abbrev task_heap : Heap
task_heap =
    write 16 (record { prev = 0; function = 1; arg = job.1 })
      (write 16 (record { prev = 99; function = 1; arg = job.1 }) no_tasks)

abbrev made : System
made = record {
  heap = no_tasks;
  queue = init_task_queue;
  flags = replicate 10 0;
  num_active = 0;
  num_working = 0;
  threads = starting ∷ [];
  submitted = [];
  taken = [];
  log = [];
}

abbrev ready : System
ready = record made { num_active = 1; threads = waiting ∷ [] }

abbrev queue_1 : TaskQueue
queue_1 = record { len = 1; head = 16; tail = 16 }

abbrev queued : System
queued = record ready { heap = task_heap; queue = queue_1; submitted = job ∷ [] }

queued-Reach : Reach 1 no_tasks queued
unfolding thread_pool_init b_sem_init init_task_queue thread_pool_enqueue enqueue_task set_prev
    write
queued-Reach =
    later (later (begins {s = made} (omega arith) refl) (start 0 refl))
      (submit 16 99 job queue_1 task_heap refl (omega arith) (omega arith) refl refl)

abbrev called : System
called = record queued { flags = set (replicate 10 0) 0 1 }

abbrev taking : System
taking = record queued { num_working = 1; threads = counted ∷ [] }

taking-Reach : Reach 1 no_tasks taking
unfolding signal b_sem_post b_sem_wait write
taking-Reach =
    later
      (later (later queued-Reach (notify called.flags refl refl))
        (wake 0 (replicate 10 0) refl refl))
      (begin 0 refl)

abbrev held_task : Task
held_task = record { prev = 0; function = 1; arg = job.1 }

abbrev took : System
took = record taking {
  queue = record { len = 0; head = 0; tail = 0 };
  threads = holding 16 job ∷ [];
  taken = job ∷ [];
}

took-Reach : Reach 1 no_tasks took
unfolding dequeue_task write
took-Reach = later taking-Reach (take_task 0 16 took.queue held_task refl refl (omega arith) refl)

abbrev done : System
done = record took {
  heap = free 16 task_heap;
  num_working = 0;
  threads = waiting ∷ [];
  log = job ∷ [];
}

done-Reach : Reach 1 no_tasks done
unfolding execute write
done-Reach =
    later (later took-Reach (run 0 16 job job (free 16 task_heap) refl refl)) (finish 0 refl)

Reach-Safe_example : Safe took
Reach-Safe_example = Reach-Safe took-Reach

Reach-fifo_example : (xs : Items) × IsQueue task_heap queue_1 xs × (job ∷ [] ≡ [] ++ jobs xs)
Reach-fifo_example = Reach-fifo queued-Reach

done-waited : thread_pool_wait done ≡ some done
unfolding thread_pool_wait
done-waited = refl

thread_pool_wait-executed_example : tally (λ j. j.0) (job ∷ []) ≡ tally (λ j. j.0) (job ∷ [])
thread_pool_wait-executed_example = thread_pool_wait-executed done-Reach done-waited (λ j. j.0)

one_queued : IsQueue task_heap queue_1 ((16, job) ∷ [])
unfolding write
one_queued = record {
  chain = (0, refl, omega arith, refl, refl, refl);
  counted = refl;
  ends = λ ne. refl;
}

head-served_example :
    (t : System) × Steps queued t × (t.log ≡ [] ++ job ∷ []) × IsQueue t.heap t.queue []
head-served_example = head-served queued (16, job) [] one_queued refl (omega arith) refl
