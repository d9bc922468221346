-- ===== src/Tests/Tasks.antt =====
-- A queue with one task, and a second one.
use net_prog.Prelude.{◌≡◌, refl, none, some, [], ◌∷◌, ◌==◌, if◌then◌else◌, arith}
use net_prog.Run.{Returns}
use net_prog.Web.TaskQueue.{ClientInfo, Heap, init_task_queue, enqueue_task}
use net_prog.Web.TaskQueue.Fifo.{
  IsQueue, SameOutside, init_task_queue-IsQueue, enqueue_task-IsQueue,
}

abbrev info : ClientInfo
info = record { client_sock = 4; client_addr = 9; assigned_thr_id = 0 }

-- A client that is assigned to another thread.
abbrev info_3 : ClientInfo
info_3 = record { client_sock = 5; client_addr = 9; assigned_thr_id = 3 }

abbrev heap : Heap
heap a =
    if a == 16
    then some (record { prev = 99; function = 1; arg = info })
    else if a == 32
    then some (record { prev = 99; function = 2; arg = info_3 })
    else none

one :
    Returns
      (enqueue_task 16 init_task_queue heap)
      λ r. IsQueue r.1 r.0 ((16, (1, info)) ∷ []) × SameOutside [] 16 heap r.1
one =
    enqueue_task-IsQueue heap init_task_queue [] 16 (record { prev = 99; function = 1; arg = info })
      (init_task_queue-IsQueue heap) (omega arith) refl refl

second : one.0.1 32 ≡ some (record { prev = 99; function = 2; arg = info_3 })
second = one.2.1 32 refl (omega arith)

two : Returns (enqueue_task 32 one.0.0 one.0.1) λ r.
    IsQueue r.1 r.0 ((16, (1, info)) ∷ (32, (2, info_3)) ∷ [])
    × SameOutside ((16, (1, info)) ∷ []) 32 one.0.1 r.1
two =
    enqueue_task-IsQueue one.0.1 one.0.0 ((16, (1, info)) ∷ []) 32
      (record { prev = 99; function = 2; arg = info_3 }) one.2.0 (omega arith) refl second
