-- ===== src/Web/Semaphore.antt =====
-- The semaphore of the thread pool, with a flag for each thread: p3/src/task_queue.c, lines 67 to
-- 104, and the round of the thread that signals: p3/src/thr_pool.c, lines 92 to 102.
pub mod Wakes
use net_prog.Prelude.{
  ℕ, zero, suc, Bool, true, false, Option, none, some, List, ltb, leb, ◌==◌, if◌then◌else◌, get_or,
  set, replicate,
}
use net_prog.Prelude.Int.{ℤ, pos, negsuc}
use net_prog.Run.{Run, ok, fault, ◌>>=◌}
use net_prog.Web.TaskQueue.{Heap, TaskQueue}

abbrev pub thr_num : ℕ
thr_num = 10

-- The flags `val`.
abbrev pub Flags : Type 0
Flags = List ℕ

-- A value that is neither 0 nor 1 counts as 0.
unfoldable pub b_sem_init : ℤ → Flags
b_sem_init (pos value) = replicate thr_num (if ltb 1 value then 0 else value)
b_sem_init (negsuc value) = replicate thr_num 0

-- All flags are reset and one is set; a thread beyond the array is a fault.
unfoldable pub b_sem_post : ℕ → Run Flags
b_sem_post assigned_thr_id =
    if ltb assigned_thr_id thr_num then ok (set (replicate thr_num 0) assigned_thr_id 1) else fault

-- The flags after the wait of a thread is over; `none` while it waits.
unfoldable pub b_sem_wait : ℕ → Flags → Option Flags
b_sem_wait thr_id val = if get_or val thr_id 0 == 1 then some (set val thr_id 0) else none

-- One round under the mutex of the queue: the first task is announced to its thread.
unfoldable pub signal : TaskQueue → Heap → Flags → Run Flags
signal q h val =
    if q.len == 0
    then ok val
    else elim (h q.head) [ none ↦ fault | some t ↦ b_sem_post t.arg.assigned_thr_id ]
