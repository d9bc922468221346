-- ===== src/Web/Log/Names.antt =====
-- The names of the log files fit, and differ.
use net_prog.Prelude.{
  ℕ, ◌+◌, ◌<◌, ◌≤◌, ◌≡◌, ◌≢◌, true, ◌++◌, arith, ltb, lt→ltb, le→ltb, if◌then◌else◌, length,
  length-append,
}
use mathlib.Core.List.{append_cancel_left, append_cancel_right}
use native.Mathlib.Decide.{dec_lt}
use net_prog.Run.{ok, fault}
use net_prog.Transfer.Fork.Numbers.{decimal-injective}
use net_prog.Transfer.Thread.{decimal, joined}
use net_prog.Transfer.Thread.Names.{limit, digits_within-le, digits_within-ge}
use net_prog.Web.Log.{Clock, log_start, log_extension, log_name, log_line, write_log}
use net_prog.Wire.{Bytes}

abbrev pub log_of : ℕ → Bytes
log_of thread_id = (log_start ++ decimal (thread_id + 1)) ++ log_extension

decimal-three : (n : ℕ) → n < 1000 → length (decimal n) ≤ 3
unfolding decimal limit
decimal-three n lt = digits_within-le 2 10 n lt (omega arith)

decimal-four : (n : ℕ) → 1000 ≤ n → 3 < length (decimal n)
unfolding decimal limit
decimal-four n ge = digits_within-ge 3 10 n ge (omega arith)

log_name-fit :
    (thread_id : ℕ)
    → log_name thread_id ≡ (if ltb thread_id 999 then ok (log_of thread_id) else fault)
unfolding log_name joined
log_name-fit thread_id =
    let digits = decimal (thread_id + 1) in
    let front = length-append log_start digits in
    let whole = length-append (log_start ++ digits) log_extension in
    elim (dec_lt thread_id 999) [
      | yes few ↦
          let short = decimal-three (thread_id + 1) (omega arith) in
          rw (lt→ltb thread_id 999 few, le→ltb 15 (length (log_of thread_id) + 1) (omega arith))
      | no many ↦
          let long = decimal-four (thread_id + 1) (omega arith) in
          rw (
            le→ltb thread_id 999 (omega arith),
            lt→ltb 15 (length (log_of thread_id) + 1) (omega arith),
          )
    ]

log_of-injective : (i j : ℕ) → i < 999 → j < 999 → log_of i ≡ log_of j → i ≡ j
log_of-injective i j few few' same =
    let middle = append_cancel_left log_start (decimal (i + 1)) (decimal (j + 1)) (
      append_cancel_right (log_start ++ decimal (i + 1)) (log_start ++ decimal (j + 1))
        log_extension same) in
    let e = decimal-injective (i + 1) (j + 1) (omega arith) (omega arith) middle in omega (arith, e)

-- For a thread whose index is below 999 writeLog, if the file can be opened, appends the line to
-- the file whose name is "thread_", the index plus one and ".log", which fits its array of
-- fifteen bytes; a thread with another such index has a name that fits too, and is a different
-- one.
pub write_log-apart :
    (clock : Clock) (i j port_num : ℕ) (ip_addr : Bytes)
    → clock.opens (log_of i) ≡ true
    → i < 999
    → j < 999
    → i ≢ j
    → (write_log clock i ip_addr port_num ≡ ok (log_of i, log_line clock ip_addr port_num))
      × (log_name j ≡ ok (log_of j))
      × (log_of i ≢ log_of j)
unfolding write_log
write_log-apart clock i j port_num ip_addr opens few few' other = (
  rw (log_name-fit i, lt→ltb i 999 few, opens),
  rw (log_name-fit j, lt→ltb j 999 few'),
  λ same. other (log_of-injective i j few few' same),
)
