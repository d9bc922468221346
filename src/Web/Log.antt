-- ===== src/Web/Log.antt =====
-- The log of a thread of the pool: `writeLog` of p3/src/thr_pool.c (lines 178 to 203).
pub mod Names
use net_prog.Prelude.{ℕ, ◌+◌, Bool, true, false, List, [], ◌∷◌, ◌++◌, ltb, if◌then◌else◌}
use net_prog.Run.{Run, ok, fault, ◌>>=◌}
use net_prog.Transfer.Thread.{decimal, joined}
use net_prog.Wire.{Bytes}

-- What the system does while a line is written.
pub record Clock : Type 0 where
  pub hour : ℕ
  pub minute : ℕ
  pub second : ℕ
  -- whether a file can be opened
  pub opens : Bytes → Bool

-- "thread_"
abbrev pub log_start : Bytes
log_start = 116 ∷ 104 ∷ 114 ∷ 101 ∷ 97 ∷ 100 ∷ 95 ∷ []

-- ".log"
abbrev pub log_extension : Bytes
log_extension = 46 ∷ 108 ∷ 111 ∷ 103 ∷ []

-- "%02d"
unfoldable pub two_digits : ℕ → Bytes
two_digits n = if ltb n 10 then 48 ∷ decimal n else decimal n

-- `sprintf` into the array of fifteen bytes.
unfoldable pub log_name : ℕ → Run Bytes
log_name thread_id = joined 15 (log_start ++ decimal (thread_id + 1)) log_extension

-- " GET /index.html\n"
abbrev pub log_request : Bytes
log_request =
    32 ∷ 71 ∷ 69 ∷ 84 ∷ 32 ∷ 47 ∷ 105 ∷ 110 ∷ 100 ∷ 101 ∷ 120 ∷ 46 ∷ 104 ∷ 116 ∷ 109 ∷ 108 ∷ 10 ∷ []

-- The time, the address and the port, and the request.
unfoldable pub log_line : Clock → Bytes → ℕ → Bytes
log_line clock ip_addr port_num =
    two_digits clock.hour
    ++ (58 ∷ two_digits clock.minute
        ++ (58 ∷ two_digits clock.second
            ++ (32 ∷ ip_addr ++ (58 ∷ decimal port_num ++ log_request))))

-- The file, and what is appended to it. The result of `fopen` is not tested.
unfoldable pub write_log : Clock → ℕ → Bytes → ℕ → Run (Bytes × Bytes)
write_log clock thread_id ip_addr port_num = do
  file_name ← log_name thread_id
  if clock.opens file_name then ok (file_name, log_line clock ip_addr port_num) else fault
