-- ===== src/Transfer/Fork/Files.antt =====
-- Every thread of the client has its message stored, each under a name of its own.
use net_prog.Prelude.{ℕ, zero, suc, ◌+◌, ◌≡◌, ◌≢◌, true, some, List, [], ◌∷◌, ◌++◌, All, Option}
use net_prog.Run.{Run, ok}
use net_prog.Transfer.Fork.{Talk}
use net_prog.Transfer.Session.{Outcome}
use net_prog.Transfer.Session.Rounds.{Willing}
use net_prog.Transfer.Thread.{decimal, extension, message_start}
use net_prog.Wire.{Bytes}

-- The numbers from `i + 1` on.
abbrev pub numbers : ℕ → ℕ → List ℕ
numbers i zero = []
numbers i (suc left) = (i + 1) ∷ numbers (i + 1) left

abbrev pub file_of : ℕ → Bytes
file_of n = decimal n ++ extension

-- What the session of a thread comes to.
abbrev pub stored_by : ℕ → ℕ × Option (Run Outcome)
stored_by n =
    (n, some (ok (record { stored = some (file_of n, message_start ++ decimal n); over = true })))

-- No two are the same.
abbrev pub Distinct : List Bytes → Type 0
Distinct [] = Unit
Distinct (name ∷ names) = All (λ other. name ≢ other) names × Distinct names

-- A thread that is created, comes to its end before the process, and talks to a server on a system that does what it is asked.
pub record IsTalk (t : Talk) : Type 0 where
  pub created : t.created ≡ true
  pub finishes : t.finishes ≡ true
  pub willing : Willing t.env
