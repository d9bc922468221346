-- ===== src/Transfer/Session.antt =====
-- A client and a server that talk to each other: every packet that one writes is what the other
-- one's next read returns. Each waits for the other's answer before it writes again.
pub mod Rounds
pub mod Turns
pub mod Sends
pub mod Whole
use net_prog.Prelude.{ℕ, zero, suc, Bool, true, false, ◌&&◌, Option, none, some, if◌then◌else◌}
use net_prog.Run.{Run, ok, fault, out_of_fuel, ◌>>=◌}
use net_prog.Transfer.Client.{Client, client_turn, say_hello}
use net_prog.Transfer.Server.{Env, Server, server_round}
use net_prog.Wire.{Bytes}

-- How a session ends: what the server wrote to a file, and whether both have left their loops.
pub record Outcome : Type 0 where
  pub stored : Option (Bytes × Bytes)
  pub over : Bool

-- The rounds from a packet on that is on its way to the server. A session in which one side has
-- nothing to answer, or the server has left its loop, does not go on.
unfoldable pub rounds : ℕ → Env → (Bytes → Option Bytes) → Client → Server → Bytes → Run Outcome
rounds zero env read_file client server packet = out_of_fuel
rounds (suc fuel) env read_file client server packet = do
  r ← server_round env (some packet) server
  elim r.reply [
    | none ↦ ok (record { stored = r.stored; over = false })
    | some reply ↦ do
      t ← client_turn read_file (some reply) client
      elim t.sent [
        | none ↦ ok (record { stored = r.stored; over = r.stops && t.stops })
        | some next ↦
            let rest = rounds fuel env read_file t.client r.server next in
            if r.stops then ok (record { stored = r.stored; over = false }) else rest
      ]
  ]

unfoldable pub session : ℕ → ℕ → Env → (Bytes → Option Bytes) → Client → Server → Run Outcome
session fuel rand env read_file client server =
    let hello = say_hello rand client in rounds fuel env read_file hello.0 server hello.1
