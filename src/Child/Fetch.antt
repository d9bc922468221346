-- ===== src/Child/Fetch.antt =====
-- One round of the loop in `main` of p4/src/child.c (lines 152 to 287): a command is read, the
-- super node is asked who has the file, and the file is downloaded and stored.
pub mod Whole
pub mod Announced
use net_prog.Prelude.{
  ℕ, Bool, true, false, Option, none, some, List, [], ◌∷◌, if◌then◌else◌, take, length,
}
use net_prog.Child.{wrong_command, get_file, read_command, not_found, found, read_answer}
use net_prog.Peer.{Received, stores, fails, waits, receive}
use net_prog.Peer.Request.{file_req_packet}
use net_prog.Run.{Run, ok, ◌>>=◌}
use net_prog.Super.Node.{Env}
use net_prog.Super.Request.Query.{search_query_packet}
use net_prog.Super.Table.{Text}
use net_prog.Wire.{Bytes}

-- What lies outside the child in a round. A node that can be connected is what it answers.
pub record Net : Type 0 where
  -- what is read from the super node after a packet is sent
  pub super_node : Option (Bytes → Bytes)
  -- what the reads return from the peer at an address and port; `none` for an error
  pub peer : Text → ℕ → Option (Bytes → List (Option Bytes))
  -- whether a file can be opened for writing
  pub open_file : Text → Bool
  -- how many of some bytes are written; `none` for an error
  pub write_file : Bytes → Option ℕ

-- How a round ends. In all cases the loop goes on with the next command, but while it still waits
-- for the peer.
pub data Fetched : Type 0 where
  bad_command no_super_node file_not_found no_peer no_file_sent still_waits not_written : Fetched
  -- the name of the destination, and what is written at its start
  download_stored : Text → Bytes → Fetched

-- The file is not truncated when it is opened.
unfoldable pub store_received : Net → Text → Received → Fetched
store_received net dest waits = still_waits
store_received net dest fails = no_file_sent
store_received net dest (stores bytes) =
    if net.open_file dest
    then elim (net.write_file bytes) [
      | none ↦ not_written
      | some n ↦ download_stored dest (take n bytes)
    ]
    else not_written

module _ (env : Env) (id : ℕ) (net : Net) where
  -- From the connection to the peer on.
  unfoldable pub download : Text → Text → Text → ℕ → ℕ → Run Fetched
  download req_file dest_file peer_ip peer_port file_size = elim (net.peer peer_ip peer_port) [
    | none ↦ ok no_peer
    | some ask ↦ do
      received ←
          receive (env.memory file_size) file_size [] (env.memory 10012)
            (ask (file_req_packet env id req_file))
      ok (store_received net dest_file received)
  ]

  -- From the connection to the super node on.
  unfoldable pub query : Text → Text → Run Fetched
  query req_file dest_file = elim net.super_node [
    | none ↦ ok no_super_node
    | some ask ↦ do
      answer ← read_answer (env.memory 40) (ask (search_query_packet env id req_file))
      elim answer [
        | not_found ↦ ok file_not_found
        | found peer_ip peer_port file_size ↦
            download req_file dest_file peer_ip peer_port file_size
      ]
  ]

  -- The line is what `fgets` has read.
  unfoldable pub fetch : Bytes → Run Fetched
  fetch line = do
    command ← read_command line
    elim command [
      | wrong_command ↦ ok bad_command
      | get_file req_file dest_file ↦ query req_file dest_file
    ]
