-- ===== src/Tests/Download.antt =====
-- A peer with one file of two bytes.
use net_prog.Prelude.{
  ℕ, ◌+◌, ◌<◌, ◌≡◌, ◌≢◌, refl, sym, ap, none, some, Option, List, [], ◌∷◌, arith, length, take,
  drop, replicate, take-append-drop, length-take, length-replicate, ◌==◌, if◌then◌else◌,
}
use net_prog.Peer.{Disk, answer_peer, receive, fails}
use net_prog.Peer.Download.{Readable}
use net_prog.Peer.Request.{file_req_packet, answer_peer-receive_missing}
use net_prog.MsgType
use net_prog.Run.{ok}
use net_prog.Super.Node.{Env, IsEnv, header}
use net_prog.Wire.{Bytes}

abbrev pub env : Env
env = record {
  client_ip = 49 ∷ [];
  memory = λ n. replicate n 170;
  stack = replicate 12 170;
  connects = net_prog.Prelude.true;
  answer = some [];
}

pub is_env : IsEnv env
is_env = record { sized = λ n. length-replicate {A = ℕ} n 170 }

abbrev pub read_file : Bytes → Option Bytes
read_file rest = some (take 10000 rest)

pub readable : Readable read_file
readable = record {
  at_end = refl;
  block = λ b rest. (
    b,
    take 9999 rest,
    drop 9999 rest,
    refl,
    ap (λ l. b ∷ l) (sym (take-append-drop 9999 rest)),
    omega (arith, length-take 9999 rest),
  );
}

abbrev disk : Disk
disk = record {
  file = λ name. if length name == 1 then some (7 ∷ 0 ∷ []) else none;
  read_file = read_file;
  memory = [];
}

answer_peer-receive_missing_example :
    (answer_peer 5 disk 2 (some (file_req_packet env 1 (97 ∷ 98 ∷ [])))
      ≡ ok (header 12 2 MsgType.file_res_fail ∷ []))
    × (receive (0 ∷ 0 ∷ []) 2 [] [] (some (header 12 2 MsgType.file_res_fail) ∷ []) ≡ ok fails)
answer_peer-receive_missing_example =
    answer_peer-receive_missing env is_env disk 2 1 5 (97 ∷ 98 ∷ []) tt (omega arith) 2 (0 ∷ 0 ∷ [])
      [] refl
