-- ===== src/Super/Packet.antt =====
-- Whole packets: the header's fields, a count, and a body.
use net_prog.Prelude.{ℕ, ◌+◌, ◌%◌, ◌^◌, ◌≡◌, refl, ◌++◌, arith, length, take, drop}
use net_prog.Super.Node.{header, total_len_of, id_of, msg_type_of}
use net_prog.Wire.{Bytes, be32, get32}

-- A header, a number of files, and their entries.
unfoldable pub packet : ℕ → ℕ → ℕ → ℕ → Bytes → Bytes
packet total_len id msg_type count body = header total_len id msg_type ++ (be32 count ++ body)

-- What a buffer says whose beginning is such a packet.
pub record Says (total_len id msg_type count : ℕ) (body : Bytes) (buffer : Bytes) : Type 0 where
  pub total_len_lem : total_len_of buffer ≡ total_len % 2 ^ 32
  pub id_lem : id_of buffer ≡ id % 2 ^ 32
  pub msg_type_lem : msg_type_of buffer ≡ msg_type % 2 ^ 32
  pub count_lem : get32 (drop 12 buffer) ≡ count % 2 ^ 32
  pub body_lem : drop 16 buffer ≡ body

module _ (total_len id msg_type count : ℕ) (body : Bytes) where
  pub packet-Says :
      (rest : Bytes)
      → Says total_len id msg_type count
          (body ++ rest)
          (packet total_len id msg_type count body ++ rest)
  unfolding packet header be32 get32 total_len_of id_of msg_type_of
  packet-Says rest = record {
    total_len_lem = omega arith;
    id_lem = omega arith;
    msg_type_lem = omega arith;
    count_lem = omega arith;
    body_lem = refl;
  }

  pub packet-Says_whole :
      Says total_len id msg_type count body (packet total_len id msg_type count body)
  unfolding packet header be32 get32 total_len_of id_of msg_type_of
  packet-Says_whole = record {
    total_len_lem = omega arith;
    id_lem = omega arith;
    msg_type_lem = omega arith;
    count_lem = omega arith;
    body_lem = refl;
  }

  pub packet-Says_cut :
      (rest : Bytes)
      → Says total_len id msg_type count
          (take 1004 body ++ rest)
          (take 1020 (packet total_len id msg_type count body) ++ rest)
  unfolding packet header be32 get32 total_len_of id_of msg_type_of
  packet-Says_cut rest = record {
    total_len_lem = omega arith;
    id_lem = omega arith;
    msg_type_lem = omega arith;
    count_lem = omega arith;
    body_lem = refl;
  }

  pub length-packet : length (packet total_len id msg_type count body) ≡ 16 + length body
  unfolding packet header be32
  length-packet = omega arith
