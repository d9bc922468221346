-- ===== src/Web/Http.antt =====
-- The answer to a request, `httpResponse` of p3/src/server_utilities.c (lines 135 to 187), and the
-- client's loop that waits for its end, in `clientHttpRequest` of p3/src/client_utilities.c.
pub mod Received
use net_prog.Prelude.{
  ℕ, zero, suc, ◌+◌, ◌-◌, Bool, true, false, ◌&&◌, ◌||◌, Option, none, some, List, [], ◌∷◌, ◌++◌,
  ◌==◌, if◌then◌else◌, length, take, replicate,
}
use net_prog.Run.{Run, ok, fault, out_of_fuel, ◌>>=◌}
use net_prog.Wire.{Bytes}

-- "HTTP/1.1 200 OK\r\n\r\n"
abbrev pub http_header : Bytes
http_header =
    72 ∷ 84 ∷ 84 ∷ 80 ∷ 47 ∷ 49 ∷ 46 ∷ 49 ∷ 32 ∷ 50 ∷ 48 ∷ 48 ∷ 32 ∷ 79 ∷ 75 ∷ 13 ∷ 10 ∷ 13 ∷ 10
    ∷ []

-- "\nHTTP/END\n"
abbrev pub end_msg : Bytes
end_msg = 10 ∷ 72 ∷ 84 ∷ 84 ∷ 80 ∷ 47 ∷ 69 ∷ 78 ∷ 68 ∷ 10 ∷ []

abbrev pub data_size : ℕ
data_size = 750000

-- The bytes that went to the socket. The server may have ended itself, with all its threads.
pub data Response : Type 0 where
  answered : Bytes → Response
  exits : Bytes → Response

-- `write` returns how many bytes it took, or an error. The file is the sequence of what `read`
-- returns, until it returns 0.
module _ (write : Bytes → Option ℕ) where
  unfoldable pub send_file : List (Option Bytes) → Bytes → Response
  send_file [] sent = elim (write end_msg) [
    | none ↦ exits sent
    | some n ↦ answered (sent ++ take n end_msg)
  ]
  send_file (none ∷ reads) sent = exits sent
  send_file (some block ∷ reads) sent = elim (write block) [
    | none ↦ exits sent
    | some n ↦ send_file reads (sent ++ take n block)
  ]

  -- `none` if the file cannot be opened.
  unfoldable pub http_response : Option (List (Option Bytes)) → Response
  http_response none = exits []
  http_response (some reads) = elim (write http_header) [
    | none ↦ exits []
    | some n ↦ send_file reads (take n http_header)
  ]

unfoldable pub starts_with : Bytes → Bytes → Bool
starts_with [] s = true
starts_with (c ∷ needle) [] = false
starts_with (c ∷ needle) (d ∷ s) = c == d && starts_with needle s

-- Whether `strstr` finds something in a buffer; a fault if it runs past its end.
unfoldable pub strstr : Bytes → Bytes → Run Bool
strstr needle [] = fault
strstr needle (zero ∷ buf) = ok false
strstr needle (suc c ∷ buf) =
    if starts_with needle (suc c ∷ buf) then ok true else strstr needle buf

-- The buffer after `memset` and a read.
unfoldable pub recv_buff : Bytes → Bytes
recv_buff got = got ++ replicate (data_size - length got) 0

-- One request: what the reads return is searched for the end message, each for itself. The reads
-- that are left when the loop ends; it outlasts its reads when it waits for more.
unfoldable pub await_end : List Bytes → Run (List Bytes)
await_end [] = out_of_fuel
await_end (got ∷ reads) =
    let later = await_end reads in
    do found ← strstr end_msg (recv_buff got); if found then ok reads else later
