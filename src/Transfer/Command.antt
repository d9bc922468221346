-- ===== src/Transfer/Command.antt =====
-- The commands and the sizes of p1/src/protocol.h; p2/src/protocol.h has the same.
use net_prog.Prelude.{ℕ}

abbrev pub client_hello : ℕ
client_hello = 0x0001

abbrev pub server_hello : ℕ
server_hello = 0x0002

abbrev pub data_delivery : ℕ
data_delivery = 0x0003

abbrev pub data_store : ℕ
data_store = 0x0004

abbrev pub error : ℕ
error = 0x0005

abbrev pub pkt_received : ℕ
pkt_received = 0x0006

abbrev pub file_stored : ℕ
file_stored = 0x0007

abbrev pub stored_error : ℕ
stored_error = 0x0008

abbrev pub max_sequence : ℕ
max_sequence = 65535

abbrev pub static_version : ℕ
static_version = 0x04

abbrev pub static_user_id : ℕ
static_user_id = 0x08

abbrev pub data_size : ℕ
data_size = 4022

abbrev pub header_length : ℕ
header_length = 8
