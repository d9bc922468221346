-- ===== src/MsgType.antt =====
-- The message types between the nodes: p4/src/protocol.h.
use net_prog.Prelude.{ℕ}

abbrev pub hello_from_child : ℕ
hello_from_child = 0x00000010

abbrev pub hello_from_super : ℕ
hello_from_super = 0x00000011

abbrev pub hello_super_to_super : ℕ
hello_super_to_super = 0x00000012

abbrev pub file_info : ℕ
file_info = 0x00000020

abbrev pub file_info_recv_success : ℕ
file_info_recv_success = 0x00000021

abbrev pub file_info_recv_error : ℕ
file_info_recv_error = 0x00000022

abbrev pub search_query : ℕ
search_query = 0x00000030

abbrev pub search_ans_success : ℕ
search_ans_success = 0x00000031

abbrev pub search_ans_fail : ℕ
search_ans_fail = 0x00000032

abbrev pub file_req : ℕ
file_req = 0x00000040

abbrev pub file_res_success : ℕ
file_res_success = 0x00000041

abbrev pub file_res_fail : ℕ
file_res_fail = 0x00000042

abbrev pub file_info_share : ℕ
file_info_share = 0x00000050

abbrev pub file_info_share_success : ℕ
file_info_share_success = 0x00000051

abbrev pub file_info_share_error : ℕ
file_info_share_error = 0x00000052
