-- ===== src/Super/Request/Entries.antt =====
-- The entries of the packets that list files: written by one node and read by another.
use net_prog.Prelude.{
  ◌^◌, ◌<◌, ◌≤◌, ◌≡◌, ◌∙◌, false, some, ◌++◌, arith, length, take, drop, ltb, le→ltb, length-append,
  drop_past,
}
use mathlib.Core.List.{append_assoc}
use net_prog.Run.{ok}
use net_prog.Super.Node.{Env, IsEnv}
use net_prog.Super.Request.{store_struct, read_store_struct, read_file_information}
use net_prog.Super.Table.{FileInfo}
use net_prog.Wire.{Bytes, IsText, be32, get32, strcpy, c_string}
use net_prog.Wire.RoundTrip.{length-be32, get32-be32, length-strcpy, c_string-strcpy}

-- An entry that fits in the fields of a packet.
pub record IsInfo (e : FileInfo) : Type 0 where
  pub name_text : IsText e.file_name
  pub name_fits : length e.file_name < 96
  pub ip_text : IsText e.ip_addr
  pub ip_fits : length e.ip_addr < 20
  pub size_fits : e.file_size < 2 ^ 32
  pub port_fits : e.port_num < 2 ^ 32

-- A `fileInformation` as a child node writes it, into memory that was not cleared.
unfoldable pub child_entry : Env → FileInfo → Bytes
child_entry env e = strcpy (env.memory 96) e.file_name ++ be32 e.file_size

module _ (env : Env) (is : IsEnv env) where
  length-name : (e : FileInfo) → IsInfo e → length (strcpy (env.memory 96) e.file_name) ≡ 96
  length-name e i =
      let n = is.sized 96 in
      length-strcpy (env.memory 96) e.file_name (omega (arith, i.name_fits)) ∙ n

  length-ip : (e : FileInfo) → IsInfo e → length (strcpy (env.memory 20) e.ip_addr) ≡ 20
  length-ip e i =
      let n = is.sized 20 in length-strcpy (env.memory 20) e.ip_addr (omega (arith, i.ip_fits)) ∙ n

  pub length-store_struct : (e : FileInfo) → IsInfo e → length (store_struct env e) ≡ 124
  unfolding store_struct
  length-store_struct e i =
      let name = strcpy (env.memory 96) e.file_name in
      let ip = strcpy (env.memory 20) e.ip_addr in
      omega (
        arith,
        length-append name (be32 e.file_size ++ (ip ++ be32 e.port_num)),
        length-append (be32 e.file_size) (ip ++ be32 e.port_num),
        length-append ip (be32 e.port_num),
        length-be32 e.file_size,
        length-be32 e.port_num,
        length-name e i,
        length-ip e i,
      )

  -- The four fields of an entry, found at their offsets.
  record Fields (e : FileInfo) (x : Bytes) : Type 0 where
    long : ltb (length x) 124 ≡ false
    name : c_string (take 96 x) ≡ some e.file_name
    size : get32 (drop 96 x) ≡ e.file_size
    ip : c_string (take 20 (drop 100 x)) ≡ some e.ip_addr
    port : get32 (drop 120 x) ≡ e.port_num

  store_struct-Fields :
      (e : FileInfo) (rest : Bytes) → IsInfo e → Fields e (store_struct env e ++ rest)
  unfolding store_struct
  store_struct-Fields e rest i =
      let name = strcpy (env.memory 96) e.file_name in
      let ip = strcpy (env.memory 20) e.ip_addr in
      let size = be32 e.file_size in
      let port = be32 e.port_num in
      let flat : (name ++ (size ++ (ip ++ port))) ++ rest
          ≡ name ++ (size ++ (ip ++ (port ++ rest))) =
        simp append_assoc in
      let at96 = drop_past 96 0 name (size ++ (ip ++ (port ++ rest))) (length-name e i) in
      let at100 =
        drop_past 96 4 name (size ++ (ip ++ (port ++ rest))) (length-name e i)
        ∙ drop_past 4 0 size (ip ++ (port ++ rest)) (length-be32 e.file_size) in
      let at120 =
        drop_past 96 24 name (size ++ (ip ++ (port ++ rest))) (length-name e i)
        ∙ drop_past 4 20 size (ip ++ (port ++ rest)) (length-be32 e.file_size)
        ∙ drop_past 20 0 ip (port ++ rest) (length-ip e i) in
      record {
        long =
            le→ltb _ 124
              (omega (arith, length-append (store_struct env e) rest, length-store_struct e i));
        name = rw flat (
            c_string-strcpy 96 (env.memory 96) e.file_name _ (is.sized 96) i.name_text i.name_fits);
        size = rw (flat, at96, get32-be32) (omega (arith, i.size_fits));
        ip =
            rw (flat, at100)
              (c_string-strcpy 20 (env.memory 20) e.ip_addr _ (is.sized 20) i.ip_text i.ip_fits);
        port = rw (flat, at120, get32-be32) (omega (arith, i.port_fits));
      }

  -- An entry whose strings and numbers fit their fields is read back unchanged from the 124 bytes
  -- that a super node writes for it, whatever memory they were written into and whatever follows.
  pub read_store_struct-store_struct :
      (e : FileInfo) (rest : Bytes)
      → IsInfo e
      → read_store_struct (store_struct env e ++ rest) ≡ ok e
  unfolding read_store_struct
  read_store_struct-store_struct e rest i =
      let f = store_struct-Fields e rest i in rw (f.long, f.name, f.ip, f.size, f.port)

  -- What a child writes for a file: lines 107 to 110 of p4/src/child.c.
  pub read_file_information-entry :
      (e : FileInfo) (rest : Bytes)
      → IsInfo e
      → read_file_information (child_entry env e ++ rest) ≡ ok (e.file_name, e.file_size)
  unfolding read_file_information child_entry
  read_file_information-entry e rest i =
      let name = strcpy (env.memory 96) e.file_name in
      let flat : (name ++ be32 e.file_size) ++ rest ≡ name ++ (be32 e.file_size ++ rest) =
        append_assoc name (be32 e.file_size) rest in
      let at96 = drop_past 96 0 name (be32 e.file_size ++ rest) (length-name e i) in
      let long : 100 ≤ length (name ++ (be32 e.file_size ++ rest)) = omega (
        arith,
        length-append name (be32 e.file_size ++ rest),
        length-append (be32 e.file_size) rest,
        length-be32 e.file_size,
        length-name e i,
      ) in
      let size : get32 (drop 96 (child_entry env e ++ rest)) ≡ e.file_size =
        rw (flat, at96, get32-be32) (omega (arith, i.size_fits)) in
      rw (
        flat,
        le→ltb _ 100 long,
        c_string-strcpy 96 (env.memory 96) e.file_name _ (is.sized 96) i.name_text i.name_fits,
        size,
      )

  pub length-child_entry : (e : FileInfo) → IsInfo e → length (child_entry env e) ≡ 100
  unfolding child_entry
  length-child_entry e i = omega (
    arith,
    length-append (strcpy (env.memory 96) e.file_name) (be32 e.file_size),
    length-be32 e.file_size,
    length-name e i,
  )
