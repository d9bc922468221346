-- ===== src/Pool/Turn/Address.antt =====
-- What `clientAddr` of p4/src/super.c (lines 7 and 103) holds when each client is added. The
-- length that `accept` is given is at first that of a descriptor, not that of an address.
use net_prog.Prelude.{
  ℕ, zero, suc, ◌≤◌, ◌≡◌, refl, ap, ◌∙◌, List, [], ◌∷◌, ◌++◌, arith, length, take, drop, map, All,
  drop-append, length-take, length-drop, take_all,
}
use net_prog.Wire.{Bytes, overlay}

-- The size of a `struct sockaddr_in`, and of an `int`.
abbrev pub addr_size : ℕ
addr_size = 16

abbrev pub sock_size : ℕ
sock_size = 4

-- The bytes of `sin_addr` in an address.
unfoldable pub sin_addr : Bytes → Bytes
sin_addr addr = take 4 (drop 4 addr)

-- `fills` is what `accept` makes of the length that it is given, the address of the client and the
-- bytes that are to hold it: new bytes and a new length.
module _ (fills : ℕ → Bytes → Bytes → Bytes × ℕ) where
  -- What is held after each client of a loop that begins with a length and some bytes.
  unfoldable pub held_addrs : ℕ → Bytes → List Bytes → List Bytes
  held_addrs len held [] = []
  held_addrs len held (client ∷ clients) =
      let (held', len') = fills len client held in held' ∷ held_addrs len' held' clients

  -- `memory` is what the variable holds when `main` begins.
  unfoldable pub client_addrs : Bytes → List Bytes → List Bytes
  client_addrs memory clients = held_addrs sock_size memory clients

  -- The address is truncated to the length, and the length is set to that of the address.
  pub record IsAccept : Type 0 where
    pub fills_lem :
        (len : ℕ) (client held : Bytes)
        → fills len client held ≡ (overlay (take len client) held, length client)

  take-append_le : (n : ℕ) (a b : Bytes) → n ≤ length a → take n (a ++ b) ≡ take n a
  take-append_le zero a b le = refl
  take-append_le (suc n) [] b le = absurd (omega arith)
  take-append_le (suc n) (x ∷ a) b le = ap (λ l. x ∷ l) (take-append_le n a b (omega arith))

  drop-append_le : (n : ℕ) (a b : Bytes) → n ≤ length a → drop n (a ++ b) ≡ drop n a ++ b
  drop-append_le zero a b le = refl
  drop-append_le (suc n) [] b le = absurd (omega arith)
  drop-append_le (suc n) (x ∷ a) b le = drop-append_le n a b (omega arith)

  sin_addr-append : (a b : Bytes) → length a ≡ addr_size → sin_addr (a ++ b) ≡ sin_addr a
  unfolding sin_addr
  sin_addr-append a b size =
      ap (take 4) (drop-append_le 4 a b (omega arith))
      ∙ take-append_le 4 (drop 4 a) b (omega (arith, length-drop 4 a))

  sin_addr-kept :
      (first memory : Bytes)
      → length (take 4 first) ≡ 4
      → sin_addr (take 4 first ++ drop 4 memory) ≡ sin_addr memory
  unfolding sin_addr
  sin_addr-kept first memory four = ap (take 4) (drop-append 4 (take 4 first) (drop 4 memory) four)

  -- With the right length every address is that of the client.
  held_addrs-sin_addr :
      (held : Bytes) (clients : List Bytes)
      → IsAccept
      → All (λ client. length client ≡ addr_size) clients
      → map sin_addr (held_addrs addr_size held clients) ≡ map sin_addr clients
  unfolding held_addrs overlay
  held_addrs-sin_addr held [] is sizes = refl
  held_addrs-sin_addr held (client ∷ clients) is (size, sizes) =
      let whole : take addr_size client ≡ client = take_all addr_size client (omega arith) in
      rw (
        is.fills_lem addr_size client held,
        whole,
        size,
        held_addrs,
        sin_addr-append client (drop addr_size held) size,
        held_addrs-sin_addr (client ++ drop addr_size held) clients is sizes,
      )

  -- If accept cuts the address of a client, of sixteen bytes, to the length that it is given and
  -- sets the length to sixteen, then the address that a super node holds for its first client is
  -- what the variable held before, and for every later client that client's.
  pub client_addrs-first :
      (memory first : Bytes) (later : List Bytes)
      → IsAccept
      → length first ≡ addr_size
      → All (λ client. length client ≡ addr_size) later
      → map sin_addr (client_addrs memory (first ∷ later)) ≡ sin_addr memory ∷ map sin_addr later
  unfolding client_addrs held_addrs overlay
  client_addrs-first memory first later is size sizes =
      let four : length (take 4 first) ≡ 4 = omega (arith, length-take 4 first) in
      rw (
        is.fills_lem 4 first memory,
        four,
        size,
        held_addrs,
        sin_addr-kept first memory four,
        held_addrs-sin_addr (take 4 first ++ drop 4 memory) later is sizes,
      )
