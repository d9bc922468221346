-- ===== src/Pool.antt =====
-- The pool of client descriptors behind `select`: p4/src/common.c (lines 51 to 84) and the loop
-- `handleClientFds` of p4/src/super_lib.c. The copies in p2/src/select_server_utilities.c and
-- p3/src/server_utilities.c have the same text but for the client's address (not in p2) and for
-- what is done with a client that is ready, which is a parameter of the loop here.
pub mod Valid
pub mod Add
pub mod Scan
pub mod Keep
pub mod Turn
use net_prog.Prelude.{
  ℕ, zero, suc, ◌+◌, ◌-◌, Bool, true, false, ◌&&◌, Option, none, some, List, [], ◌∷◌, ltb, leb,
  ◌==◌, if◌then◌else◌, get_elem?, set, replicate,
}
use net_prog.Prelude.Int.{ℤ, pos, negsuc}
use net_prog.Run.{Run, ok, fault, ◌>>=◌}

abbrev pub fd_setsize : ℕ
fd_setsize = 1024

-- An `fd_set`, by its members.
abbrev pub FdSet : Type 0
FdSet = ℕ → Bool

unfoldable pub fd_set : ℕ → FdSet → FdSet
fd_set fd s a = if a == fd then true else s a

unfoldable pub fd_clr : ℕ → FdSet → FdSet
fd_clr fd s a = if a == fd then false else s a

-- A slot with -1 is `none`. The address of a client is a number. `nready` is not read below 0.
pub record FdPool : Type 0 where
  pub maxfd : ℕ
  pub read_set : FdSet
  pub clientfd : List (Option ℕ)
  pub client_addr : List ℕ
  pub maxi : ℤ
  pub ready_set : FdSet
  pub nready : ℕ

-- `maxi`, `clientAddr`, `ready_set` and `nready` keep what they held before.
unfoldable pub init_pool : ℕ → FdPool → FdPool
unfolding fd_set
init_pool sockfd pool = record pool {
  clientfd = replicate fd_setsize none;
  maxfd = sockfd;
  read_set = fd_set sockfd (λ fd. false);
}

-- The first free slot, from index `i` on.
unfoldable pub find_slot : ℕ → List (Option ℕ) → Option ℕ
find_slot i [] = none
find_slot i (none ∷ fds) = some i
find_slot i (some fd ∷ fds) = find_slot (i + 1) fds

unfoldable pub raise_maxi : ℕ → ℤ → ℤ
raise_maxi i (pos m) = if ltb m i then pos i else pos m
raise_maxi i (negsuc m) = pos i

-- `FD_SET` of a descriptor beyond the set writes outside it.
unfoldable pub add_client : ℕ → ℕ → FdPool → Run FdPool
unfolding find_slot raise_maxi
add_client sockfd addr pool = elim (find_slot 0 pool.clientfd) [
  | none ↦ ok (record pool { nready = pool.nready - 1 })
  | some i ↦
      if ltb sockfd fd_setsize
      then ok (record {
        maxfd = if ltb pool.maxfd sockfd then sockfd else pool.maxfd;
        read_set = fd_set sockfd pool.read_set;
        clientfd = set pool.clientfd i (some sockfd);
        client_addr = set pool.client_addr i addr;
        maxi = raise_maxi i pool.maxi;
        ready_set = pool.ready_set;
        nready = pool.nready - 1;
      })
      else fault
]

-- How many rounds `i <= maxi` allows from 0 on.
unfoldable pub rounds_of : ℤ → ℕ
rounds_of (pos m) = m + 1
rounds_of (negsuc m) = 0

-- What a server does in the loop, on a state of its own. `ioctl` tells how many bytes wait on a
-- descriptor, `none` for an error.
pub record Server {ℓ} (S : Type ℓ) : Type ℓ where
  pub ioctl : ℕ → Option ℕ
  -- the slot of a client that has closed its connection is given up
  pub on_close : ℕ → S → S
  -- a request waits on a descriptor, in a slot
  pub on_request : ℕ → ℕ → FdPool → S → Run S

unfoldable pub close_client : ℕ → ℕ → FdPool → FdPool
close_client fd i pool = record pool {
  read_set = fd_clr fd pool.read_set;
  clientfd = set pool.clientfd i none;
}

module _ {ℓ} {S : Type ℓ} (server : Server S) where
  -- One round on a client that is ready. The flag says whether the loop goes on.
  unfoldable pub serve : ℕ → ℕ → FdPool → S → Run (Bool × FdPool × S)
  serve fd i pool s =
      let counted = record pool { nready = pool.nready - 1 } in
      elim (server.ioctl fd) [
        | none ↦ ok (false, counted, s)
        | some zero ↦ ok (true, close_client fd i counted, server.on_close i s)
        | some (suc n) ↦ do s' ← server.on_request fd i counted s; ok (true, counted, s')
      ]

  -- One round of the loop at slot `i`. Beyond the array the read is a fault.
  unfoldable pub visit : ℕ → FdPool → S → Run (Bool × FdPool × S)
  visit i pool s = elim (get_elem? pool.clientfd i) [
    | none ↦ fault
    | some none ↦ ok (true, pool, s)
    | some (some fd) ↦
        if ltb 0 fd && pool.ready_set fd then serve fd i pool s else ok (true, pool, s)
  ]

  -- The loop, with a round for each slot up to `maxi`.
  unfoldable pub scan : ℕ → ℕ → FdPool → S → Run (FdPool × S)
  scan zero i pool s = ok (pool, s)
  scan (suc rounds) i pool s = if pool.nready == 0 then ok (pool, s) else (do
    (goes_on, pool', s') ← visit i pool s
    elim goes_on [ true ↦ scan rounds (suc i) pool' s' | false ↦ ok (pool', s') ])

  unfoldable pub handle_client_fds : FdPool → S → Run (FdPool × S)
  handle_client_fds pool s = scan (rounds_of pool.maxi) 0 pool s
