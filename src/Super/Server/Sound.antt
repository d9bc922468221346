-- ===== src/Super/Server/Sound.antt =====
-- Whatever is sent to a super node, its table stays sound and loses no entry.
use net_prog.Prelude.{ℕ, ◌≡◌, inl, inr, List, [], ◌∷◌, All, get_or, Bool-cases}
use mathlib.Core.Path.{subst}
use net_prog.Pool.{FdPool, init_pool}
use net_prog.Pool.Turn.{serve_turns}
use net_prog.Pool.Turn.Rule.{Keeping, serve_turns-Leaves}
use net_prog.Run.{ok, bind-ok, ok_same}
use net_prog.Super.Node.{ChildPort}
use net_prog.Super.Request.{handle_client_request}
use net_prog.Super.Request.Sound.{handle_client_request-Grows}
use net_prog.Super.Server.{
  SuperServer, after_request, SuperTurn, serve_request, super_turn, super_turns, super_server,
}
use net_prog.Super.Start.{start_node}
use net_prog.Super.Table.{Text, FileTable}
use net_prog.Super.Table.Probe.{init-IsValid}
use net_prog.Super.Table.Sound.{IsSound, Keeps, Grows, Grows-refl, Grows-trans, IsValid-IsSound}

module _ (id : ℕ) (t : FileTable) where
  -- The node's table has grown from the table.
  abbrev Grown : SuperServer → Type 0
  Grown s = Grows t s.node.table

  super_turn-Keeping : (turn : SuperTurn) → Keeping Grown (super_turn id turn).server
  unfolding super_turn serve_request after_request
  super_turn-Keeping turn = record {
    close = λ i s grown. grown;
    request = λ fd i pool s s' grown h. elim (Bool-cases s.exited) [
      | inl gone ↦ subst Grown (ok_same (rw gone at h)) grown
      | inr runs ↦
          let env = turn.env fd (get_or pool.client_addr i 0) in
          let (r, ran, ends) =
            bind-ok (handle_client_request id (turn.read fd) env s.node) _ s' (rw runs at h) in
          let grows = handle_client_request-Grows id env s.node grown.0 (turn.read fd) r ran in
          subst Grown (ok_same ends) (Grows-trans t s.node.table r.node.table grown grows)
    ];
  }

  super_turns-Keeping :
      (turns : List SuperTurn) → All (λ turn. Keeping Grown turn.server) (super_turns id turns)
  unfolding super_turns
  super_turns-Keeping [] = tt
  super_turns-Keeping (turn ∷ turns) = (super_turn-Keeping turn, super_turns-Keeping turns)

module _ (id listener : ℕ) where
  -- A super node starts and runs any number of rounds of its main loop, and then any number of
  -- further ones, whatever bytes the clients send and whatever the system reports. If both runs
  -- return, then after each of them the table is sound: it has 1000 cells, its length is the
  -- number of the cells in use, and every entry is reached by the probe for its name over cells
  -- in use; and every entry that was in a cell after the first run is in the same cell after the
  -- second.
  pub super_server-Grows :
      (unset : List ChildPort) (other_super_ip_addr : Text) (other_super_port_num : ℕ)
      (turns more : List SuperTurn) (garbage : FdPool) (then_pool last_pool : FdPool)
      (then_state last_state : SuperServer)
      → super_server id listener turns garbage
          (start_node unset other_super_ip_addr other_super_port_num)
        ≡ ok (then_pool, then_state)
      → serve_turns listener (super_turns id more) then_pool then_state ≡ ok (last_pool, last_state)
      → IsSound then_state.node.table
        × IsSound last_state.node.table
        × Keeps then_state.node.table last_state.node.table
  unfolding super_server start_node
  super_server-Grows unset ip port turns more garbage then_pool last_pool then_state last_state
        first second =
      let node = start_node unset ip port in
      let sound = IsValid-IsSound node.table init-IsValid in
      let begun =
        serve_turns-Leaves (Grown id node.table) listener (super_turns id turns)
          (init_pool listener garbage) _ (super_turns-Keeping id node.table turns)
          (Grows-refl node.table sound) (then_pool, then_state) first in
      let t = then_state.node.table in
      let ended =
        serve_turns-Leaves (Grown id t) listener (super_turns id more) then_pool then_state
          (super_turns-Keeping id t more) (Grows-refl t begun.0) (last_pool, last_state) second in
      (begun.0, ended.0, ended.1)
