-- ===== src/JoinFsm/Complete.antt =====
-- `join_fsm_try_complete` of src/join_fsm.c.
use psi_project.Base.{◌+◌, ◌≡◌, Bool, true, false, ◌&&◌, if◌then◌else◌, u32, arith}
use psi_project.Cstr.{copy_name, same_name}
use psi_project.Cstr.Laws.{IsName}
use psi_project.Join.{remove_pending_join, join_state_is_completed}
use psi_project.Join.Invariant.{IsValid, remove-IsValid}
use psi_project.Join.Completed.{completed-record}
use psi_project.Node.{RingState, Route}
use psi_project.Link.{Link}
use psi_project.JoinFsm.{join_fsm_maybe_complete, commit_bytes}

abbrev pub is_confirmed : RingState → Bool
is_confirmed s =
    s.join_inflight.active
    && (s.join_inflight.got_confirm_prev && s.join_inflight.got_confirm_joiner)

-- The route of the joiner over an old route, whose broadcast port stays.
abbrev pub joiner_over : RingState → Route → Route
joiner_over s r = record r {
  node_name = copy_name s.join_inflight.joiner.node_name;
  unicast_port = s.join_inflight.joiner.unicast_port;
}

-- What a node looks like after it has completed its join.
pub record Completed (s t : RingState) : Type 0 where
  pub prev : t.config.prev ≡ joiner_over s s.config.prev
  pub next : t.config.next ≡ (
      if same_name s.join_inflight.expected_prev_name s.config.current.node_name
      then joiner_over s s.config.next
      else s.config.next)
  pub current : t.config.current ≡ s.config.current
  pub topology : t.last_seen_topo_version ≡ u32 (s.last_seen_topo_version + 1)
  pub stamped : t.token_in.topo_version ≡ t.last_seen_topo_version
  pub idle : t.join_inflight.active ≡ false
  pub known : join_state_is_completed t.join_state s.join_inflight.joiner.node_name ≡ true
  pub keeps_token : t.have_token ≡ s.have_token

module _ {W : Type 0} (net : Link W) (s : RingState) (w : W) where
  -- With both confirmations in, the joiner becomes the predecessor (and the successor too, if
  -- the node was alone), the topology version goes up by one modulo 2^32, the token carries it,
  -- the joiner is known as completed, and one JOIN_COMMIT with that version is broadcast. The
  -- tables are well formed, and the joiner's name has a NUL in its 32 bytes.
  pub complete-Completed :
      is_confirmed s ≡ true
      → IsValid s.join_state
      → IsName s.join_inflight.joiner.node_name
      → let (t, w') = join_fsm_maybe_complete net s w in
        Completed s t
        × (w'
            ≡ (net.broadcast w (
                commit_bytes s.join_inflight.request_id s.join_inflight.joiner.node_name
                  t.last_seen_topo_version)).1)
  unfolding join_fsm_maybe_complete
  complete-Completed c v n =
      let joiner = s.join_inflight.joiner in
      let removed = remove-IsValid v joiner.node_name in
      let known =
        completed-record (remove_pending_join s.join_state joiner.node_name).0 joiner.node_name
          joiner.request_id removed n in
      ground (arith, known)

  -- Otherwise nothing changes and nothing is sent.
  pub complete_waits : is_confirmed s ≡ false → join_fsm_maybe_complete net s w ≡ (s, w)
  unfolding join_fsm_maybe_complete
  complete_waits c = ground arith
