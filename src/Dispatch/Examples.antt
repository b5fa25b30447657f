-- ===== src/Dispatch/Examples.antt =====
-- The theorems on unicast messages at sample nodes.
use psi_project.Base.{◌≡◌, ◌⊎◌, ◌↔◌, refl, true, false, arith}
use psi_project.Cstr.{same_name, strncmp, text}
use psi_project.Join.Invariant.{empty-IsValid}
use psi_project.JoinFsm.{join_fsm_maybe_complete}
use psi_project.Dispatch.Accept.{FitsFlight, receive, join_splices}
use psi_project.Node.{zero_token}
use psi_project.Wire.{UnicastMsg, encode_token}
use psi_project.Dispatch.Acks.{ByJoiner, ByPrev, ack_completes}
use psi_project.Dispatch.{ack_message, unicast_dispatch_message}
use psi_project.JoinFsm.Complete.{Completed}
use psi_project.Node.{RingState}
use psi_project.Wire.{umsg_join_ack_u}
use psi_project.Samples.{name_p, name_j, coordinator, predecessor, newcomer, calm}

coordinator_fits : FitsFlight coordinator
coordinator_fits = omega arith

join_splices_example :
    let done = (join_fsm_maybe_complete calm coordinator 5).0 in
    (same_name (receive calm coordinator 0 predecessor).config.next.node_name name_j ≡ true)
    × (same_name
          (receive calm coordinator 0 newcomer).config.next.node_name
          done.config.current.node_name
        ≡ true)
    × (same_name done.config.prev.node_name name_j ≡ true)
    × (same_name (receive calm coordinator 0 newcomer).config.prev.node_name name_p ≡ true)
unfolding strncmp text
join_splices_example =
    join_splices calm coordinator coordinator_fits 0 predecessor newcomer 5 refl refl refl refl refl
      refl (omega arith) (omega arith) (omega arith) refl empty-IsValid

-- A token of version 5 for a node at version 3.
abbrev newer : UnicastMsg
newer = record {
  type = 1;
  payload_len = 328;
  payload = encode_token (record zero_token { topo_version = 5 });
}

-- The coordinator while the joiner's acknowledgement is missing.
abbrev waiting : RingState
waiting = record coordinator {
  join_inflight = record (coordinator.join_inflight) { got_confirm_joiner = false };
}

ack_completes_example :
    let t = (unicast_dispatch_message calm waiting (ack_message umsg_join_ack_u 77 name_j) 5).1 in
    (ByJoiner waiting name_j × ByPrev waiting name_j × Completed waiting t)
    ⊎ (((t.join_inflight.got_confirm_joiner ≡ true) ↔ ByJoiner waiting name_j)
        × ((t.join_inflight.got_confirm_prev ≡ true) ↔ ByPrev waiting name_j)
        × ((t.join_inflight.got_confirm_prev ≡ false)
            ⊎ (t.join_inflight.got_confirm_joiner ≡ false))
        × (t.join_inflight.active ≡ true)
        × (t.config ≡ waiting.config)
        × (t.last_seen_topo_version ≡ waiting.last_seen_topo_version)
        × (t.token_in ≡ waiting.token_in)
        × (t.have_token ≡ waiting.have_token))
unfolding text
ack_completes_example =
    ack_completes calm waiting 77 name_j 5 refl refl (omega arith) empty-IsValid (omega arith)
