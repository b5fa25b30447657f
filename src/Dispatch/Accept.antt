-- ===== src/Dispatch/Accept.antt =====
-- JOIN_ACCEPT from `join_fsm_inflight_tick` (src/join_fsm.c) through its bytes to
-- `handle_join_accept_u` (src/unicast_dispatch.c), at every node of the ring.
use psi_project.Base.{ℕ, ◌-◌, ◌<◌, ◌^◌, ◌≡◌, refl, ◌∙◌, true, false, arith, ◌++◌, replicate, length}
use psi_project.Cstr.{Name, copy_name, same_name}
use psi_project.Cstr.Laws.{
  IsName, copy_name_idem, length-copy_name, same_name-copy_right, same_name-copy_name, strncmp_sym,
  strncmp_trans,
}
use psi_project.Join.{join_state_mark_completed_and_prune_pending}
use psi_project.Node.{RingState, Route}
use psi_project.Wire.{
  decode_accept, encode_accept, accept_size, umsg_join_accept_u, unicast_msg, join_magic,
  join_accept,
}
use psi_project.Wire.Laws.{FitsAccept, decode-encode_accept}
use psi_project.Link.{Link}
use psi_project.JoinFsm.{build_join_accept_host, accept_message, join_fsm_maybe_complete}
use psi_project.JoinFsm.Complete.{is_confirmed, complete-Completed}
use psi_project.Join.Invariant.{IsValid}
use psi_project.Dispatch.{
  handle_join_accept_u, host_accept, apply_accept_if_relevant, unicast_dispatch_message, renamed,
}

-- The coordinator's ports and its request id are machine words.
pub record FitsFlight (c : RingState) : Type 0 where
  pub request_id : c.join_inflight.request_id < 2 ^ 32
  pub joiner_port : c.join_inflight.joiner.unicast_port < 2 ^ 16
  pub current_port : c.config.current.unicast_port < 2 ^ 16
  pub prev_port : c.config.prev.unicast_port < 2 ^ 16

sent_FitsAccept : (c : RingState) → FitsFlight c → FitsAccept (build_join_accept_host c)
unfolding build_join_accept_host
sent_FitsAccept c f = record {
  header = record { magic = omega arith; type = omega arith; request_id = f.request_id };
  new_name = length-copy_name c.join_inflight.joiner.node_name;
  new_port = f.joiner_port;
  before_name = length-copy_name c.config.current.node_name;
  before_port = f.current_port;
  prev_name = length-copy_name c.config.prev.node_name;
  prev_port = f.prev_port;
}

message_payload :
    (c : RingState)
    → let a = build_join_accept_host c in
      (accept_message a).payload ≡ encode_accept a ++ replicate (512 - length (encode_accept a)) 0
unfolding accept_message build_join_accept_host unicast_msg
message_payload c = simp (
  copy_name_idem c.join_inflight.joiner.node_name,
  copy_name_idem c.config.current.node_name,
  copy_name_idem c.config.prev.node_name,
)

-- The receiver decodes the accept that the coordinator built.
pub receive-send :
    (c : RingState)
    → FitsFlight c
    → decode_accept (accept_message (build_join_accept_host c)).payload ≡ build_join_accept_host c
receive-send c f =
    rw (message_payload c) (decode-encode_accept (build_join_accept_host c) _ (sent_FitsAccept c f))

host-build : (c : RingState) → host_accept (build_join_accept_host c) ≡ build_join_accept_host c
unfolding host_accept build_join_accept_host
host-build c = simp (
  copy_name_idem c.join_inflight.joiner.node_name,
  copy_name_idem c.config.current.node_name,
  copy_name_idem c.config.prev.node_name,
)

-- A route names a node and its port.
abbrev pub Points : Route → Name → ℕ → Type 0
Points r n port = (same_name r.node_name n ≡ true) × (r.unicast_port ≡ port)

copy_Points :
    (r : Route) (n : Name) (port : ℕ) → IsName n → Points (renamed r (copy_name n) port) n port
copy_Points r n port h = (rw (copy_name_idem n) (same_name-copy_name n h), refl)

message_header :
    (c : RingState)
    → let a = build_join_accept_host c in
      ((accept_message a).type ≡ umsg_join_accept_u)
      × ((accept_message a).payload_len ≡ accept_size)
      × (a.header.magic ≡ join_magic)
      × (a.header.type ≡ join_accept)
      × (a.header.request_id ≡ c.join_inflight.request_id)
unfolding accept_message unicast_msg build_join_accept_host
message_header c = (refl, refl, refl, refl, refl)

-- The tables after the joiner has been marked as completed.
abbrev marked : RingState → RingState → RingState
marked c s =
    let a = build_join_accept_host c in
    record s {
      join_state =
          join_state_mark_completed_and_prune_pending s.join_state a.new_name a.header.request_id;
    }

-- The node `s` after the coordinator's accept has reached it.
abbrev pub receive : {W : Type 0} → Link W → RingState → W → RingState → RingState
receive net c w s = (unicast_dispatch_message net s (accept_message (build_join_accept_host c)) w).1

module _ {W : Type 0} (net : Link W) (c : RingState) (f : FitsFlight c) (w : W) where
  received_lem :
      (s : RingState)
      → let a = build_join_accept_host c in
        let (t, applied) = apply_accept_if_relevant (marked c s) a in
        ((receive net c w s).config ≡ t.config)
        × ((receive net c w s).joined ≡ t.joined)
        × (applied ≡ true
            → ((receive net c w s).ack_sender.active ≡ true)
              × ((receive net c w s).ack_sender.coord_name ≡ copy_name a.before_name))
  unfolding unicast_dispatch_message handle_join_accept_u
  received_lem s = ground (arith, receive-send c f, host-build c, message_header c)

  -- The joiner that asked for this join takes the coordinator's predecessor for its own and the
  -- coordinator for its successor, is then a member, and has an acknowledgement to send to the
  -- coordinator.
  pub joiner_takes :
      (j : RingState)
      → same_name j.config.current.node_name c.join_inflight.joiner.node_name ≡ true
      → j.joined ≡ false
      → j.join_request_id ≡ c.join_inflight.request_id
      → IsName c.join_inflight.joiner.node_name
      → IsName c.config.prev.node_name
      → IsName c.config.current.node_name
      → Points (receive net c w j).config.prev c.config.prev.node_name c.config.prev.unicast_port
        × Points
            (receive net c w j).config.next
            c.config.current.node_name
            c.config.current.unicast_port
        × ((receive net c w j).joined ≡ true)
        × ((receive net c w j).ack_sender.active ≡ true)
        × (same_name (receive net c w j).ack_sender.coord_name c.config.current.node_name ≡ true)
  unfolding apply_accept_if_relevant build_join_accept_host
  joiner_takes j me out id nj np nc =
      let mine =
        same_name-copy_right j.config.current.node_name c.join_inflight.joiner.node_name nj ∙ me in
      let prev = copy_Points j.config.prev c.config.prev.node_name c.config.prev.unicast_port np in
      let next =
        copy_Points j.config.next c.config.current.node_name c.config.current.unicast_port nc in
      ground (arith, received_lem j, mine, prev, next)

  -- The predecessor, whose successor the coordinator is, takes the joiner for its successor and
  -- keeps its own predecessor; it too has an acknowledgement to send to the coordinator. The
  -- predecessor is not the joiner, the id and the ports in flight fit their widths, and the
  -- three names have a NUL in their 32 bytes.
  pub predecessor_takes :
      (p : RingState)
      → same_name p.config.current.node_name c.config.prev.node_name ≡ true
      → same_name p.config.next.node_name c.config.current.node_name ≡ true
      → same_name p.config.current.node_name c.join_inflight.joiner.node_name ≡ false
      → IsName c.join_inflight.joiner.node_name
      → IsName c.config.prev.node_name
      → IsName c.config.current.node_name
      → Points
          (receive net c w p).config.next
          c.join_inflight.joiner.node_name
          c.join_inflight.joiner.unicast_port
        × ((receive net c w p).config.prev ≡ p.config.prev)
        × ((receive net c w p).joined ≡ true)
        × ((receive net c w p).ack_sender.active ≡ true)
        × (same_name (receive net c w p).ack_sender.coord_name c.config.current.node_name ≡ true)
  unfolding apply_accept_if_relevant build_join_accept_host
  predecessor_takes p me after other nj np nc =
      let joiner = c.join_inflight.joiner in
      let not_mine = same_name-copy_right p.config.current.node_name joiner.node_name nj ∙ other in
      let mine = same_name-copy_right p.config.current.node_name c.config.prev.node_name np ∙ me in
      let before =
        same_name-copy_right p.config.next.node_name c.config.current.node_name nc ∙ after in
      let next = copy_Points p.config.next joiner.node_name joiner.unicast_port nj in
      let coord = copy_Points p.config.next c.config.current.node_name 0 nc in
      ground (arith, received_lem p, not_mine, mine, before, next, coord)

  -- A node with no part in the join keeps its routes. The id and the ports in flight fit their
  -- widths, and the names of the joiner and the predecessor have a NUL in their 32 bytes.
  pub bystander_keeps :
      (s : RingState)
      → same_name s.config.current.node_name c.config.prev.node_name ≡ false
      → same_name s.config.current.node_name c.join_inflight.joiner.node_name ≡ false
      → IsName c.join_inflight.joiner.node_name
      → IsName c.config.prev.node_name
      → ((receive net c w s).config ≡ s.config) × ((receive net c w s).joined ≡ s.joined)
  unfolding apply_accept_if_relevant build_join_accept_host
  bystander_keeps s a b nj np =
      let not_prev =
        same_name-copy_right s.config.current.node_name c.config.prev.node_name np ∙ a in
      let not_mine =
        same_name-copy_right s.config.current.node_name c.join_inflight.joiner.node_name nj ∙ b in
      ground (arith, received_lem s, not_prev, not_mine)

  -- A join splices the joiner into the ring. The coordinator, its predecessor and the joiner
  -- each do their part, the coordinator with both confirmations; then the predecessor is
  -- followed by the joiner, the joiner by the coordinator, and back. The id and the ports in
  -- flight fit their widths, the three names have a NUL in their 32 bytes, the coordinator's
  -- tables are well formed, and the predecessor is not the joiner.
  pub join_splices :
      (p j : RingState) (w' : W)
      → same_name p.config.current.node_name c.config.prev.node_name ≡ true
      → same_name p.config.next.node_name c.config.current.node_name ≡ true
      → same_name p.config.current.node_name c.join_inflight.joiner.node_name ≡ false
      → same_name j.config.current.node_name c.join_inflight.joiner.node_name ≡ true
      → j.joined ≡ false
      → j.join_request_id ≡ c.join_inflight.request_id
      → IsName c.join_inflight.joiner.node_name
      → IsName c.config.prev.node_name
      → IsName c.config.current.node_name
      → is_confirmed c ≡ true
      → IsValid c.join_state
      → let done = (join_fsm_maybe_complete net c w').0 in
        (same_name (receive net c w p).config.next.node_name j.config.current.node_name ≡ true)
        × (same_name (receive net c w j).config.next.node_name done.config.current.node_name ≡ true)
        × (same_name done.config.prev.node_name j.config.current.node_name ≡ true)
        × (same_name (receive net c w j).config.prev.node_name p.config.current.node_name ≡ true)
  join_splices p j w' pc pn po jc out id nj np nc conf v =
      let joiner = c.join_inflight.joiner.node_name in
      let at_p = predecessor_takes p pc pn po nj np nc in
      let at_j = joiner_takes j jc out id nj np nc in
      let (at_c, _) = complete-Completed net c w' conf v nj in
      let p_next = (receive net c w p).config.next.node_name in
      let j_prev = (receive net c w j).config.prev.node_name in
      let done_prev = copy_name joiner in
      (
        strncmp_trans 32 p_next joiner j.config.current.node_name at_p.0.0
            (strncmp_sym 32 joiner j.config.current.node_name ∙ jc),
        rw at_c.current at_j.1.0,
        rw at_c.prev (
            strncmp_trans 32 done_prev joiner j.config.current.node_name
              (same_name-copy_name joiner nj)
              (strncmp_sym 32 joiner j.config.current.node_name ∙ jc)),
        strncmp_trans 32 j_prev c.config.prev.node_name p.config.current.node_name at_j.0.0
            (strncmp_sym 32 c.config.prev.node_name p.config.current.node_name ∙ pc),
      )
