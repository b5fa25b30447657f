-- ===== src/Broadcast/Commits.antt =====
-- JOIN_COMMIT at its receiver: the second case of `handle_broadcast` (src/broadcast.c).
use psi_project.Base.{ℕ, ◌-◌, ◌<◌, ◌^◌, ◌≡◌, ◌≢◌, ◌⊎◌, true, false, arith, length, replicate, max}
use psi_project.Cstr.{Name, copy_name, terminate, name_size}
use psi_project.Cstr.Laws.{IsName, length-copy_name}
use psi_project.Join.{
  remove_pending_join, join_state_is_completed, join_state_mark_completed_and_prune_pending,
}
use psi_project.Join.Invariant.{IsValid, mark-IsValid, drop-IsValid, remove-IsValid}
use psi_project.Join.Leaving.{drop_oldest_count}
use psi_project.Node.{RingState}
use psi_project.Wire.{CommitWire, encode_commit, join_commit}
use psi_project.Wire.Laws.{
  FitsCommit, decode-encode_commit, length-encode_commit, get_header-encode_commit,
}
use psi_project.Join.Completed.{completed-record}
use psi_project.JoinFsm.Complete.{joiner_over}
use psi_project.JoinFsm.{commit_bytes, header}
use psi_project.Broadcast.{
  handle_join_commit, broadcast_message, adopt_topology, finish_inflight, stop_ack,
}

sent_FitsCommit :
    (id : ℕ) (name : Name) (topo : ℕ)
    → id < 2 ^ 32
    → topo < 2 ^ 32
    → FitsCommit
        (record { header = header join_commit id; new_name = copy_name name; topo_version = topo })
sent_FitsCommit id name topo hi ht = record {
  header = record { magic = omega arith; type = omega arith; request_id = hi };
  new_name = length-copy_name name;
  topo_version = ht;
}

abbrev pub told : ℕ → Name → ℕ → CommitWire
told id name topo = record {
  header = header join_commit id;
  new_name = copy_name name;
  topo_version = topo;
}

-- The commit that a coordinator broadcasts is handled with the id, name and version that it sent.
pub receive_commit :
    (s : RingState) (id : ℕ) (name : Name) (topo ip now : ℕ)
    → id < 2 ^ 32
    → topo < 2 ^ 32
    → broadcast_message s (commit_bytes id name topo) ip now
      ≡ handle_join_commit s (told id name topo)
unfolding broadcast_message commit_bytes
receive_commit s id name topo ip now hi ht =
    let fits = sent_FitsCommit id name topo hi ht in
    let wire : CommitWire = told id name topo in
    let bytes = encode_commit wire in
    let n = length-encode_commit wire fits in
    let got = decode-encode_commit wire (replicate (116 - length bytes) 0) fits in
    let head = get_header-encode_commit wire (replicate (116 - length bytes) 0) fits in
    ground (arith, n, got, head)

adopt-IsValid :
    (s : RingState) (topo : ℕ) → IsValid s.join_state → IsValid (adopt_topology s topo).join_state
unfolding adopt_topology
adopt-IsValid s topo v = ground (arith, drop-IsValid s.join_state.count v)

-- A commit never lowers the topology version: it becomes the larger of the two. If the join in
-- flight here is the commit's own, it ends: the joiner becomes the predecessor and is known as
-- completed, and the token carries the version. Otherwise the join in flight, the routes and the
-- token stay. The acknowledgement for that request is no longer resent, another one stays. Whether
-- the node has the token and has joined stays. The tables are well formed, and the name of the
-- joiner in flight has a NUL in its 32 bytes.
pub commit_effects :
    (s : RingState) (wire : CommitWire)
    → IsValid s.join_state
    → IsName s.join_inflight.joiner.node_name
    → let t = handle_join_commit s wire in
      let req = wire.header.request_id in
      (t.last_seen_topo_version ≡ max s.last_seen_topo_version wire.topo_version)
      × (((s.join_inflight.active ≡ true)
            × (s.join_inflight.request_id ≡ req)
            × (t.join_inflight.active ≡ false)
            × (t.config ≡ record (s.config) { prev = joiner_over s s.config.prev })
            × (t.token_in ≡ record (s.token_in) { topo_version = t.last_seen_topo_version })
            × (join_state_is_completed t.join_state s.join_inflight.joiner.node_name ≡ true))
          ⊎ (((s.join_inflight.active ≡ false) ⊎ (s.join_inflight.request_id ≢ req))
              × (t.join_inflight ≡ s.join_inflight)
              × (t.config ≡ s.config)
              × (t.token_in ≡ s.token_in)))
      × (((s.ack_sender.request_id ≡ req) × (t.ack_sender.active ≡ false))
          ⊎ ((s.ack_sender.request_id ≢ req) × (t.ack_sender ≡ s.ack_sender)))
      × (t.have_token ≡ s.have_token)
      × (t.joined ≡ s.joined)
unfolding handle_join_commit adopt_topology finish_inflight stop_ack
commit_effects s wire v n =
    let req = wire.header.request_id in
    let name = terminate name_size wire.new_name in
    let joiner = s.join_inflight.joiner in
    let marked = record s {
      join_state = join_state_mark_completed_and_prune_pending s.join_state name req;
    } in
    let adopted = adopt-IsValid marked wire.topo_version (mark-IsValid name req v) in
    let known =
      completed-record
        (remove_pending_join (adopt_topology marked wire.topo_version).join_state
          joiner.node_name).0
        joiner.node_name joiner.request_id (remove-IsValid adopted joiner.node_name) n in
    ground (arith, known)

-- A newer version empties the pending table, unless the commit ends a join in flight here.
pub commit_clears :
    (s : RingState) (wire : CommitWire)
    → IsValid s.join_state
    → s.last_seen_topo_version < wire.topo_version
    → s.join_inflight.active ≡ false
    → (handle_join_commit s wire).join_state.count ≡ 0
unfolding handle_join_commit adopt_topology finish_inflight stop_ack
commit_clears s wire v h a =
    let name = terminate name_size wire.new_name in
    let marked =
      join_state_mark_completed_and_prune_pending s.join_state name wire.header.request_id in
    ground
      (arith, drop_oldest_count marked marked.count (mark-IsValid name wire.header.request_id v))
