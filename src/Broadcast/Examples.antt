-- ===== src/Broadcast/Examples.antt =====
-- The theorems on broadcast messages at sample nodes.
use psi_project.Base.{◌≡◌, ◌≢◌, ◌⊎◌, true, false, max}
use psi_project.Join.Invariant.{empty-IsValid}
use psi_project.Cstr.{text}
use psi_project.Join.{join_state_is_completed}
use psi_project.JoinFsm.Complete.{joiner_over}
use psi_project.Base.{arith}
use psi_project.Broadcast.{handle_join_commit}
use psi_project.Broadcast.Commits.{told, commit_effects}
use psi_project.Samples.{name_j, coordinator}

commit_effects_example :
    let t = handle_join_commit coordinator (told 77 name_j 4) in
    (t.last_seen_topo_version ≡ max 3 4)
    × (((true ≡ true)
          × (coordinator.join_inflight.request_id ≡ 77)
          × (t.join_inflight.active ≡ false)
          × (t.config ≡ record (coordinator.config) {
            prev = joiner_over coordinator coordinator.config.prev;
          })
          × (t.token_in ≡ record (coordinator.token_in) { topo_version = t.last_seen_topo_version })
          × (join_state_is_completed t.join_state coordinator.join_inflight.joiner.node_name
              ≡ true))
        ⊎ (((true ≡ false) ⊎ (coordinator.join_inflight.request_id ≢ 77))
            × (t.join_inflight ≡ coordinator.join_inflight)
            × (t.config ≡ coordinator.config)
            × (t.token_in ≡ coordinator.token_in)))
    × (((coordinator.ack_sender.request_id ≡ 77) × (t.ack_sender.active ≡ false))
        ⊎ ((coordinator.ack_sender.request_id ≢ 77) × (t.ack_sender ≡ coordinator.ack_sender)))
    × (t.have_token ≡ true)
    × (t.joined ≡ true)
unfolding text
commit_effects_example = commit_effects coordinator (told 77 name_j 4) empty-IsValid (omega arith)
