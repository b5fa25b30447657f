-- ===== src/JoinFsm/Examples.antt =====
-- The theorems on the joining state machine at sample nodes.
use psi_project.Base.{◌≡◌, refl, false, arith}
use psi_project.Cstr.{text}
use psi_project.Join.Invariant.{empty-IsValid}
use psi_project.Node.{RingState}
use psi_project.JoinFsm.{join_fsm_maybe_complete, commit_bytes}
use psi_project.JoinFsm.Complete.{Completed, complete-Completed}
use psi_project.Samples.{name_j, coordinator, calm}

complete-Completed_example :
    let (t, w') = join_fsm_maybe_complete calm coordinator 5 in
    Completed coordinator t
    × (w' ≡ (calm.broadcast 5 (commit_bytes 77 name_j t.last_seen_topo_version)).1)
unfolding text
complete-Completed_example = complete-Completed calm coordinator 5 refl empty-IsValid (omega arith)

-- The coordinator before the joiner has answered.
abbrev halfway : RingState
halfway = record coordinator {
  join_inflight = record (coordinator.join_inflight) { got_confirm_joiner = false };
}
