-- ===== src/Join/Examples.antt =====
-- The theorems on the join tables at a table with two pending nodes.
use psi_project.Base.{
  suc, ◌≡◌, ◌↔◌, ◌⊎◌, ◌-◌, min, ok, if◌then◌else◌, refl, [], ◌∷◌, err, arith, replicate,
}
use psi_project.Cstr.{text, same_name}
use psi_project.Join.{
  JoinState, JoinRequest, PendingJoin, max_pending_joins, no_pending, empty_join_state,
  add_pending_join, remove_pending_join, drop_oldest_pending_joins, pop_oldest_pending_join,
  join_state_record_completed,
}
use psi_project.Join.Invariant.{IsValid, Popped, pop-Popped}
use psi_project.Join.Pending.{copies, add-err_iff, add_duplicates}
use psi_project.Join.Leaving.{remove_copies, drop_oldest_count}
use psi_project.Join.Completed.{recent, logged, recent-record}
use psi_project.Samples.{name_j, name_x, joiner}

abbrev request : JoinRequest
request = record { request_id = 77; node_name = name_j; unicast_port = 5003 }

abbrev other : PendingJoin
other = record joiner { node_name = name_x; request_id = 78; last_seen = 40 }

-- "j" and "x" are pending; the first slot is free again.
abbrev two_pending : JoinState
two_pending = record empty_join_state {
  joins = no_pending ∷ joiner ∷ other ∷ replicate 29 no_pending;
  count = 2;
}

two_pending-IsValid : IsValid two_pending
two_pending-IsValid = ground arith

add-err_iff_example :
    ((add_pending_join two_pending request 10 95).1 ≡ err) ↔ (two_pending.count ≡ max_pending_joins)
add-err_iff_example = add-err_iff two_pending request 10 95 two_pending-IsValid

add_duplicates_example :
    copies request.node_name (add_pending_join two_pending request 10 95).0.joins
    ≡ suc (copies request.node_name two_pending.joins)
unfolding text
add_duplicates_example =
    add_duplicates two_pending request 10 95 [] (joiner ∷ other ∷ replicate 29 no_pending)
      no_pending (omega arith) (omega arith) refl tt refl

pop-Popped_example :
    Popped two_pending
      (pop_oldest_pending_join two_pending).0
      (pop_oldest_pending_join two_pending).1
pop-Popped_example = pop-Popped two_pending

recent-record_example :
    recent (join_state_record_completed two_pending name_j 77)
    ≡ logged name_j 77 (recent two_pending)
recent-record_example = recent-record two_pending name_j 77 two_pending-IsValid

remove_copies_example :
    let (s', rc) = remove_pending_join two_pending name_j in
    ((rc ≡ err) × (s' ≡ two_pending) × (copies name_j two_pending.joins ≡ 0))
    ⊎ ((rc ≡ ok)
        × (2 ≡ suc s'.count)
        × (s'.completed ≡ two_pending.completed)
        × (s'.completed_count ≡ two_pending.completed_count)
        × (copies name_x two_pending.joins ≡ (
            if same_name name_j name_x
            then suc (copies name_x s'.joins)
            else copies name_x s'.joins)))
remove_copies_example = remove_copies two_pending name_j name_x two_pending-IsValid

drop_oldest_count_example :
    let (t, removed) = drop_oldest_pending_joins two_pending 5 in
    (removed ≡ min 5 2) × (t.count ≡ 2 - 5)
drop_oldest_count_example = drop_oldest_count two_pending 5 two_pending-IsValid
