-- ===== src/Join/Invariant.antt =====
-- The invariant of the join tables (src/join.c): `count` is the number of used entries, the arrays
-- keep their MAX_PENDING_JOINS entries, and `completed_count` stays within them.
use psi_project.Base.{
  ℕ, zero, suc, ◌^◌, ◌+◌, ◌-◌, ◌≤◌, ◌<◌, ◌≡◌, refl, sym, subst, ap, inl, inr, true, Option, none,
  some, List, [], ◌∷◌, length, length-set, set, get_elem?, arith, Option-cases, size_dec,
}
use psi_project.Cstr.{Name, copy_name}
use psi_project.Join.Slots.{
  count_used, count_used-le, add_slot-Added, remove_slot-Removed, count_used-set-clear,
  scan_oldest_found, NoneOlder, scan_oldest_min, scan_none,
}
use psi_project.Join.{
  completed_entry, JoinState, JoinRequest, PendingJoin, CompletedJoin, max_pending_joins,
  add_pending_join, remove_pending_join, scan_oldest, pop_oldest_pending_join, drop_rounds,
  drop_oldest_pending_joins, update_completed, shift_down, join_state_record_completed, prune_slots,
  prune_joins, join_state_mark_completed_and_prune_pending, clear, empty_join_state,
}

pub record IsValid (s : JoinState) : Type 0 where
  pub joins_size : length s.joins ≡ max_pending_joins
  pub counted : s.count ≡ count_used s.joins
  pub completed_size : length s.completed ≡ max_pending_joins
  pub completed_bound : s.completed_count ≤ max_pending_joins

-- What `pop_oldest_pending_join` does, in terms of the array.
pub data Popped (s : JoinState) : JoinState → Option PendingJoin → Type 0 where
  nothing : count_used s.joins ≡ 0 → Popped s s none
  oldest :
      (i : ℕ) (p : PendingJoin)
      → get_elem? s.joins i ≡ some p
      → p.used ≡ true
      → NoneOlder p.last_seen s.joins
      → Popped s (record s { joins = set s.joins i (clear p); count = size_dec s.count }) (some p)

-- `pop_oldest_pending_join` answers nothing only if no entry is used; otherwise it answers a used
-- entry that no used entry is older than, and frees its slot.
pub pop-Popped :
    (s : JoinState) → Popped s (pop_oldest_pending_join s).0 (pop_oldest_pending_join s).1
unfolding pop_oldest_pending_join
pop-Popped s = elim (Option-cases (scan_oldest 0 none s.joins)) [
  | inl e ↦ rw (e, pop_oldest_pending_join) (nothing (scan_none 0 none s.joins e).1)
  | inr ((j, t), e) ↦ elim (scan_oldest_found 0 none s.joins e) [
    | inl bad ↦ cc
    | inr (k, p, ek, g, u, l) ↦
        let at_j : get_elem? s.joins j ≡ some p = ground arith in
        rw (e, pop_oldest_pending_join, at_j)
          (oldest j p at_j u (subst (λ u. NoneOlder u s.joins) (sym l) (scan_oldest_min s.joins e)))
  ]
]

pub empty-IsValid : IsValid empty_join_state
empty-IsValid = ground arith

module _ {s : JoinState} (v : IsValid s) where
  pub add-IsValid : (r : JoinRequest) (ip now : ℕ) → IsValid (add_pending_join s r ip now).0
  unfolding add_pending_join
  add-IsValid r ip now = ground (arith, add_slot-Added r ip now s.joins)

  pub remove-IsValid : (n : Name) → IsValid (remove_pending_join s n).0
  unfolding remove_pending_join
  remove-IsValid n = ground (arith, remove_slot-Removed n s.joins, count_used-le s.joins)

  pub pop-IsValid : IsValid (pop_oldest_pending_join s).0
  pop-IsValid = keep (pop-Popped s)
    where
      keep : {t : JoinState} {o : Option PendingJoin} → Popped s t o → IsValid t
      keep (nothing e) = v
      keep (oldest i p g u m) = ground (
        arith,
        count_used-set-clear s.joins i g u,
        length-set s.joins i (clear p),
        count_used-le s.joins,
      )

pub drop_rounds-IsValid : (n k : ℕ) {s : JoinState} → IsValid s → IsValid (drop_rounds n k s).0
unfolding drop_rounds
drop_rounds-IsValid zero k v = v
drop_rounds-IsValid (suc n) k {s} v = elim (Option-cases (pop_oldest_pending_join s).1) [
  | inl e ↦ rw (e, drop_rounds) (pop-IsValid v)
  | inr (p, e) ↦ rw (e, drop_rounds) (drop_rounds-IsValid n (suc k) (pop-IsValid v))
]

pub drop-IsValid : (n : ℕ) {s : JoinState} → IsValid s → IsValid (drop_oldest_pending_joins s n).0
unfolding drop_oldest_pending_joins
drop-IsValid n v = drop_rounds-IsValid n 0 v

abbrev SameLength : List CompletedJoin → Option (List CompletedJoin) → Type 0
SameLength cs none = Unit
SameLength cs (some ds) = length ds ≡ length cs

update_completed_length :
    (k : ℕ) (n : Name) (id : ℕ) (cs : List CompletedJoin)
    → SameLength cs (update_completed k n id cs)
unfolding update_completed
update_completed_length zero n id cs = tt
update_completed_length (suc k) n id [] = tt
update_completed_length (suc k) n id (c ∷ cs) = ground (arith, update_completed_length k n id cs)

pub length-shift_down : (k : ℕ) (cs : List CompletedJoin) → length (shift_down k cs) ≡ length cs
unfolding shift_down
length-shift_down zero cs = refl
length-shift_down (suc k) [] = refl
length-shift_down (suc zero) (c ∷ cs) = refl
length-shift_down (suc (suc k)) (c ∷ []) = refl
length-shift_down (suc (suc k)) (c ∷ d ∷ cs) = ap suc (length-shift_down (suc k) (d ∷ cs))

pub prune_slots_counts :
    (now ttl : ℕ) (ps : List PendingJoin) (c : ℕ)
    → count_used ps ≤ c
    → c < 2 ^ 64
    → let (qs, c') = prune_slots now ttl ps c in
      (length qs ≡ length ps) × (c' + count_used ps ≡ c + count_used qs)
unfolding prune_slots clear
prune_slots_counts now ttl [] c h b = ground arith
prune_slots_counts now ttl (p ∷ ps) c h b =
    ground (arith, prune_slots_counts now ttl ps c, prune_slots_counts now ttl ps (size_dec c))

pub record-IsValid :
    (n : Name) (id : ℕ) {s : JoinState} → IsValid s → IsValid (join_state_record_completed s n id)
unfolding join_state_record_completed
record-IsValid n id {s} v = ground (
  arith,
  update_completed_length s.completed_count n id s.completed,
  length-shift_down s.completed_count s.completed,
  length-set (shift_down s.completed_count s.completed) (s.completed_count - 1)
      (completed_entry n id),
  length-set s.completed s.completed_count (completed_entry n id),
)

pub prune-IsValid : (now ttl : ℕ) {s : JoinState} → IsValid s → IsValid (prune_joins s now ttl)
unfolding prune_joins
prune-IsValid now ttl {s} v =
    ground (arith, count_used-le s.joins, prune_slots_counts now ttl s.joins s.count)

pub mark-IsValid :
    (n : Name) (id : ℕ) {s : JoinState}
    → IsValid s
    → IsValid (join_state_mark_completed_and_prune_pending s n id)
unfolding join_state_mark_completed_and_prune_pending
mark-IsValid n id v = remove-IsValid (record-IsValid (copy_name n) id v) n
