-- ===== src/Join/Leaving.antt =====
-- What leaves the pending table of src/join.c: an entry taken by name, the oldest ones, the expired
-- ones.
use psi_project.Base.{
  ℕ, zero, suc, ◌+◌, ◌-◌, min, ◌≡◌, refl, ap, ◌⊎◌, inl, inr, false, Option, none, some, List, [],
  ◌∷◌, if◌then◌else◌, ok, err, arith, map, Bool-cases,
}
use psi_project.Cstr.{Name, same_name}
use psi_project.Join.{
  JoinState, PendingJoin, holds, remove_slot, remove_pending_join, pop_oldest_pending_join,
  drop_rounds, drop_oldest_pending_joins, prune_slots, prune_joins, clear, expired, past,
}
use psi_project.Join.Pending.{copies, holds-other}
use psi_project.Join.Slots.{count_used, count_used-le, remove_slot-Removed, count_used-set-clear}
use psi_project.Join.Invariant.{
  IsValid, Popped, nothing, oldest, pop-Popped, pop-IsValid, prune_slots_counts,
}

Dropped : Name → Name → List PendingJoin → Option (List PendingJoin) → Type 0
Dropped n m ps none = copies n ps ≡ 0
Dropped n m ps (some qs) = copies m ps ≡ (if same_name n m then suc (copies m qs) else copies m qs)

past-Dropped :
    (n m : Name) (p : PendingJoin) (ps : List PendingJoin) (o : Option (List PendingJoin))
    → holds n p ≡ false
    → Dropped n m ps o
    → Dropped n m (p ∷ ps) (past p o)
unfolding Dropped copies
past-Dropped n m p ps none h d = ground arith
past-Dropped n m p ps (some qs) h d = ground arith

remove_slot-Dropped : (n m : Name) (ps : List PendingJoin) → Dropped n m ps (remove_slot n ps)
unfolding remove_slot Dropped copies
remove_slot-Dropped n m [] = refl
remove_slot-Dropped n m (p ∷ ps) = elim (Bool-cases (holds n p)) [
  | inl hit ↦ rw (hit, holds-other n m p hit) (ground arith)
  | inr miss ↦ rw miss (past-Dropped n m p ps (remove_slot n ps) miss (remove_slot-Dropped n m ps))
]

-- `remove_pending_join` returns -1 and changes nothing if the name has no entry; otherwise it takes
-- away one entry of that name and none of another, counts one less, and leaves the completed joins
-- alone. The tables are well formed.
pub remove_copies :
    (s : JoinState) (n m : Name)
    → IsValid s
    → let (s', rc) = remove_pending_join s n in
      ((rc ≡ err) × (s' ≡ s) × (copies n s.joins ≡ 0))
      ⊎ ((rc ≡ ok)
          × (s.count ≡ suc s'.count)
          × (s'.completed ≡ s.completed)
          × (s'.completed_count ≡ s.completed_count)
          × (copies m s.joins
              ≡ (if same_name n m then suc (copies m s'.joins) else copies m s'.joins)))
unfolding remove_pending_join Dropped
remove_copies s n m v =
    ground
      (arith, remove_slot-Dropped n m s.joins, remove_slot-Removed n s.joins, count_used-le s.joins)

pop_count :
    {s t : JoinState} {o : Option PendingJoin}
    → IsValid s
    → Popped s t o
    → ((o ≡ none) × (s.count ≡ 0) × (t.count ≡ 0))
      ⊎ ((p : PendingJoin) × (o ≡ some p) × (s.count ≡ suc t.count))
pop_count v (nothing e) = inl (refl, ground arith, ground arith)
pop_count {s} v (oldest i p g u m) =
    inr (p, refl, ground (arith, count_used-set-clear s.joins i g u, count_used-le s.joins))

pub pop-none : {s : JoinState} → IsValid s → (pop_oldest_pending_join s).1 ≡ none → s.count ≡ 0
pop-none {s} v e = elim (pop_count v (pop-Popped s)) [ inl (_, z, _) ↦ z | inr (p, e', _) ↦ cc ]

drop_rounds_count :
    (n k : ℕ) {s : JoinState}
    → IsValid s
    → let (t, removed) = drop_rounds n k s in
      (removed ≡ k + min n s.count) × (t.count ≡ s.count - n)
unfolding drop_rounds
drop_rounds_count zero k v = omega arith
drop_rounds_count (suc n) k {s} v = elim (pop_count v (pop-Popped s)) [
  | inl (e, z, z') ↦ rw (e, drop_rounds) (omega arith)
  | inr (p, e, c) ↦
      let (r, d) = drop_rounds_count n (suc k) (pop-IsValid v) in rw (e, drop_rounds) (omega arith)
]

-- `drop_oldest_pending_joins` removes min (max_remove, count) entries, and says so.
pub drop_oldest_count :
    (s : JoinState) (n : ℕ)
    → IsValid s
    → let (t, removed) = drop_oldest_pending_joins s n in
      (removed ≡ min n s.count) × (t.count ≡ s.count - n)
unfolding drop_oldest_pending_joins
drop_oldest_count s n v = omega (arith, drop_rounds_count n 0 v)

abbrev pub pruned : ℕ → ℕ → List PendingJoin → List PendingJoin
pruned now ttl = map λ p. if expired now ttl p then clear p else p

prune_slots-pruned :
    (now ttl : ℕ) (ps : List PendingJoin) (c : ℕ) → (prune_slots now ttl ps c).0 ≡ pruned now ttl ps
unfolding prune_slots
prune_slots-pruned now ttl [] c = refl
prune_slots-pruned now ttl (p ∷ ps) c =
    ap (◌∷◌ (if expired now ttl p then clear p else p)) (prune_slots-pruned now ttl ps _)

-- `prune_joins` frees exactly the expired entries, and `count` counts what is left.
pub prune_joins-pruned :
    (s : JoinState) (now ttl : ℕ)
    → IsValid s
    → prune_joins s now ttl
      ≡ record s { joins = pruned now ttl s.joins; count = count_used (pruned now ttl s.joins) }
unfolding prune_joins
prune_joins-pruned s now ttl v = ground (
  arith,
  prune_slots-pruned now ttl s.joins s.count,
  count_used-le s.joins,
  prune_slots_counts now ttl s.joins s.count,
)
