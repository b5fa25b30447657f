-- ===== src/Join/Completed.antt =====
-- The completed joins of src/join.c as a bounded log, the oldest first.
use psi_project.Base.{
  length-take_le, ℕ, zero, suc, ◌-◌, ◌<◌, ◌≡◌, refl, ap, subst, inl, inr, true, false, Option, none,
  some, List, [], ◌∷◌, ◌++◌, leb, if◌then◌else◌, length, set, take, drop, arith, Option-cases,
  Bool-cases, size_inc, ◌||◌,
}
use psi_project.Cstr.{Name, same_name}
use psi_project.Cstr.Laws.{IsName, same_name-copy_name}
use psi_project.Join.{
  JoinState, CompletedJoin, max_pending_joins, seen, join_state_is_completed, update_completed,
  shift_down, completed_entry, past, join_state_record_completed,
}
use psi_project.Join.Invariant.{IsValid}

-- The entries that count.
abbrev pub recent : JoinState → List CompletedJoin
recent s = take s.completed_count s.completed

-- The log: a name that is in it gets the new id, another goes to the end, and a full log forgets
-- its oldest entry.
renewed : Name → ℕ → List CompletedJoin → List CompletedJoin
renewed n id [] = []
renewed n id (c ∷ cs) =
    if same_name c.node_name n then record c { request_id = id } ∷ cs else c ∷ renewed n id cs

pub logged : Name → ℕ → List CompletedJoin → List CompletedJoin
unfolding renewed completed_entry
logged n id cs =
    if seen n cs
    then renewed n id cs
    else drop (suc (length cs) - max_pending_joins) cs ++ completed_entry n id ∷ []

Updated : ℕ → Name → ℕ → List CompletedJoin → Option (List CompletedJoin) → Type 0
Updated k n id cs none = seen n (take k cs) ≡ false
Updated k n id cs (some ds) = (seen n (take k cs) ≡ true) × (take k ds ≡ renewed n id (take k cs))

past-Updated :
    (k : ℕ) (n : Name) (id : ℕ) (c : CompletedJoin) (cs : List CompletedJoin)
    (o : Option (List CompletedJoin))
    → same_name c.node_name n ≡ false
    → Updated k n id cs o
    → Updated (suc k) n id (c ∷ cs) (past c o)
unfolding Updated seen renewed
past-Updated k n id c cs none h u = rw h u
past-Updated k n id c cs (some ds) h u = rw h (u.0, ap (◌∷◌ c) u.1)

update_completed-Updated :
    (k : ℕ) (n : Name) (id : ℕ) (cs : List CompletedJoin)
    → Updated k n id cs (update_completed k n id cs)
unfolding update_completed Updated seen renewed
update_completed-Updated zero n id cs = refl
update_completed-Updated (suc k) n id [] = refl
update_completed-Updated (suc k) n id (c ∷ cs) = elim (Bool-cases (same_name c.node_name n)) [
  | inl hit ↦ rw hit (rw (hit, seen) refl, rw (hit, renewed) refl)
  | inr miss ↦ rw miss (past-Updated k n id c cs _ miss (update_completed-Updated k n id cs))
]

take-set_last {ℓ} :
    {A : Type ℓ} (k : ℕ) (xs : List A) (a : A)
    → k < length xs
    → take (suc k) (set xs k a) ≡ take k xs ++ a ∷ []
take-set_last k [] a h = absurd (omega arith)
take-set_last zero (x ∷ xs) a h = refl
take-set_last (suc k) (x ∷ xs) a h = ap (◌∷◌ x) (take-set_last k xs a (omega arith))

set-shift_down :
    (c : CompletedJoin) (cs : List CompletedJoin) (e : CompletedJoin)
    → set (shift_down (suc (length cs)) (c ∷ cs)) (length cs) e ≡ cs ++ e ∷ []
unfolding shift_down
set-shift_down c [] e = refl
set-shift_down c (d ∷ cs) e = ap (◌∷◌ d) (set-shift_down d cs e)

take_all {ℓ} : {A : Type ℓ} (xs : List A) → take (length xs) xs ≡ xs
take_all [] = refl
take_all (x ∷ xs) = ap (◌∷◌ x) (take_all xs)

take_snoc {ℓ} :
    {A : Type ℓ} (xs : List A) (a : A) → take (suc (length xs)) (xs ++ a ∷ []) ≡ xs ++ a ∷ []
take_snoc [] a = refl
take_snoc (x ∷ xs) a = ap (◌∷◌ x) (take_snoc xs a)

full_shift :
    (k : ℕ) (cs : List CompletedJoin) (e : CompletedJoin)
    → length cs ≡ k
    → 0 < k
    → take k (set (shift_down k cs) (k - 1) e) ≡ drop 1 (take k cs) ++ e ∷ []
full_shift k [] e h b = absurd (omega arith)
full_shift k (c ∷ cs) e h b =
    subst (λ k. take k (set (shift_down k (c ∷ cs)) (k - 1) e) ≡ drop 1 (take k (c ∷ cs)) ++ e ∷ [])
      h (rw (sub-one_suc, set-shift_down c cs e, take_all cs) (take_snoc cs e))
  where
    sub-one_suc : suc (length cs) - 1 ≡ length cs
    sub-one_suc = omega arith

record_new :
    (s : JoinState) (n : Name) (id : ℕ)
    → IsValid s
    → update_completed s.completed_count n id s.completed ≡ none
    → recent (join_state_record_completed s n id)
      ≡ drop (suc (length (recent s)) - max_pending_joins) (recent s) ++ completed_entry n id ∷ []
unfolding join_state_record_completed
record_new s n id v e = elim (Bool-cases (leb max_pending_joins s.completed_count)) [
  | inl full ↦
      let one : suc (length (recent s)) - max_pending_joins ≡ 1 =
        ground (arith, length-take_le s.completed_count s.completed) in
      rw (one, e, join_state_record_completed, full)
        (full_shift s.completed_count s.completed (completed_entry n id) (ground arith)
          (ground arith))
  | inr room ↦
      let zero_drop : suc (length (recent s)) - max_pending_joins ≡ 0 =
        ground (arith, length-take_le s.completed_count s.completed) in
      let next : size_inc s.completed_count ≡ suc s.completed_count = ground arith in
      rw (zero_drop, e, join_state_record_completed, room, next)
        (take-set_last s.completed_count s.completed (completed_entry n id) (ground arith))
]

-- `join_state_record_completed` keeps the log of the last MAX_PENDING_JOINS completed joins. The
-- tables are well formed.
pub recent-record :
    (s : JoinState) (n : Name) (id : ℕ)
    → IsValid s
    → recent (join_state_record_completed s n id) ≡ logged n id (recent s)
unfolding logged join_state_record_completed Updated
recent-record s n id v = elim (Option-cases (update_completed s.completed_count n id s.completed)) [
  | inl e ↦
      ground
        (arith, record_new s n id v, update_completed-Updated s.completed_count n id s.completed)
  | inr (ds, e) ↦ ground (arith, update_completed-Updated s.completed_count n id s.completed)
]

seen-append : (m : Name) (xs ys : List CompletedJoin) → seen m (xs ++ ys) ≡ (seen m xs || seen m ys)
unfolding seen
seen-append m [] ys = refl
seen-append m (x ∷ xs) ys = ground (arith, seen-append m xs ys)

seen-renewed :
    (m n : Name) (id : ℕ) (cs : List CompletedJoin) → seen m (renewed n id cs) ≡ seen m cs
unfolding seen renewed
seen-renewed m n id [] = refl
seen-renewed m n id (c ∷ cs) = ground (arith, seen-renewed m n id cs)

-- A recorded node is answered as completed from then on.
pub completed-record :
    (s : JoinState) (n : Name) (id : ℕ)
    → IsValid s
    → IsName n
    → join_state_is_completed (join_state_record_completed s n id) n ≡ true
unfolding join_state_is_completed logged seen
completed-record s n id v h =
    let kept = recent-record s n id v in
    let old = drop (suc (length (recent s)) - max_pending_joins) (recent s) in
    let again = seen-renewed n n id (recent s) in
    let joined = seen-append n old (completed_entry n id ∷ []) in
    rw kept (ground (arith, again, joined, same_name-copy_name n h))
