-- ===== src/Join/Pending.antt =====
-- The pending table of src/join.c as a map from names to entries: what an operation does to the
-- entry of a name and to the entries of the others.
use psi_project.Base.{
  ℕ, suc, ◌<◌, ◌≡◌, sym, ◌∙◌, ap, ◌↔◌, inl, inr, Bool, true, false, Option, none, some, List, [],
  ◌∷◌, ◌++◌, if◌then◌else◌, ok, err, All, arith, Bool-cases,
}
use psi_project.Cstr.{Name, same_name, name_size}
use psi_project.Cstr.Laws.{IsName, same_name-copy_name, same_name-copy_left, strncmp_congr}
use psi_project.Join.{
  JoinState, JoinRequest, PendingJoin, max_pending_joins, holds, add_slot, add_pending_join,
  admitted, past_counted,
}
use psi_project.Join.Slots.{count_used-le, add_slot-Added}
use psi_project.Join.Invariant.{IsValid}

-- The first used entry of a name.
pub find_pending : Name → List PendingJoin → Option PendingJoin
find_pending n [] = none
find_pending n (p ∷ ps) = if holds n p then some p else find_pending n ps

-- How many used entries a name has.
unfoldable pub copies : Name → List PendingJoin → ℕ
copies n [] = 0
copies n (p ∷ ps) = if holds n p then suc (copies n ps) else copies n ps

-- `add_pending_join` returns -1 exactly when the table is full, also for a name that is in it.
-- The tables are well formed.
pub add-err_iff :
    (s : JoinState) (r : JoinRequest) (ip now : ℕ)
    → IsValid s
    → ((add_pending_join s r ip now).1 ≡ err) ↔ (s.count ≡ max_pending_joins)
unfolding add_pending_join
add-err_iff s r ip now v =
    (λ h. ground (arith, add_slot-Added r ip now s.joins, count_used-le s.joins), λ h. ground arith)

-- The entry that `add_pending_join` leaves for the name that it was given.
pub Registered : JoinRequest → ℕ → ℕ → Option PendingJoin → Type 0
Registered r ip now none = ⊥
Registered r ip now (some p) =
    (p.request_id ≡ r.request_id)
    × (p.unicast_port ≡ r.unicast_port)
    × (p.ip ≡ ip)
    × (p.last_seen ≡ now)
    × (same_name p.node_name r.node_name ≡ true)

Found : JoinRequest → ℕ → ℕ → Option (List PendingJoin × Bool) → Type 0
Found r ip now none = Unit
Found r ip now (some (qs, grown)) = Registered r ip now (find_pending r.node_name qs)

add_slot-Found :
    (r : JoinRequest) (ip now : ℕ) (ps : List PendingJoin)
    → IsName r.node_name
    → Found r ip now (add_slot r ip now ps)
unfolding add_slot Found Registered find_pending
add_slot-Found r ip now [] h = tt
add_slot-Found r ip now (p ∷ ps) h =
    ground (arith, add_slot-Found r ip now ps h, same_name-copy_name r.node_name h)

-- After a successful `add_pending_join` the name's entry carries the request's id, port, address
-- and time.
pub add-Registered :
    (s : JoinState) (r : JoinRequest) (ip now : ℕ)
    → IsName r.node_name
    → (add_pending_join s r ip now).1 ≡ ok
    → Registered r ip now (find_pending r.node_name (add_pending_join s r ip now).0.joins)
unfolding add_pending_join Found
add-Registered s r ip now h e = ground (arith, add_slot-Found r ip now s.joins h)

Kept : Name → List PendingJoin → Option (List PendingJoin × Bool) → Type 0
Kept m ps none = Unit
Kept m ps (some (qs, grown)) = find_pending m qs ≡ find_pending m ps

-- A used entry of one name is an entry of another only if the names are the same.
pub holds-other : (n m : Name) (p : PendingJoin) → holds n p ≡ true → holds m p ≡ same_name n m
holds-other n m p h = ground (arith, strncmp_congr name_size p.node_name n m)

past-Kept :
    (m : Name) (p : PendingJoin) (ps : List PendingJoin) (o : Option (List PendingJoin × Bool))
    → Kept m ps o
    → Kept m (p ∷ ps) (past_counted p o)
unfolding Kept find_pending
past-Kept m p ps none k = tt
past-Kept m p ps (some (qs, g)) k = ground arith

add_slot-Kept :
    (m : Name) (r : JoinRequest) (ip now : ℕ) (ps : List PendingJoin)
    → IsName r.node_name
    → same_name r.node_name m ≡ false
    → Kept m ps (add_slot r ip now ps)
unfolding add_slot Kept find_pending
add_slot-Kept m r ip now [] h d = tt
add_slot-Kept m r ip now (p ∷ ps) h d = elim (Bool-cases (holds r.node_name p)) [
  | inl hit ↦ let other : holds m p ≡ false = holds-other r.node_name m p hit ∙ d in rw (hit, other)
  | inr miss ↦ elim (Bool-cases p.used) [
    | inl used ↦
        rw miss
          (simp used (past-Kept m p ps (add_slot r ip now ps) (add_slot-Kept m r ip now ps h d)))
    | inr free ↦ rw (miss, free, same_name-copy_left r.node_name m h, d)
  ]
]

-- `add_pending_join` leaves the entry of every other name alone.
pub add-other :
    (s : JoinState) (m : Name) (r : JoinRequest) (ip now : ℕ)
    → IsName r.node_name
    → same_name r.node_name m ≡ false
    → find_pending m (add_pending_join s r ip now).0.joins ≡ find_pending m s.joins
unfolding add_pending_join Kept
add-other s m r ip now h d = ground (arith, add_slot-Kept m r ip now s.joins h d)

add_slot-copies :
    (r : JoinRequest) (ip now : ℕ) (xs ys : List PendingJoin) (free : PendingJoin)
    → IsName r.node_name
    → All (λ p. (p.used ≡ true) × (holds r.node_name p ≡ false)) xs
    → free.used ≡ false
    → (qs : List PendingJoin) × (add_slot r ip now (xs ++ free ∷ ys) ≡ some (qs, true))
      × (copies r.node_name qs ≡ suc (copies r.node_name (xs ++ free ∷ ys)))
unfolding add_slot copies
add_slot-copies r ip now [] ys free h a u =
    (admitted r ip now ∷ ys, ground arith, ground (arith, same_name-copy_name r.node_name h))
add_slot-copies r ip now (x ∷ xs) ys free h a u =
    let (qs, e, c) = add_slot-copies r ip now xs ys free h a.1 u in
    (x ∷ qs, rw (a.0.1, a.0.0, e), rw a.0.1 c)

-- Where a free slot stands behind used entries of other nodes only, a request takes that slot:
-- the node of the request is then in the table once more than before, even if it had an entry
-- behind the slot. The table's count is below MAX_PENDING_JOINS, and the name has a NUL in its
-- 32 bytes.
pub add_duplicates :
    (s : JoinState) (r : JoinRequest) (ip now : ℕ) (xs ys : List PendingJoin) (free : PendingJoin)
    → IsName r.node_name
    → s.count < max_pending_joins
    → s.joins ≡ xs ++ free ∷ ys
    → All (λ p. (p.used ≡ true) × (holds r.node_name p ≡ false)) xs
    → free.used ≡ false
    → copies r.node_name (add_pending_join s r ip now).0.joins ≡ suc (copies r.node_name s.joins)
unfolding add_pending_join
add_duplicates s r ip now xs ys free h b e a u =
    let (qs, added, c) = add_slot-copies r ip now xs ys free h a u in
    let here : add_slot r ip now s.joins ≡ some (qs, true) = ap (add_slot r ip now) e ∙ added in
    let more : copies r.node_name qs ≡ suc (copies r.node_name s.joins) =
      c ∙ ap (λ l. suc (copies r.node_name l)) (sym e) in
    ground arith
