-- ===== src/Join.antt =====
-- The join tables of a node: src/join.c with the types of src/include/join.h.
-- `joins` and `completed` are the arrays of MAX_PENDING_JOINS entries. An `int` used as a flag is a
-- Bool; `time_t` is a number of seconds, and `time (NULL)` is the argument `now`.
pub mod Slots
pub mod Invariant
pub mod Pending
pub mod Leaving
pub mod Completed
mod Examples
use psi_project.Base.{
  ℕ, zero, suc, ◌+◌, ◌-◌, Bool, true, false, ◌&&◌, ◌||◌, not, Option, none, some, List, [], ◌∷◌,
  ◌++◌, ltb, leb, if◌then◌else◌, size_inc, size_dec, Rc, ok, err, take, drop, set, get_elem?,
  replicate,
}
use psi_project.Cstr.{Name, copy_name, same_name, strncmp}

abbrev pub max_pending_joins : ℕ
max_pending_joins = 32

pub record JoinRequest : Type 0 where
  pub request_id : ℕ
  pub node_name : Name
  pub unicast_port : ℕ

pub record CompletedJoin : Type 0 where
  pub request_id : ℕ
  pub node_name : Name

pub record PendingJoin : Type 0 where
  pub used : Bool
  pub request_id : ℕ
  pub node_name : Name
  pub unicast_port : ℕ
  pub ip : ℕ
  pub last_seen : ℕ

pub record JoinState : Type 0 where
  pub joins : List PendingJoin
  pub count : ℕ
  pub completed : List CompletedJoin
  pub completed_count : ℕ

-- The values that `{0}` gives.
abbrev pub no_name : Name
no_name = replicate 32 0

abbrev pub no_pending : PendingJoin
no_pending = record {
  used = false;
  request_id = 0;
  node_name = no_name;
  unicast_port = 0;
  ip = 0;
  last_seen = 0;
}

abbrev pub no_completed : CompletedJoin
no_completed = record { request_id = 0; node_name = no_name }

abbrev pub empty_join_state : JoinState
empty_join_state = record {
  joins = replicate 32 no_pending;
  count = 0;
  completed = replicate 32 no_completed;
  completed_count = 0;
}

-- `used && strncmp (joins[i].node_name, node_name, MAX_NODE_NAME_SIZE) == 0`.
abbrev pub holds : Name → PendingJoin → Bool
holds n p = p.used && same_name p.node_name n

pub refreshed : JoinRequest → ℕ → ℕ → PendingJoin → PendingJoin
refreshed r ip now p = record p {
  request_id = r.request_id;
  last_seen = now;
  ip = ip;
  unicast_port = r.unicast_port;
}

pub admitted : JoinRequest → ℕ → ℕ → PendingJoin
admitted r ip now = record {
  used = true;
  request_id = r.request_id;
  node_name = copy_name r.node_name;
  unicast_port = r.unicast_port;
  ip = ip;
  last_seen = now;
}

-- A loop that goes on past the entry `a`.
abbrev pub past {ℓ} : {A : Type ℓ} → A → Option (List A) → Option (List A)
past a none = none
past a (some as') = some (a ∷ as')

abbrev pub past_counted {ℓ} : {A : Type ℓ} → A → Option (List A × Bool) → Option (List A × Bool)
past_counted a none = none
past_counted a (some (as', grown)) = some (a ∷ as', grown)

-- The loop of `add_pending_join`: the new array, and whether `count` grows; `none` falls through.
pub add_slot : JoinRequest → ℕ → ℕ → List PendingJoin → Option (List PendingJoin × Bool)
unfolding refreshed admitted strncmp
add_slot r ip now [] = none
add_slot r ip now (p ∷ ps) =
    if holds r.node_name p
    then some (refreshed r ip now p ∷ ps, false)
    else if not p.used
    then some (admitted r ip now ∷ ps, true)
    else past_counted p (add_slot r ip now ps)

unfoldable pub add_pending_join : JoinState → JoinRequest → ℕ → ℕ → JoinState × Rc
unfolding add_slot
add_pending_join s r ip now =
    if leb max_pending_joins s.count then (s, err) else elim (add_slot r ip now s.joins) [
      | none ↦ (s, err)
      | some (joins, grown) ↦
          (record s { joins = joins; count = if grown then size_inc s.count else s.count }, ok)
    ]

pub clear : PendingJoin → PendingJoin
clear p = record p { used = false }

pub remove_slot : Name → List PendingJoin → Option (List PendingJoin)
unfolding clear strncmp
remove_slot n [] = none
remove_slot n (p ∷ ps) = if holds n p then some (clear p ∷ ps) else past p (remove_slot n ps)

unfoldable pub remove_pending_join : JoinState → Name → JoinState × Rc
unfolding remove_slot
remove_pending_join s n = elim (remove_slot n s.joins) [
  | none ↦ (s, err)
  | some joins ↦ (record s { joins = joins; count = size_dec s.count }, ok)
]

-- A round of the scan of `pop_oldest_pending_join`: `oldest_index` with `oldest_time`, `none` for -1.
pub better : ℕ → Option (ℕ × ℕ) → PendingJoin → Option (ℕ × ℕ)
better i none p = if p.used then some (i, p.last_seen) else none
better i (some (j, t)) p =
    if p.used && ltb p.last_seen t then some (i, p.last_seen) else some (j, t)

pub scan_oldest : ℕ → Option (ℕ × ℕ) → List PendingJoin → Option (ℕ × ℕ)
unfolding better
scan_oldest i best [] = best
scan_oldest i best (p ∷ ps) = scan_oldest (suc i) (better i best p) ps

-- `*out` is written on success only.
unfoldable pub pop_oldest_pending_join : JoinState → JoinState × Option PendingJoin
unfolding scan_oldest clear
pop_oldest_pending_join s = elim (scan_oldest 0 none s.joins) [
  | none ↦ (s, none)
  | some (i, _) ↦ elim (get_elem? s.joins i) [
    | none ↦ (s, none)
    | some p ↦ (record s { joins = set s.joins i (clear p); count = size_dec s.count }, some p)
  ]
]

-- The `while` loop makes at most `max_remove` rounds, so it recurs on the rounds left.
pub drop_rounds : ℕ → ℕ → JoinState → JoinState × ℕ
drop_rounds zero removed s = (s, removed)
drop_rounds (suc n) removed s =
    let (s', popped) = pop_oldest_pending_join s in
    elim popped [ none ↦ (s', removed) | some _ ↦ drop_rounds n (suc removed) s' ]

unfoldable pub drop_oldest_pending_joins : JoinState → ℕ → JoinState × ℕ
unfolding drop_rounds pop_oldest_pending_join
drop_oldest_pending_joins s max_remove = drop_rounds max_remove 0 s

-- The loop over the first `completed_count` entries.
pub seen : Name → List CompletedJoin → Bool
unfolding strncmp
seen n [] = false
seen n (c ∷ cs) = same_name c.node_name n || seen n cs

unfoldable pub join_state_is_completed : JoinState → Name → Bool
unfolding seen
join_state_is_completed s n = seen n (take s.completed_count s.completed)

-- The first loop of `join_state_record_completed`; `none` when no entry has the name.
pub update_completed : ℕ → Name → ℕ → List CompletedJoin → Option (List CompletedJoin)
unfolding strncmp
update_completed zero n id cs = none
update_completed (suc k) n id [] = none
update_completed (suc k) n id (c ∷ cs) =
    if same_name c.node_name n
    then some (record c { request_id = id } ∷ cs)
    else past c (update_completed k n id cs)

-- `for (i = 1; i < k; i++) completed[i - 1] = completed[i]`: the last of the k entries stays twice.
pub shift_down : ℕ → List CompletedJoin → List CompletedJoin
shift_down zero cs = cs
shift_down (suc k) [] = []
shift_down (suc zero) (c ∷ cs) = c ∷ cs
shift_down (suc (suc k)) (c ∷ []) = c ∷ []
shift_down (suc (suc k)) (c ∷ d ∷ cs) = d ∷ shift_down (suc k) (d ∷ cs)

pub completed_entry : Name → ℕ → CompletedJoin
completed_entry n id = record { request_id = id; node_name = copy_name n }

unfoldable pub join_state_record_completed : JoinState → Name → ℕ → JoinState
unfolding update_completed shift_down completed_entry
join_state_record_completed s n id = elim (update_completed s.completed_count n id s.completed) [
  | some completed ↦ record s { completed = completed }
  | none ↦
      if leb max_pending_joins s.completed_count
      then record s {
        completed =
            set (shift_down s.completed_count s.completed) (s.completed_count - 1)
              (completed_entry n id);
      }
      else record s {
        completed = set s.completed s.completed_count (completed_entry n id);
        completed_count = size_inc s.completed_count;
      }
]

-- `(now - last_seen) > ttl_seconds`; a `last_seen` after `now` gives a negative difference, which
-- the truncated one turns into 0, and neither is above a ttl.
abbrev pub expired : ℕ → ℕ → PendingJoin → Bool
expired now ttl p = p.used && ltb ttl (now - p.last_seen)

pub prune_slots : ℕ → ℕ → List PendingJoin → ℕ → List PendingJoin × ℕ
unfolding clear
prune_slots now ttl [] count = ([], count)
prune_slots now ttl (p ∷ ps) count =
    let gone = expired now ttl p in
    let (qs, count') = prune_slots now ttl ps (if gone then size_dec count else count) in
    ((if gone then clear p else p) ∷ qs, count')

unfoldable pub prune_joins : JoinState → ℕ → ℕ → JoinState
unfolding prune_slots
prune_joins s now ttl =
    let (joins, count) = prune_slots now ttl s.joins s.count in
    record s { joins = joins; count = count }

-- `tmp` carries the copied name into `join_state_record_completed`.
unfoldable pub join_state_mark_completed_and_prune_pending : JoinState → Name → ℕ → JoinState
unfolding join_state_record_completed remove_pending_join
join_state_mark_completed_and_prune_pending s n id =
    (remove_pending_join (join_state_record_completed s (copy_name n) id) n).0
