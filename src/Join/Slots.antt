-- ===== src/Join/Slots.antt =====
-- The slots of the pending table (src/join.c): how many are used, what the loops of `add_pending_join`
-- and `remove_pending_join` do to that number, and which entry the scan for the oldest one finds.
use psi_project.Base.{
  ℕ, zero, suc, ◌+◌, ◌≤◌, ◌≡◌, refl, sym, ◌∙◌, ◌⊎◌, inl, inr, Bool, true, false, Option, none, some,
  List, [], ◌∷◌, if◌then◌else◌, length, set, get_elem?, All, arith,
}
use psi_project.Cstr.{Name}
use psi_project.Join.{
  better, JoinRequest, PendingJoin, holds, add_slot, remove_slot, scan_oldest, clear,
}

abbrev pub count_used : List PendingJoin → ℕ
count_used [] = 0
count_used (p ∷ ps) = if p.used then suc (count_used ps) else count_used ps

pub count_used-le : (ps : List PendingJoin) → count_used ps ≤ length ps
count_used-le [] = omega arith
count_used-le (p ∷ ps) = ground (arith, count_used-le ps)

-- What the loop of `add_pending_join` may answer.
abbrev pub Added : List PendingJoin → Option (List PendingJoin × Bool) → Type 0
Added ps none = count_used ps ≡ length ps
Added ps (some (qs, grown)) =
    (length qs ≡ length ps)
    × (count_used qs ≡ (if grown then suc (count_used ps) else count_used ps))

pub add_slot-Added :
    (r : JoinRequest) (ip now : ℕ) (ps : List PendingJoin) → Added ps (add_slot r ip now ps)
unfolding add_slot
add_slot-Added r ip now [] = refl
add_slot-Added r ip now (p ∷ ps) = ground (arith, add_slot-Added r ip now ps)

-- What the loop of `remove_pending_join` may answer.
abbrev pub Removed : Name → List PendingJoin → Option (List PendingJoin) → Type 0
Removed n ps none = All (λ p. holds n p ≡ false) ps
Removed n ps (some qs) = (length qs ≡ length ps) × (suc (count_used qs) ≡ count_used ps)

pub remove_slot-Removed : (n : Name) (ps : List PendingJoin) → Removed n ps (remove_slot n ps)
unfolding remove_slot
remove_slot-Removed n [] = tt
remove_slot-Removed n (p ∷ ps) = ground (arith, remove_slot-Removed n ps)

pub count_used-set-clear :
    (ps : List PendingJoin) (i : ℕ) {p : PendingJoin}
    → get_elem? ps i ≡ some p
    → p.used ≡ true
    → suc (count_used (set ps i (clear p))) ≡ count_used ps
unfolding clear
count_used-set-clear [] i e u = cc
count_used-set-clear (q ∷ ps) zero e u = ground arith
count_used-set-clear (q ∷ ps) (suc i) e u = ground (arith, count_used-set-clear ps i e u)

better_cases :
    (i : ℕ) (best : Option (ℕ × ℕ)) (p : PendingJoin)
    → (better i best p ≡ best) ⊎ ((better i best p ≡ some (i, p.last_seen)) × (p.used ≡ true))
unfolding better
better_cases i none p = ground arith
better_cases i (some (j, t)) p = ground arith

-- The scan answers a used entry, with its time.
pub scan_oldest_found :
    (i : ℕ) (best : Option (ℕ × ℕ)) (ps : List PendingJoin) {j t : ℕ}
    → scan_oldest i best ps ≡ some (j, t)
    → (best ≡ some (j, t))
      ⊎ ((k : ℕ) × (p : PendingJoin) × (j ≡ i + k)
          × (get_elem? ps k ≡ some p)
          × (p.used ≡ true)
          × (p.last_seen ≡ t))
unfolding scan_oldest
scan_oldest_found i best [] h = inl h
scan_oldest_found i best (p ∷ ps) h = elim (scan_oldest_found (suc i) (better i best p) ps h) [
  | inr (k, q, e, g, u, l) ↦ inr (suc k, q, omega arith, g, u, l)
  | inl e ↦ elim (better_cases i best p) [
    | inl same ↦ inl (sym same ∙ e)
    | inr (new, u) ↦ inr (0, p, ground arith, refl, u, ground arith)
  ]
]

abbrev Bound : ℕ → Option (ℕ × ℕ) → Type 0
Bound t none = Unit
Bound t (some (k, u)) = t ≤ u

-- No used entry is older than the one that the scan answers.
abbrev pub NoneOlder : ℕ → List PendingJoin → Type 0
NoneOlder t = All λ p. p.used ≡ true → t ≤ p.last_seen

better-Bound :
    (t i : ℕ) (best : Option (ℕ × ℕ)) (p : PendingJoin)
    → Bound t (better i best p)
    → Bound t best × (p.used ≡ true → t ≤ p.last_seen)
unfolding better
better-Bound t i none p h = ground arith
better-Bound t i (some (j, u)) p h = ground arith

scan_oldest_below :
    (i : ℕ) (best : Option (ℕ × ℕ)) (ps : List PendingJoin) {j t : ℕ}
    → scan_oldest i best ps ≡ some (j, t)
    → Bound t best × NoneOlder t ps
unfolding scan_oldest
scan_oldest_below i best [] {t = t} h = (bound best h, tt)
  where
    bound : (best : Option (ℕ × ℕ)) {j : ℕ} → best ≡ some (j, t) → Bound t best
    bound none h = cc
    bound (some (k, u)) h = ground arith
scan_oldest_below i best (p ∷ ps) {t = t} h =
    let (first, rest) = scan_oldest_below (suc i) (better i best p) ps h in
    let (kept, here) = better-Bound t i best p first in (kept, (here, rest))

pub scan_oldest_min :
    (ps : List PendingJoin) {j t : ℕ} → scan_oldest 0 none ps ≡ some (j, t) → NoneOlder t ps
scan_oldest_min ps h = (scan_oldest_below 0 none ps h).1

pub better-none :
    (i : ℕ) (best : Option (ℕ × ℕ)) (p : PendingJoin)
    → better i best p ≡ none
    → (best ≡ none) × (p.used ≡ false)
unfolding better
better-none i none p h = ground arith
better-none i (some (j, t)) p h = ground arith

pub scan_none :
    (i : ℕ) (best : Option (ℕ × ℕ)) (ps : List PendingJoin)
    → scan_oldest i best ps ≡ none
    → (best ≡ none) × (count_used ps ≡ 0)
unfolding scan_oldest
scan_none i best [] h = (h, refl)
scan_none i best (p ∷ ps) h =
    let (none_before, rest) = scan_none (suc i) (better i best p) ps h in
    ground (arith, better-none i best p none_before)
