-- ===== src/Rudp/Tables/Peers.antt =====
-- The peer table of src/rudp.c as a map from addresses to entries.
use psi_project.Base.{
  ℕ, zero, suc, ◌+◌, ◌≡◌, inl, inr, refl, Bool, true, false, none, some, List, [], ◌∷◌, get_elem?,
  set, arith, All, Bool-cases, Option-cases,
}
use psi_project.Rudp.Tables.{
  Addr, Peer, addr_equal, is_peer, find_peer, free_peer, new_peer, get_peer,
}

addr_equal_refl : (a : Addr) → addr_equal a a ≡ true
addr_equal_refl a = ground arith

addr_equal-eq : (a b : Addr) → addr_equal a b ≡ true → a ≡ b
addr_equal-eq a b h = ground arith

find_peer_found :
    (i : ℕ) (a : Addr) (ps : List Peer) {j : ℕ}
    → find_peer i a ps ≡ some j
    → (k : ℕ) × (p : Peer) × (j ≡ i + k) × (get_elem? ps k ≡ some p) × (is_peer a p ≡ true)
unfolding find_peer
find_peer_found i a [] h = cc
find_peer_found i a (p ∷ ps) {j} h = elim (Bool-cases (is_peer a p)) [
  | inl hit ↦ (0, p, ground arith, refl, hit)
  | inr miss ↦
      let rest : find_peer (suc i) a ps ≡ some j = ground arith in
      let (k, q, e, g, u) = find_peer_found (suc i) a ps rest in (suc k, q, omega arith, g, u)
]

free_peer_found :
    (i : ℕ) (ps : List Peer) {j : ℕ}
    → free_peer i ps ≡ some j
    → (k : ℕ) × (p : Peer) × (j ≡ i + k) × (get_elem? ps k ≡ some p) × (p.used ≡ false)
unfolding free_peer
free_peer_found i [] h = cc
free_peer_found i (p ∷ ps) {j} h = elim (Bool-cases p.used) [
  | inl used ↦
      let rest : free_peer (suc i) ps ≡ some j = ground arith in
      let (k, q, e, g, u) = free_peer_found (suc i) ps rest in (suc k, q, omega arith, g, u)
  | inr free ↦ (0, p, ground arith, refl, free)
]

get_elem?-set {ℓ} :
    {A : Type ℓ} (xs : List A) (i : ℕ) (a b : A)
    → get_elem? xs i ≡ some b
    → get_elem? (set xs i a) i ≡ some a
get_elem?-set [] i a b h = cc
get_elem?-set (x ∷ xs) zero a b h = refl
get_elem?-set (x ∷ xs) (suc i) a b h = get_elem?-set xs i a b h

-- The peer that `get_peer` answers is a used entry of the address that was asked for.
pub get_peer_lem :
    (ps : List Peer) (a : Addr) (create : Bool) {i : ℕ}
    → (get_peer ps a create).0 ≡ some i
    → (p : Peer) × (get_elem? (get_peer ps a create).1 i ≡ some p) × (p.used ≡ true) × (p.addr ≡ a)
unfolding get_peer new_peer
get_peer_lem ps a create {i} h = elim (Option-cases (find_peer 0 a ps)) [
  | inr (j, e) ↦
      let (k, p, ek, g, u) = find_peer_found 0 a ps e in
      (p, ground arith, ground arith, addr_equal-eq p.addr a (ground arith))
  | inl e ↦ elim (Option-cases (free_peer 0 ps)) [
    | inl e2 ↦ ground arith
    | inr (j, e2) ↦
        let (k, p, ek, g, u) = free_peer_found 0 ps e2 in
        let same : j ≡ k = omega arith in
        let at_j : get_elem? ps j ≡ some p = rw same g in
        let there = get_elem?-set ps j (new_peer a) p at_j in
        (new_peer a, ground (arith, there), refl, refl)
  ]
]

find_peer-set_new :
    (i : ℕ) (a b : Addr) (ps : List Peer) (k : ℕ) {p : Peer}
    → addr_equal a b ≡ false
    → get_elem? ps k ≡ some p
    → p.used ≡ false
    → find_peer i b (set ps k (new_peer a)) ≡ find_peer i b ps
unfolding find_peer new_peer
find_peer-set_new i a b [] k d g u = refl
find_peer-set_new i a b (q ∷ ps) zero d g u = ground arith
find_peer-set_new i a b (q ∷ ps) (suc k) d g u =
    ground (arith, find_peer-set_new (suc i) a b ps k d g u)

-- `get_peer` does not move the entries of other addresses.
pub get_peer_other :
    (ps : List Peer) (a b : Addr) (create : Bool)
    → addr_equal a b ≡ false
    → find_peer 0 b (get_peer ps a create).1 ≡ find_peer 0 b ps
unfolding get_peer
get_peer_other ps a b create d = elim (Option-cases (free_peer 0 ps)) [
  | inl e ↦ ground arith
  | inr (j, e) ↦
      let (k, p, ek, g, u) = free_peer_found 0 ps e in
      let same : j ≡ k = omega arith in
      let at_j : get_elem? ps j ≡ some p = rw same g in
      ground (arith, find_peer-set_new 0 a b ps j d at_j u)
]

free_peer-none : (i : ℕ) (ps : List Peer) → free_peer i ps ≡ none → All (λ p. p.used ≡ true) ps
unfolding free_peer
free_peer-none i [] h = tt
free_peer-none i (p ∷ ps) h = ground (arith, free_peer-none (suc i) ps)

-- Creating a peer fails only if every entry is used, none of them for the address.
pub get_peer_full :
    (ps : List Peer) (a : Addr)
    → (get_peer ps a true).0 ≡ none
    → (find_peer 0 a ps ≡ none) × All (λ p. p.used ≡ true) ps × ((get_peer ps a true).1 ≡ ps)
unfolding get_peer
get_peer_full ps a h = elim (Option-cases (free_peer 0 ps)) [
  | inl e ↦ (ground arith, free_peer-none 0 ps e, ground arith)
  | inr (j, e) ↦ ground arith
]
