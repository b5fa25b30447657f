-- ===== src/Cluster/Members.antt =====
-- The nodes of a ring over time: src/ring.c on every node.
use psi_project.Base.{
  ℕ, zero, suc, ◌≡◌, ◌⊎◌, inl, inr, refl, sym, ap, ◌∙◌, arith, subst, true, false, Option, none,
  some, List, [], ◌∷◌, ◌==◌, ==→eq, Bool-cases, get_elem?, set,
}
use psi_project.Node.{RingState}
use psi_project.Link.{Link, Timeout}
use psi_project.Ring.Identity.{Same, round-Same}
use psi_project.Cluster.{
  Place, absent, running, ended, Cluster, Step, boot, boot_fails, turn, leave, Steps, stay,
  then_step,
}

pub get-set :
    (ps : List Place) (i : ℕ) (p q : Place)
    → get_elem? ps i ≡ some p
    → get_elem? (set ps i q) i ≡ some q
get-set [] i p q e = absurd (ground arith)
get-set (x ∷ ps) zero p q e = refl
get-set (x ∷ ps) (suc i) p q e = get-set ps i p q e

pub get-set_other :
    (ps : List Place) (i j : ℕ) (q : Place)
    → (i == j) ≡ false
    → get_elem? (set ps j q) i ≡ get_elem? ps i
get-set_other [] i j q n = refl
get-set_other (x ∷ ps) zero zero q n = absurd (ground arith)
get-set_other (x ∷ ps) zero (suc j) q n = refl
get-set_other (x ∷ ps) (suc i) zero q n = refl
get-set_other (x ∷ ps) (suc i) (suc j) q n = get-set_other ps i j q (ground arith)

-- A place at which the node that was `o` is still the same, or has ended.
abbrev Stays : RingState → Option Place → Type 0
Stays o (some (running s t)) = Same o s
Stays o (some ended) = Unit
Stays o (some (absent b)) = ⊥
Stays o none = ⊥

module _ {W : Type 0} (nets : ℕ → Link W) (i : ℕ) (o : RingState) where
  -- The place that a step writes is the node's own, or another one.
  written :
      (ps : List Place) (j : ℕ) (p q : Place)
      → get_elem? ps j ≡ some p
      → Stays o (get_elem? ps i)
      → ((Stays o (some p)) → Stays o (some q))
      → Stays o (get_elem? (set ps j q) i)
  written ps j p q e h f = elim (Bool-cases (i == j)) [
    | inl same ↦
        let eq : i ≡ j = ==→eq i j same in
        let was : get_elem? ps i ≡ some p = ap (get_elem? ps) eq ∙ e in
        subst (Stays o) (sym (ap (get_elem? (set ps j q)) eq ∙ get-set ps j p q e))
          (f (subst (Stays o) was h))
    | inr other ↦ subst (Stays o) (sym (get-set_other ps i j q other)) h
  ]

  step-Stays :
      {c d : Cluster W}
      → Step nets c d
      → Stays o (get_elem? c.places i)
      → Stays o (get_elem? d.places i)
  step-Stays (boot {c} {s} {w} j id starts joined config t at e) h =
      written c.places j (absent starts) (running s t) at h (λ x. absurd x)
  step-Stays (boot_fails {c} {s} {w} j id starts joined config at e) h =
      written c.places j (absent starts) ended at h (λ x. absurd x)
  step-Stays (turn {c} {s} {s'} {t} {t'} {w} j fuel at e) h =
      written c.places j (running s t) (running s' t') at h
        (λ x. rw e at (round-Same (nets j) o fuel s t c.world x))
  step-Stays (leave {c} {s} {s'} {t} {w} {rc} j fuel at e) h =
      written c.places j (running s t) ended at h (λ x. tt)

  steps-Stays :
      {c d : Cluster W}
      → Steps nets c d
      → Stays o (get_elem? c.places i)
      → Stays o (get_elem? d.places i)
  steps-Stays stay h = h
  steps-Stays (then_step r step) h = step-Stays step (steps-Stays r h)

-- Between any two moments of a run at which a node is in its loop, its own name and ports are the
-- same, and if it was a member of the ring it still is one, whatever the other nodes do.
pub node_kept :
    {W : Type 0} (nets : ℕ → Link W) (c d : Cluster W) (i : ℕ) (s s' : RingState) (t t' : Timeout)
    → Steps nets c d
    → get_elem? c.places i ≡ some (running s t)
    → get_elem? d.places i ≡ some (running s' t')
    → (s'.config.current ≡ s.config.current) × ((s.joined ≡ false) ⊎ (s'.joined ≡ true))
node_kept nets c d i s s' t t' r a b =
    let start : Stays s (get_elem? c.places i) = subst (Stays s) (sym a) (refl, omega arith) in
    let kept : Same s s' = subst (Stays s) b (steps-Stays nets i s r start) in
    (kept.0, ground (arith, kept.1))
