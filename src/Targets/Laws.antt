-- ===== src/Targets/Laws.antt =====
-- The targets of src/broadcast_targets.c against the list of interfaces, and the result of
-- `send_to_all_targets`.
use psi_project.Base.{
  ℕ, zero, suc, ◌+◌, ◌≡◌, ◌⊎◌, inl, inr, refl, ap, arith, true, false, ◌&&◌, Option, none, some,
  List, [], ◌∷◌, leb, if◌then◌else◌, Rc, ok, ◌↔◌, Rc-cases, take, Bool-cases,
}
use psi_project.Targets.{
  Interface, Target, sockaddr_in_is_valid, broadcast_addr, target, collect,
  broadcast_collect_targets, send_each, send_to_all_targets,
}

-- The target of an interface that is up, broadcasts, and has an IPv4 address and a broadcast address.
pub wanted : ℕ → Interface → Option Target
wanted port ifa =
    if sockaddr_in_is_valid ifa.addr && (ifa.up && ifa.broadcasts)
    then elim (broadcast_addr ifa) [ none ↦ none | some ip ↦ some (target port ifa ip) ]
    else none

-- All of them, in the order of the list.
pub all_wanted : ℕ → List Interface → List Target
all_wanted port [] = []
all_wanted port (ifa ∷ rest) = elim (wanted port ifa) [
  | none ↦ all_wanted port rest
  | some t ↦ t ∷ all_wanted port rest
]

collect-wanted :
    (port room count size : ℕ) (ifas : List Interface)
    → room + count ≡ size
    → collect port size count ifas ≡ take room (all_wanted port ifas)
unfolding collect all_wanted wanted
collect-wanted port zero count size [] h = refl
collect-wanted port (suc room) count size [] h = refl
collect-wanted port zero count size (ifa ∷ rest) h =
    let full : leb size count ≡ true = ground arith in
    ground (arith, collect-wanted port 0 count size rest h)
collect-wanted port (suc room) count size (ifa ∷ rest) h =
    let free : leb size count ≡ false = ground arith in
    ground (
      arith,
      collect-wanted port (suc room) count size rest h,
      collect-wanted port room (suc count) size rest (omega arith),
    )

-- The targets are those of the interfaces that are up, broadcast, and have an IPv4 address and a
-- broadcast address, in the order of getifaddrs, up to the capacity of the array.
pub collect_targets-wanted :
    (ifas : List Interface) (port size : ℕ)
    → broadcast_collect_targets (some ifas) port size ≡ some (take size (all_wanted port ifas))
unfolding broadcast_collect_targets
collect_targets-wanted ifas port size = ap some (collect-wanted port size 0 size ifas (omega arith))

module _ {W : Type 0} (sendto : W → List ℕ → Target → Rc × W) where
  -- Some send in the sequence over the targets works.
  pub Works : List ℕ → List Target → W → Type 0
  Works msg [] w = ⊥
  Works msg (t ∷ ts) w = ((sendto w msg t).0 ≡ ok) ⊎ Works msg ts (sendto w msg t).1

  send_each-true :
      (msg : List ℕ) (ts : List Target) (w : W) → (send_each sendto true msg ts w).0 ≡ true
  unfolding send_each
  send_each-true msg [] w = refl
  send_each-true msg (t ∷ ts) w = ground (arith, send_each-true msg ts (sendto w msg t).1)

  send_each-Works :
      (msg : List ℕ) (ts : List Target) (w : W)
      → ((send_each sendto false msg ts w).0 ≡ true) ↔ Works msg ts w
  unfolding send_each Works
  send_each-Works msg [] w = (λ h. cc, λ k. absurd k)
  send_each-Works msg (t ∷ ts) w =
      let rest = send_each-Works msg ts (sendto w msg t).1 in
      let sure = send_each-true msg ts (sendto w msg t).1 in
      elim (Rc-cases (sendto w msg t).0) [
        | inl e ↦ (λ h. inl e, λ k. rw (send_each, e) sure)
        | inr e ↦ (
          λ h. inr (rest.0 (rw (send_each, e) at h)),
          λ k. elim k [ inl e' ↦ cc | inr later ↦ rw (send_each, e) (rest.1 later) ],
        )
      ]

  -- A broadcast counts as sent exactly if the send to at least one target works; with no target it
  -- fails.
  pub send_to_all_targets-ok_iff :
      (msg : List ℕ) (ts : List Target) (w : W)
      → ((send_to_all_targets sendto msg ts w).0 ≡ ok) ↔ Works msg ts w
  unfolding send_to_all_targets Works
  send_to_all_targets-ok_iff msg [] w = (λ h. cc, λ k. absurd k)
  send_to_all_targets-ok_iff msg (t ∷ ts) w =
      let each = send_each-Works msg (t ∷ ts) w in
      elim (Bool-cases (send_each sendto false msg (t ∷ ts) w).0) [
        | inl worked ↦ (λ h. each.0 worked, λ k. ground arith)
        | inr lost ↦ (λ h. absurd (ground arith), λ k. absurd (ground (arith, each.1 k)))
      ]
