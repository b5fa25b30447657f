-- ===== src/Ring/Stops.antt =====
-- Which rounds end `ring_run` with -1: the loop of src/ring.c.
use psi_project.Base.{
  ℕ, ◌≡◌, ◌≢◌, ◌⊎◌, inl, inr, refl, subst, arith, Bool, Option, none, some, Rc, ok, err, Rc-cases,
}
use psi_project.Node.{RingState}
use psi_project.Link.{Link, Timeout, Selected, ready, interrupted, broken}
use psi_project.JoinFsm.{join_fsm_request_tick, join_fsm_inflight_tick}
use psi_project.Join.{prune_joins}
use psi_project.Deadline.{set_select_timeout}
use psi_project.Ring.{
  Next, again, stop, ring_round, after_select, finish_round, join_ack_sender_tick,
  handle_unicast_if_ready, join_pending_ttl_s,
}

module _ {W : Type 0} (net : Link W) (unicast_fuel : ℕ) where
  -- Not the end of `ring_run` with -1.
  GoesOn : Option (Next W) → Type 0
  GoesOn none = Unit
  GoesOn (some (again s t w)) = Unit
  GoesOn (some (stop ok s w)) = Unit
  GoesOn (some (stop err s w)) = ⊥

  finish-GoesOn :
      (bc cli : Bool) (s : RingState) (t : Timeout) (w : W)
      → GoesOn (some (finish_round net bc cli s t w))
  unfolding finish_round GoesOn
  finish-GoesOn bc cli s t w = ground arith

  after_select-GoesOn :
      (sel : Selected) (s : RingState) (t : Timeout) (w : W)
      → sel ≢ broken
      → GoesOn (after_select net unicast_fuel sel s t w)
  unfolding after_select GoesOn
  after_select-GoesOn sel s t w n =
      let r = join_fsm_request_tick net s w in
      let i = join_fsm_inflight_tick net r.1 r.2 in
      elim (Rc-cases r.0) [
        | inr e ↦ rw (e, after_select) tt
        | inl e ↦ elim (Rc-cases i.0) [
          | inr e2 ↦ rw (e, e2, after_select) tt
          | inl e2 ↦ rw (e, e2, after_select) (answer sel i.1 i.2 n)
        ]
      ]
    where
      answer :
          (sel : Selected) (s2 : RingState) (w2 : W)
          → sel ≢ broken
          → GoesOn (elim sel [
            | interrupted ↦ some (again s2 t w2)
            | broken ↦ some (stop err s2 w2)
            | ready uni bc cli ↦ elim (handle_unicast_if_ready net unicast_fuel uni s2 w2) [
              | none ↦ none
              | some (err, s3, w3) ↦ some (stop ok s3 w3)
              | some (ok, s3, w3) ↦ some (finish_round net bc cli s3 t w3)
            ]
          ])
      answer interrupted s2 w2 b = tt
      answer broken s2 w2 b = b refl
      answer (ready uni bc cli) s2 w2 b =
          handled bc cli (handle_unicast_if_ready net unicast_fuel uni s2 w2)
        where
          handled :
              (bc cli : Bool) (o : Option (Rc × RingState × W))
              → GoesOn (elim o [
                | none ↦ none
                | some (err, s3, w3) ↦ some (stop ok s3 w3)
                | some (ok, s3, w3) ↦ some (finish_round net bc cli s3 t w3)
              ])
          handled bc cli none = tt
          handled bc cli (some (err, s3, w3)) = tt
          handled bc cli (some (ok, s3, w3)) = finish-GoesOn bc cli s3 t w3

  -- What select answers in a round.
  abbrev pub selected : RingState → Timeout → W → Selected × Timeout × W
  selected s t w =
      let (rc, s1, w1) = join_ack_sender_tick net s w in
      let (now, w2) = net.time w1 in
      let s2 = record s1 { join_state = prune_joins s1.join_state now join_pending_ttl_s } in
      let (now', w3) = net.time w2 in
      net.select w3 (set_select_timeout s2 (net.has_pending w2) now' t)

  is_broken : (sel : Selected) → (sel ≡ broken) ⊎ (sel ≢ broken)
  is_broken (ready uni bc cli) = inr (λ e. cc)
  is_broken interrupted = inr (λ e. cc)
  is_broken broken = inl refl

  round-GoesOn :
      (s : RingState) (t : Timeout) (w : W)
      → (selected s t w).0 ≢ broken
      → GoesOn (ring_round net unicast_fuel s t w)
  unfolding ring_round GoesOn
  round-GoesOn s t w n =
      let a = join_ack_sender_tick net s w in
      elim (Rc-cases a.0) [
        | inr e ↦ rw (e, ring_round) tt
        | inl e ↦ rw (e, ring_round) (after_select-GoesOn (selected s t w).0 _ _ _ n)
      ]

  -- A round ends `ring_run` with -1 only where select fails with an error other than EINTR.
  pub stop_err-broken :
      (s s' : RingState) (t : Timeout) (w w' : W)
      → ring_round net unicast_fuel s t w ≡ some (stop err s' w')
      → (selected s t w).0 ≡ broken
  unfolding GoesOn
  stop_err-broken s s' t w w' e = elim (is_broken (selected s t w).0) [
    | inl b ↦ b
    | inr n ↦ absurd (subst GoesOn e (round-GoesOn s t w n))
  ]
