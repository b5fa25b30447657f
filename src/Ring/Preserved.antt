-- ===== src/Ring/Preserved.antt =====
-- What every handler keeps, a round of the loop of src/ring.c keeps: the handlers' laws as an
-- interface, and the composition of the round over it.
use psi_project.Base.{
  ℕ, zero, suc, ◌≡◌, refl, Bool, Option, none, some, Rc, ok, err, Bool-cases, Rc-cases, inl, inr,
  not, ◌&&◌,
}
use psi_project.Join.{prune_joins}
use psi_project.Node.{RingState}
use psi_project.Wire.{UnicastMsg}
use psi_project.Link.{
  Link, Received, message, nothing, failed, Timeout, Selected, ready, interrupted, broken,
}
use psi_project.JoinFsm.{join_fsm_request_tick, join_fsm_maybe_complete, join_fsm_inflight_tick}
use psi_project.Dispatch.{unicast_dispatch_message}
use psi_project.Ring.{
  Next, again, stop, join_ack_sender_tick, handle_broadcast_if_ready, handle_cli_if_ready,
  handle_token_if_ready, unicast_pass, unicast_loop, handle_unicast_if_ready, finish_round,
  after_select, ring_round, join_pending_ttl_s,
}

-- A predicate of a node and the layers below it that every handler and every call of the loop keep.
pub record Preserved {W : Type 0} (net : Link W) (P : RingState → W → Type 0) : Type 0 where
  pub time : (s : RingState) (w : W) → P s w → P s (net.time w).1
  pub select : (s : RingState) (w : W) (t : Timeout) → P s w → P s (net.select w t).2
  pub recv : (s : RingState) (w : W) → P s w → P s (net.recv w).1
  pub prune :
      (s : RingState) (w : W) (now : ℕ)
      → P s w
      → P (record s { join_state = prune_joins s.join_state now join_pending_ttl_s }) w
  pub ack_sender_tick :
      (s : RingState) (w : W) → P s w → let (rc, t, w') = join_ack_sender_tick net s w in P t w'
  pub request_tick :
      (s : RingState) (w : W) → P s w → let (rc, t, w') = join_fsm_request_tick net s w in P t w'
  pub inflight_tick :
      (s : RingState) (w : W) → P s w → let (rc, t, w') = join_fsm_inflight_tick net s w in P t w'
  pub maybe_complete :
      (s : RingState) (w : W) → P s w → let (t, w') = join_fsm_maybe_complete net s w in P t w'
  pub dispatch :
      (s : RingState) (m : UnicastMsg) (w : W)
      → (net.recv w).0 ≡ message m
      → P s w
      → let (rc, t, w') = unicast_dispatch_message net s m (net.recv w).1 in P t w'
  pub broadcast :
      (b : Bool) (s : RingState) (w : W)
      → P s w
      → let (rc, t, w') = handle_broadcast_if_ready net b s w in P t w'
  pub cli :
      (b : Bool) (s : RingState) (w : W)
      → P s w
      → let (rc, t, w') = handle_cli_if_ready net b s w in P t w'
  pub token :
      (s : RingState) (w : W) → P s w → let (rc, t, w') = handle_token_if_ready net s w in P t w'

module _ {W : Type 0} (P : RingState → W → Type 0) where
  -- The predicate after a round, also where the round ends the loop.
  abbrev pub InNext : Next W → Type 0
  InNext (again s t w) = P s w
  InNext (stop rc s w) = P s w

  abbrev pub InRound : Option (Next W) → Type 0
  InRound none = Unit
  InRound (some next) = InNext next

module _ {W : Type 0} (net : Link W) (P : RingState → W → Type 0) (keeps : Preserved net P) where
  InPass : Option (Rc × RingState) → RingState → W → Type 0
  InPass none s w = P s w
  InPass (some (rc, t)) s w = P t w

  pass-P : (s : RingState) (w : W) → P s w → let (o, w') = unicast_pass net s w in InPass o s w'
  unfolding unicast_pass InPass
  pass-P s w h = pass (net.recv w).0 refl
    where
      pass :
          (r : Received) → (net.recv w).0 ≡ r → let (o, w') = unicast_pass net s w in InPass o s w'
      pass nothing e = rw (e, unicast_pass) (keeps.recv s w h)
      pass failed e = rw (e, unicast_pass) (keeps.recv s w h)
      pass (message m) e =
          let d = unicast_dispatch_message net s m (net.recv w).1 in
          let dp = keeps.dispatch s m w e h in
          elim (Rc-cases d.0) [
            | inr f ↦ rw (e, unicast_pass, f) dp
            | inl f ↦ rw (e, unicast_pass, f) (keeps.maybe_complete d.1 d.2 dp)
          ]

  InLoop : Option (Rc × RingState × W) → Type 0
  InLoop none = Unit
  InLoop (some (rc, t, w')) = P t w'

  loop-P : (fuel : ℕ) (s : RingState) (w : W) → P s w → InLoop (unicast_loop net fuel s w)
  unfolding unicast_loop InLoop InPass
  loop-P zero s w h = tt
  loop-P (suc fuel) s w h =
      pass (unicast_pass net s w).0 refl (pass-P s w h) (λ s1 b. loop-P fuel s1 _ b)
    where
      w1 : W
      w1 = (unicast_pass net s w).1

      pass :
          (o : Option (Rc × RingState))
          → (unicast_pass net s w).0 ≡ o
          → InPass (unicast_pass net s w).0 s w1
          → ((s1 : RingState) → P s1 w1 → InLoop (unicast_loop net fuel s1 w1))
          → InLoop (unicast_loop net (suc fuel) s w)
      pass none e p ih = rw (e, unicast_loop) (rw e at p)
      pass (some (err, s1)) e p ih = rw (e, unicast_loop) (rw e at p)
      pass (some (ok, s1)) e p ih = elim (Bool-cases (net.has_pending w1)) [
        | inl more ↦ rw (e, unicast_loop, more) (ih s1 (rw e at p))
        | inr done ↦ rw (e, unicast_loop, done) (rw e at p)
      ]

  unicast_if_ready-P :
      (fuel : ℕ) (is_set : Bool) (s : RingState) (w : W)
      → P s w
      → InLoop (handle_unicast_if_ready net fuel is_set s w)
  unfolding handle_unicast_if_ready InLoop
  unicast_if_ready-P fuel is_set s w h = elim (Bool-cases (not (net.has_pending w) && not is_set)) [
    | inl e ↦ rw (e, handle_unicast_if_ready) h
    | inr e ↦ rw (e, handle_unicast_if_ready) (loop-P fuel s w h)
  ]

  finish-P :
      (bc cli : Bool) (s : RingState) (t : Timeout) (w : W)
      → P s w
      → InNext P (finish_round net bc cli s t w)
  unfolding finish_round
  finish-P bc cli s t w h =
      let (s1, w1) = join_fsm_maybe_complete net s w in
      let (rc2, s2, w2) = handle_broadcast_if_ready net bc s1 w1 in
      let (rc3, s3, w3) = handle_cli_if_ready net cli s2 w2 in
      let bp = keeps.broadcast bc s1 w1 (keeps.maybe_complete s w h) in
      let cp = keeps.cli cli s2 w2 bp in
      let kp = keeps.token s3 w3 cp in
      elim (Rc-cases rc2) [
        | inr e ↦ rw (e, finish_round) bp
        | inl e ↦ elim (Rc-cases rc3) [
          | inr e3 ↦ rw (e, e3, finish_round) cp
          | inl e3 ↦ elim (Rc-cases (handle_token_if_ready net s3 w3).0) [
            | inr e4 ↦ rw (e, e3, e4, finish_round) kp
            | inl e4 ↦ rw (e, e3, e4, finish_round) kp
          ]
        ]
      ]

  handled-P :
      (bc cli : Bool) (t : Timeout) (o : Option (Rc × RingState × W))
      → InLoop o
      → InRound P (elim o [
        | none ↦ none
        | some (err, s3, w3) ↦ some (stop ok s3 w3)
        | some (ok, s3, w3) ↦ some (finish_round net bc cli s3 t w3)
      ])
  unfolding InLoop
  handled-P bc cli t none v = tt
  handled-P bc cli t (some (err, s3, w3)) v = v
  handled-P bc cli t (some (ok, s3, w3)) v = finish-P bc cli s3 t w3 v

  after_select-P :
      (fuel : ℕ) (sel : Selected) (s : RingState) (t : Timeout) (w : W)
      → P s w
      → InRound P (after_select net fuel sel s t w)
  unfolding after_select
  after_select-P fuel sel s t w h =
      let r = join_fsm_request_tick net s w in
      let i = join_fsm_inflight_tick net r.1 r.2 in
      let rp = keeps.request_tick s w h in
      let ip = keeps.inflight_tick r.1 r.2 rp in
      elim (Rc-cases r.0) [
        | inr e ↦ rw (e, after_select) rp
        | inl e ↦ elim (Rc-cases i.0) [
          | inr e2 ↦ rw (e, e2, after_select) ip
          | inl e2 ↦ rw (e, e2, after_select) (answer sel i.1 i.2 ip)
        ]
      ]
    where
      answer :
          (sel : Selected) (s2 : RingState) (w2 : W)
          → P s2 w2
          → InRound P (elim sel [
            | interrupted ↦ some (again s2 t w2)
            | broken ↦ some (stop err s2 w2)
            | ready uni bc cli ↦ elim (handle_unicast_if_ready net fuel uni s2 w2) [
              | none ↦ none
              | some (err, s3, w3) ↦ some (stop ok s3 w3)
              | some (ok, s3, w3) ↦ some (finish_round net bc cli s3 t w3)
            ]
          ])
      answer interrupted s2 w2 b = b
      answer broken s2 w2 b = b
      answer (ready uni bc cli) s2 w2 b =
          handled-P bc cli t (handle_unicast_if_ready net fuel uni s2 w2)
            (unicast_if_ready-P fuel uni s2 w2 b)

  -- A round keeps what its handlers keep, however it ends.
  pub round-P :
      (fuel : ℕ) (s : RingState) (t : Timeout) (w : W)
      → P s w
      → InRound P (ring_round net fuel s t w)
  unfolding ring_round
  round-P fuel s t w h =
      let a = join_ack_sender_tick net s w in
      let w2 = (net.time a.2).1 in
      let ap = keeps.ack_sender_tick s w h in
      let pruned = keeps.prune a.1 w2 (net.time a.2).0 (keeps.time a.1 a.2 ap) in
      elim (Rc-cases a.0) [
        | inr e ↦ rw (e, ring_round) ap
        | inl e ↦
            rw (e, ring_round)
              (after_select-P fuel _ _ _ _
                (keeps.select _ (net.time w2).1 _ (keeps.time _ w2 pruned)))
      ]
