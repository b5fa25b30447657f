-- ===== src/Ring/Rounds.antt =====
-- The invariant of Ring/Invariant over whole rounds of `ring_run`, and over every run.
use psi_project.Base.{ℕ, ◌≡◌, Bool, true, false, some, ok, arith, Option-cases, inl, inr, subst}
use psi_project.Join.{PendingJoin, pop_oldest_pending_join}
use psi_project.Join.Invariant
use psi_project.Node.{RingState, RouteConfig, init_ring_state}
use psi_project.Link.{Link, Timeout}
use psi_project.JoinFsm.{join_fsm_start_inflight, join_fsm_inflight_tick}
use psi_project.Ring.{
  take_cli, maybe_send_initial_token, again, ring_on_token, join_ack_sender_tick,
  init_join_request_if_needed, handle_broadcast_if_ready, handle_cli_if_ready,
  handle_token_if_ready, ring_round, join_pending_ttl_s,
}
use psi_project.Ring.Preserved.{InRound, Preserved, round-P}
use psi_project.Ring.Invariant.{
  Inv, with_tables, init-Inv, start_inflight-Inv, request_tick-Inv, maybe_complete-Inv,
  inflight_tick-Inv, handle_broadcast-Inv, dispatch-Inv,
}

pub initial_token-Inv :
    {s : RingState} (start : Bool) → Inv s → Inv (maybe_send_initial_token start s)
unfolding maybe_send_initial_token
initial_token-Inv start v = ground arith

take_cli-Inv : {s : RingState} → Inv s → Inv (take_cli s)
unfolding take_cli
take_cli-Inv v = ground arith

module _ {W : Type 0} (net : Link W) where
  ack_sender_tick-Inv : {s : RingState} (w : W) → Inv s → Inv (join_ack_sender_tick net s w).1
  unfolding join_ack_sender_tick
  ack_sender_tick-Inv w v = ground arith

  pub init_request-Inv :
      {s : RingState} (id : ℕ) (w : W) → Inv s → Inv (init_join_request_if_needed net id s w).1
  unfolding init_join_request_if_needed
  init_request-Inv {s} id w v =
      let fresh : RingState = record s {
        join_request_id = id;
        join_request_last_sent = 0;
        join_request_retries = 0;
      } in
      ground (arith, request_tick-Inv net {s = fresh} w)

  broadcast_if_ready-Inv :
      {s : RingState} (b : Bool) (w : W) → Inv s → Inv (handle_broadcast_if_ready net b s w).1
  unfolding handle_broadcast_if_ready
  broadcast_if_ready-Inv b w v = ground (arith, handle_broadcast-Inv net w v)

  cli-Inv : {s : RingState} (b : Bool) (w : W) → Inv s → Inv (handle_cli_if_ready net b s w).1
  unfolding handle_cli_if_ready
  cli-Inv b w v = ground arith

  -- The token leaves only where no join is in flight.
  on_token-Inv :
      {s : RingState} (w : W)
      → s.join_inflight.active ≡ false
      → Inv s
      → Inv (ring_on_token net s w).1
  unfolding ring_on_token
  on_token-Inv w a v = ground arith

  started-Inv :
      {s : RingState} (p : PendingJoin) (w : W)
      → s.joined ≡ true
      → s.have_token ≡ true
      → Inv s
      → Inv (join_fsm_inflight_tick net (join_fsm_start_inflight s p) w).1
  started-Inv p w j t v = inflight_tick-Inv net w (start_inflight-Inv p j t v)

  token_if_ready-Inv : {s : RingState} (w : W) → Inv s → Inv (handle_token_if_ready net s w).1
  unfolding handle_token_if_ready
  token_if_ready-Inv {s} w v =
      let t : RingState = record s { join_state = (pop_oldest_pending_join s.join_state).0 } in
      let popped : Inv t = with_tables v (Invariant.pop-IsValid v.tables) in
      elim (Option-cases (pop_oldest_pending_join s.join_state).1) [
        | inl e ↦ ground (arith, popped, on_token-Inv {s = s} w)
        | inr (p, e) ↦ ground (arith, started-Inv {s = t} p w, on_token-Inv {s = s} w)
      ]

  -- Every handler keeps the invariant.
  Inv-Preserved : Preserved net (λ s w. Inv s)
  Inv-Preserved = record {
    time = λ s w v. v;
    select = λ s w t v. v;
    recv = λ s w v. v;
    prune = λ s w now v. with_tables v (Invariant.prune-IsValid now join_pending_ttl_s v.tables);
    ack_sender_tick = λ s w v. ack_sender_tick-Inv w v;
    request_tick = λ s w v. request_tick-Inv net w v;
    inflight_tick = λ s w v. inflight_tick-Inv net w v;
    maybe_complete = λ s w v. maybe_complete-Inv net w v;
    dispatch = λ s m w e v. dispatch-Inv net m _ v;
    broadcast = λ b s w v. broadcast_if_ready-Inv b w v;
    cli = λ b s w v. cli-Inv b w v;
    token = λ s w v. token_if_ready-Inv w v;
  }

  -- A round of the loop, whatever it meets, leaves a state with the invariant.
  pub round-Inv :
      (fuel : ℕ) {s : RingState} (t : Timeout) (w : W)
      → Inv s
      → InRound (λ s' w'. Inv s') (ring_round net fuel s t w)
  round-Inv fuel {s} t w v = round-P net (λ s' w'. Inv s') Inv-Preserved fuel s t w v

-- The states that a node can be in between two rounds: it starts as `ring_run` does, with the id that
-- it draws, and SHOULD_START set or not.
pub data Reach {W : Type 0} (net : Link W) : RingState → Timeout → W → Type 0 where
  start :
      (c : RouteConfig) (joined starts : Bool) (id : ℕ) (t : Timeout) (w : W)
      → (init_join_request_if_needed net id (init_ring_state c joined) w).0 ≡ ok
      → Reach net
          (maybe_send_initial_token starts
            (init_join_request_if_needed net id (init_ring_state c joined) w).1)
          t
          (init_join_request_if_needed net id (init_ring_state c joined) w).2
  round :
      {s s' : RingState} {t t' : Timeout} {w w' : W} (fuel : ℕ)
      → Reach net s t w
      → ring_round net fuel s t w ≡ some (again s' t' w')
      → Reach net s' t' w'

-- In every state that a run of `ring_run` reaches, whatever the layers below answer: the tables of
-- joins are well formed, the counts of retries are within their limits, a join is in flight only at
-- a member that holds the token, and no confirmation is left over from an earlier join.
pub Reach-Inv :
    {W : Type 0} (net : Link W) {s : RingState} {t : Timeout} {w : W} → Reach net s t w → Inv s
Reach-Inv net (start c joined starts id t w e) =
    initial_token-Inv starts (init_request-Inv net id w (init-Inv c joined))
Reach-Inv net (round {s} {s'} {t} {t'} {w} {w'} fuel r e) =
    subst (InRound (λ s w. Inv s)) e (round-Inv net fuel t w (Reach-Inv net r))
