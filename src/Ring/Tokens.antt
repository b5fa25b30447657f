-- ===== src/Ring/Tokens.antt =====
-- The token and the command line's message at a node: ring_on_token and the handlers around it in
-- src/ring.c.
use psi_project.Base.{
  ◌<◌, ◌≡◌, ◌⊎◌, inl, inr, Bool, true, false, if◌then◌else◌, arith, Rc, ok, err, some, Option-cases,
}
use psi_project.Cstr.{strcmp}
use psi_project.Join.{PendingJoin, pop_oldest_pending_join, no_name}
use psi_project.Join.Invariant.{IsValid}
use psi_project.Join.Leaving.{pop-none}
use psi_project.Node.{RingState, Token, zero_token, no_text}
use psi_project.Wire.{encode_token}
use psi_project.Wire.Laws.{FitsToken}
use psi_project.Cli.{cli_handle_read}
use psi_project.Cli.Laws.{overwrite-encode_token}
use psi_project.Link.{Link}
use psi_project.JoinFsm.Tick.{inflight_tick_keeps_token}
use psi_project.Base.{◌↔◌, inr, inl, Option-cases}
use psi_project.JoinFsm.{join_fsm_start_inflight, join_fsm_inflight_tick}
use psi_project.Ring.{
  outgoing, take_cli, token_message, ring_on_token, handle_token_if_ready, handle_cli_if_ready,
}

abbrev pub is_for : RingState → Bool
is_for s = strcmp s.token_in.receiver s.config.current.node_name

-- The token that a node sends on. A full token for another node goes on byte for byte. Otherwise the
-- node has an empty one or takes the message out; it then puts its own message in if it has one,
-- with the topology version that it knows, and else passes on an empty token, whose version stays
-- and from which a message that was taken out is erased.
pub outgoing_cases :
    (s : RingState)
    → let out = outgoing s in
      ((s.token_in.is_empty ≡ false) × (is_for s ≡ false) × (out ≡ s.token_in) × (take_cli s ≡ s))
      ⊎ (((s.token_in.is_empty ≡ true) ⊎ (is_for s ≡ true))
          × (((s.have_cli_pending ≡ true)
                × (out ≡ record (s.cli_pending) { topo_version = s.last_seen_topo_version })
                × ((take_cli s).have_cli_pending ≡ false))
              ⊎ ((s.have_cli_pending ≡ false)
                  × (out.is_empty ≡ true)
                  × (out.topo_version ≡ s.token_in.topo_version)
                  × ((s.token_in.is_empty ≡ true)
                      ⊎ ((out.text ≡ no_text) × (out.receiver ≡ no_name))))))
unfolding outgoing take_cli
outgoing_cases s = ground arith

module _ {W : Type 0} (net : Link W) (s : RingState) (w : W) where
  abbrev pub sent : Rc × W
  sent = net.send_limited w (token_message (outgoing s)) s.config.next 2500000 0

  -- A node gives the token away exactly if the send has succeeded; it sends to its successor, once.
  -- After a failed send it has the token that came in.
  pub token_kept :
      let (rc, t, w') = ring_on_token net s w in
      (rc ≡ ok)
      × (w' ≡ sent.1)
      × (((sent.0 ≡ ok) × (t.have_token ≡ false) × (t.token_in ≡ zero_token))
          ⊎ ((sent.0 ≡ err) × (t.have_token ≡ s.have_token) × (t.token_in ≡ s.token_in)))
  unfolding ring_on_token
  token_kept = ground arith

  -- A message from the command line is lost when the send that carries it fails: it is no longer
  -- pending, and the next attempt sends the token without it. The token that came in is empty.
  pub failed_send_loses_message :
      s.token_in.is_empty ≡ true
      → s.have_cli_pending ≡ true
      → sent.0 ≡ err
      → let t = (ring_on_token net s w).1 in
        (outgoing s ≡ record (s.cli_pending) { topo_version = s.last_seen_topo_version })
        × (t.have_token ≡ s.have_token)
        × (t.have_cli_pending ≡ false)
        × (t.cli_pending.text ≡ no_text)
        × (outgoing t ≡ s.token_in)
  unfolding ring_on_token outgoing
  failed_send_loses_message e c f = ground arith

  -- The token leaves a node that has it exactly if the node is a member, no join is in flight or
  -- pending, and the send succeeds.
  pub token_leaves_iff :
      s.have_token ≡ true
      → ((handle_token_if_ready net s w).1.have_token ≡ false) ↔ (
          (s.joined ≡ true)
          × (s.join_inflight.active ≡ false)
          × (s.join_state.count ≡ 0)
          × (sent.0 ≡ ok))
  unfolding handle_token_if_ready ring_on_token join_fsm_start_inflight
  token_leaves_iff h = elim (Option-cases (pop_oldest_pending_join s.join_state).1) [
    | inl e ↦ (λ k. ground arith, λ k. ground arith)
    | inr (p, e) ↦
        let started =
          join_fsm_start_inflight
            (record s { join_state = (pop_oldest_pending_join s.join_state).0 }) p in
        let kept = inflight_tick_keeps_token net started w in (λ k. ground arith, λ k. ground arith)
  ]

  -- A member that has the token and pending joins does not pass the token on: it starts the join
  -- that waits longest, leaves the pending table without that entry, and keeps the token. No
  -- join is in flight, and the tables are well formed.
  pub token_starts_join :
      s.joined ≡ true
      → s.have_token ≡ true
      → s.join_inflight.active ≡ false
      → 0 < s.join_state.count
      → IsValid s.join_state
      → let (rest, popped) = pop_oldest_pending_join s.join_state in
        (p : PendingJoin) × (popped ≡ some p)
        × (handle_token_if_ready net s w
            ≡ join_fsm_inflight_tick net
                (join_fsm_start_inflight (record s { join_state = rest }) p)
                w)
  unfolding handle_token_if_ready
  token_starts_join j t a c v = elim (Option-cases (pop_oldest_pending_join s.join_state).1) [
    | inl e ↦ absurd (omega (arith, pop-none v e))
    | inr (p, e) ↦ (p, e, ground arith)
  ]

-- A whole token that stands in the fifo is the message that the node then has pending, also
-- where another message was pending. The fifo is read only while `token_in` is empty. The
-- buffers of the token in the fifo are full, and its version is a word.
pub cli_delivers :
    {W : Type 0} (net : Link W) (s : RingState) (w w' : W) (t : Token)
    → FitsToken t
    → net.cli_read w ≡ (some (encode_token t), w')
    → handle_cli_if_ready net true s w ≡ (
        if s.token_in.is_empty
        then (ok, record s { cli_pending = t; have_cli_pending = true }, w')
        else (ok, s, w))
unfolding handle_cli_if_ready cli_handle_read
cli_delivers net s w w' t f e = ground (arith, overwrite-encode_token s.cli_pending t f)
