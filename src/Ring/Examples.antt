-- ===== src/Ring/Examples.antt =====
-- The theorems on the loop at sample nodes.
use psi_project.Base.{ℕ, ◌+◌, ◌≡◌, ◌⊎◌, refl, true, false, arith, ok, err, some, max}
use psi_project.Join.{JoinRequest, add_pending_join, no_name, empty_join_state}
use psi_project.Join.Invariant.{empty-IsValid}
use psi_project.Node.{RingState, Token, zero_token, no_text, init_ring_state}
use psi_project.Wire.{encode_token}
use psi_project.Link.{Link, Timeout}
use psi_project.Deadline.{set_select_timeout, at_once}
use psi_project.Ring.{
  outgoing, take_cli, ring_on_token, handle_token_if_ready, init_join_request_if_needed,
  maybe_send_initial_token,
}
use psi_project.Ring.Invariant.{Inv}
use psi_project.Ring.Rounds.{Reach, start, Reach-Inv}
use psi_project.Ring.Tokens.{
  is_for, outgoing_cases, sent, token_kept, failed_send_loses_message, token_leaves_iff,
}
use psi_project.Ring.Handoff.{gave, took, handoff}
use psi_project.Cstr.{copy_name, strncpy}
use psi_project.Samples.{node, route, name_p, name_c}
use psi_project.Base.{replicate, ◌∷◌}
use psi_project.Wire.Laws.{FitsToken}
use psi_project.Base.{◌↔◌, ◌≢◌, not, ◌&&◌}
use psi_project.Ring.Timeouts.{stale_usec_iff}
use psi_project.Samples.{name_j, predecessor, calm, cut_off}

-- The first member, with an empty token and a message from its command line.
abbrev holder : RingState
holder = record predecessor {
  have_token = true;
  token_in = record zero_token { is_empty = true; topo_version = 2 };
  cli_pending = record zero_token { receiver = name_j };
  have_cli_pending = true;
}

first_start :
    let (rc, s, w) =
      init_join_request_if_needed calm 77 (init_ring_state predecessor.config true) 0 in
    Reach calm (maybe_send_initial_token true s) at_once w
unfolding init_join_request_if_needed init_ring_state
first_start = start predecessor.config true true 77 at_once 0 refl

Reach-Inv_example : Inv (
    maybe_send_initial_token true
      (init_join_request_if_needed calm 77 (init_ring_state predecessor.config true) 0).1)
Reach-Inv_example = Reach-Inv calm first_start

outgoing_cases_example :
    let out = outgoing holder in
    ((holder.token_in.is_empty ≡ false)
      × (is_for holder ≡ false)
      × (out ≡ holder.token_in)
      × (take_cli holder ≡ holder))
    ⊎ (((holder.token_in.is_empty ≡ true) ⊎ (is_for holder ≡ true))
        × (((holder.have_cli_pending ≡ true)
              × (out ≡ record (holder.cli_pending) { topo_version = 3 })
              × ((take_cli holder).have_cli_pending ≡ false))
            ⊎ ((holder.have_cli_pending ≡ false)
                × (out.is_empty ≡ true)
                × (out.topo_version ≡ 2)
                × ((holder.token_in.is_empty ≡ true)
                    ⊎ ((out.text ≡ no_text) × (out.receiver ≡ no_name))))))
outgoing_cases_example = outgoing_cases holder

token_kept_example :
    let (rc, t, w') = ring_on_token calm holder 5 in
    (rc ≡ ok)
    × (w' ≡ 6)
    × ((((sent calm holder 5).0 ≡ ok) × (t.have_token ≡ false) × (t.token_in ≡ zero_token))
        ⊎ (((sent calm holder 5).0 ≡ err) × (t.have_token ≡ true) × (t.token_in ≡ holder.token_in)))
token_kept_example = token_kept calm holder 5

failed_send_loses_message_example :
    let t = (ring_on_token cut_off holder 5).1 in
    (outgoing holder ≡ record (holder.cli_pending) { topo_version = 3 })
    × (t.have_token ≡ true)
    × (t.have_cli_pending ≡ false)
    × (t.cli_pending.text ≡ no_text)
    × (outgoing t ≡ holder.token_in)
failed_send_loses_message_example = failed_send_loses_message cut_off holder 5 refl refl refl

-- A member with the token and nothing else to do.
abbrev idle_holder : RingState
idle_holder = record predecessor { have_token = true }

token_leaves_iff_example : ((handle_token_if_ready calm idle_holder 5).1.have_token ≡ false) ↔ (
    (idle_holder.joined ≡ true)
    × (idle_holder.join_inflight.active ≡ false)
    × (idle_holder.join_state.count ≡ 0)
    × ((sent calm idle_holder 5).0 ≡ ok))
token_leaves_iff_example = token_leaves_iff calm idle_holder 5 refl

abbrev request : JoinRequest
request = record { request_id = 77; node_name = name_j; unicast_port = 5003 }

-- A holder with one pending join.
abbrev asked_holder : RingState
asked_holder = record holder { join_state = (add_pending_join empty_join_state request 10 90).0 }

abbrev greeting : Token
greeting = record zero_token { receiver = no_name }

abbrev with_fifo : Link ℕ
with_fifo = record calm { cli_read = λ w. (some (encode_token greeting), w + 1) }

abbrev last_timeout : Timeout
last_timeout = record { sec = 4; usec = 123 }

stale_usec_iff_example : ((set_select_timeout predecessor false 100 last_timeout).usec ≢ 0) ↔ (
    (predecessor.joined ≡ true)
    × (predecessor.have_token ≡ false)
    × (predecessor.join_inflight.active ≡ false)
    × (predecessor.join_state.count ≡ 0)
    × ((predecessor.ack_sender.active && not predecessor.ack_sender.got_ack_ack) ≡ false)
    × (false ≡ false))
stale_usec_iff_example =
    stale_usec_iff predecessor false 100 last_timeout (omega arith) (omega arith)

-- The holder's message is for "j", a member that has nothing to send.
abbrev writer : RingState
writer = record holder {
  cli_pending = record zero_token {
    receiver = copy_name name_j;
    text = 104 ∷ 105 ∷ replicate 254 0;
  };
}

abbrev reader : RingState
reader = node (route name_p 5001) (route name_j 5003) (route name_c 5002)

writer-FitsToken : FitsToken (outgoing writer)
unfolding outgoing copy_name strncpy
writer-FitsToken = record {
  text = refl;
  sender = refl;
  receiver = refl;
  topo_version = omega arith;
}

handoff_example :
    ((gave calm writer reader 5 9).have_token ≡ false)
    × ((took calm writer reader 5 9).have_token ≡ true)
    × ((took calm writer reader 5 9).token_in ≡ outgoing writer)
    × ((took calm writer reader 5 9).last_seen_topo_version ≡ max 3 (outgoing writer).topo_version)
handoff_example = handoff calm writer reader 5 9 writer-FitsToken refl empty-IsValid refl
