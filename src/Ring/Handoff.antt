-- ===== src/Ring/Handoff.antt =====
-- The token from one node to the next: ring_on_token (src/ring.c) at the sender, its bytes, and
-- `handle_token_unicast` (src/unicast_dispatch.c) at the receiver.
use psi_project.Base.{◌≡◌, refl, true, false, arith, ok, max, length, replicate, ◌-◌}
use psi_project.Join.Invariant.{IsValid}
use psi_project.Join.Leaving.{drop_oldest_count}
use psi_project.Node.{RingState, Token}
use psi_project.Wire.{encode_token, decode_token, unicast_msg, token_size, umsg_token}
use psi_project.Wire.Laws.{FitsToken, decode-encode_token}
use psi_project.Link.{Link}
use psi_project.Dispatch.{handle_token_unicast, unicast_dispatch_message}
use psi_project.Ring.{outgoing, token_message, ring_on_token}
use psi_project.Ring.Tokens.{sent}

-- The payload of a token's message decodes to the token.
pub decode-token_message : (t : Token) → FitsToken t → decode_token (token_message t).payload ≡ t
unfolding token_message unicast_msg
decode-token_message t f = decode-encode_token t (replicate (512 - length (encode_token t)) 0) f

pub token_message_fields :
    (t : Token)
    → ((token_message t).type ≡ umsg_token) × ((token_message t).payload_len ≡ token_size)
unfolding token_message unicast_msg
token_message_fields t = (refl, refl)

module _ {W : Type 0} (net : Link W) (a b : RingState) (w w' : W) where
  -- The sender after its send, and the receiver after the message has reached it.
  abbrev pub gave : RingState
  gave = (ring_on_token net a w).1

  abbrev pub took : RingState
  took = (unicast_dispatch_message net b (token_message (outgoing a)) w').1

  took_lem :
      FitsToken (outgoing a)
      → b.joined ≡ true
      → IsValid b.join_state
      → (took.have_token ≡ true)
        × (took.token_in ≡ outgoing a)
        × (took.last_seen_topo_version ≡ max b.last_seen_topo_version (outgoing a).topo_version)
        × (took.config ≡ b.config)
        × (took.have_cli_pending ≡ b.have_cli_pending)
  unfolding unicast_dispatch_message handle_token_unicast
  took_lem f j v = ground (
    arith,
    decode-token_message (outgoing a) f,
    token_message_fields (outgoing a),
    drop_oldest_count b.join_state b.join_state.count v,
  )

  -- A token that a node sends and a member receives moves as it is: the sender no longer has it,
  -- the receiver has it, byte for byte what was sent, and knows the larger of its own topology
  -- version and the token's. The buffers of the token that is sent are full, its version is a
  -- word, and the receiver's tables are well formed.
  pub handoff :
      FitsToken (outgoing a)
      → b.joined ≡ true
      → IsValid b.join_state
      → (sent net a w).0 ≡ ok
      → (gave.have_token ≡ false)
        × (took.have_token ≡ true)
        × (took.token_in ≡ outgoing a)
        × (took.last_seen_topo_version ≡ max b.last_seen_topo_version (outgoing a).topo_version)
  unfolding ring_on_token
  handoff f j v e = ground (arith, took_lem f j v)
