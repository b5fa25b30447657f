-- ===== src/Dispatch/Tokens.antt =====
-- A token at its receiver: `handle_token_unicast` of src/unicast_dispatch.c.
use psi_project.Base.{◌<◌, ◌≤◌, ◌≡◌, ◌≢◌, ◌⊎◌, true, false, arith, max}
use psi_project.Join.Invariant.{IsValid}
use psi_project.Join.Leaving.{drop_oldest_count}
use psi_project.Node.{RingState}
use psi_project.Wire.{UnicastMsg, token_size, decode_token}
use psi_project.Dispatch.{handle_token_unicast}

-- A message of the wrong length changes nothing. Otherwise the token's bytes are kept; a member
-- then has the token, and takes over its topology version if that is newer, which empties the
-- pending joins; an older or equal version leaves them alone. At a node that has not joined
-- nothing else changes. The tables are well formed.
pub token_cases :
    (s : RingState) (msg : UnicastMsg)
    → IsValid s.join_state
    → let token = decode_token msg.payload in
      let t = handle_token_unicast s msg in
      ((msg.payload_len ≢ token_size) × (t ≡ s))
      ⊎ ((msg.payload_len ≡ token_size)
          × (t.token_in ≡ token)
          × (((s.joined ≡ false) × (t ≡ record s { token_in = token }))
              ⊎ ((s.joined ≡ true)
                  × (t.have_token ≡ true)
                  × (t.last_seen_topo_version ≡ max s.last_seen_topo_version token.topo_version)
                  × (((s.last_seen_topo_version < token.topo_version) × (t.join_state.count ≡ 0))
                      ⊎ ((token.topo_version ≤ s.last_seen_topo_version)
                          × (t.join_state ≡ s.join_state))))))
unfolding handle_token_unicast
token_cases s msg v = ground (arith, drop_oldest_count s.join_state s.join_state.count v)
