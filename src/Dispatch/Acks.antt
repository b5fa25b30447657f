-- ===== src/Dispatch/Acks.antt =====
-- JOIN_ACK_U from the joiner or the predecessor (src/unicast_dispatch.c and `join_ack_sender_tick` of
-- src/ring.c) through its bytes to the coordinator, and JOIN_ACK_ACK_U back.
use psi_project.Base.{
  ok, ℕ, ◌<◌, ◌≡◌, ◌^◌, ◌⊎◌, ◌↔◌, inl, inr, ap, Bool-cases, refl, true, false, arith, length,
  replicate, ◌-◌,
}
use psi_project.Cstr.{Name, copy_name, same_name}
use psi_project.Cstr.Laws.{IsName, length-copy_name, terminate-copy_name, same_name-copy_left}
use psi_project.Join.Invariant.{IsValid}
use psi_project.Node.{RingState}
use psi_project.Wire.{
  AckWire, encode_ack, decode_ack, ack_size, unicast_msg, umsg_join_ack_u, umsg_join_ack_ack_u,
}
use psi_project.Wire.Laws.{decode-encode_ack}
use psi_project.Link.{Link}
use psi_project.JoinFsm.{join_fsm_maybe_complete}
use psi_project.JoinFsm.Complete.{is_confirmed, Completed, complete-Completed, complete_waits}
use psi_project.Dispatch.{
  ack_message, confirm, handle_join_ack_u, handle_join_ack_ack_u, unicast_dispatch_message,
}

decode-ack_message :
    (type id : ℕ) (name : Name)
    → id < 2 ^ 32
    → decode_ack (ack_message type id name).payload
      ≡ record { request_id = id; name = copy_name name }
unfolding ack_message unicast_msg
decode-ack_message type id name h =
    let wire : AckWire = record { request_id = id; name = copy_name name } in
    decode-encode_ack wire (replicate (512 - length (encode_ack wire)) 0)
      (record { request_id = h; name = length-copy_name name })

ack_message_fields :
    (type id : ℕ) (name : Name)
    → ((ack_message type id name).type ≡ type) × ((ack_message type id name).payload_len ≡ ack_size)
unfolding ack_message unicast_msg
ack_message_fields type id name = (refl, refl)

-- The joiner has confirmed, at the latest by an acknowledgement in this name.
abbrev pub ByJoiner : RingState → Name → Type 0
ByJoiner s name =
    (same_name (copy_name name) s.join_inflight.joiner.node_name ≡ true)
    ⊎ (s.join_inflight.got_confirm_joiner ≡ true)

-- The same for the predecessor.
abbrev pub ByPrev : RingState → Name → Type 0
ByPrev s name =
    ((same_name (copy_name name) s.join_inflight.expected_prev_name ≡ true)
      ⊎ (same_name (copy_name name) s.config.prev.node_name ≡ true))
    ⊎ (s.join_inflight.got_confirm_prev ≡ true)

module _ {W : Type 0} (net : Link W) (s : RingState) (id : ℕ) (name : Name) (w : W) where
  ack_state :
      s.join_inflight.active ≡ true
      → s.join_inflight.request_id ≡ id
      → id < 2 ^ 32
      → (unicast_dispatch_message net s (ack_message umsg_join_ack_u id name) w).1
        ≡ (join_fsm_maybe_complete net (confirm s (copy_name name)) w).0
  unfolding unicast_dispatch_message handle_join_ack_u
  ack_state a r h = ground (
    arith,
    decode-ack_message umsg_join_ack_u id name h,
    ack_message_fields umsg_join_ack_u id name,
    terminate-copy_name name,
  )

  -- An acknowledgement for the join in flight counts as the joiner's confirmation exactly if it
  -- names the joiner, and as the predecessor's exactly if it names the predecessor that the join
  -- expects or the one of the route. If both are in then, the join is completed at the coordinator;
  -- otherwise it stays in flight with the confirmations that it has, and the routes, the topology
  -- version and the token stay. The id fits its width, the tables are well formed, and the joiner's
  -- name has a NUL in its 32 bytes.
  pub ack_completes :
      s.join_inflight.active ≡ true
      → s.join_inflight.request_id ≡ id
      → id < 2 ^ 32
      → IsValid s.join_state
      → IsName s.join_inflight.joiner.node_name
      → let t = (unicast_dispatch_message net s (ack_message umsg_join_ack_u id name) w).1 in
        (ByJoiner s name × ByPrev s name × Completed s t)
        ⊎ (((t.join_inflight.got_confirm_joiner ≡ true) ↔ ByJoiner s name)
            × ((t.join_inflight.got_confirm_prev ≡ true) ↔ ByPrev s name)
            × ((t.join_inflight.got_confirm_prev ≡ false)
                ⊎ (t.join_inflight.got_confirm_joiner ≡ false))
            × (t.join_inflight.active ≡ true)
            × (t.config ≡ s.config)
            × (t.last_seen_topo_version ≡ s.last_seen_topo_version)
            × (t.token_in ≡ s.token_in)
            × (t.have_token ≡ s.have_token))
  unfolding confirm
  ack_completes a r h v n =
      let c = confirm s (copy_name name) in
      elim (Bool-cases (is_confirmed c)) [
        | inl both ↦
            let done = (complete-Completed net c w both v n).0 in
            inl (
              ground arith,
              ground arith,
              rw (ack_state a r h) (record {
                prev = done.prev;
                next = done.next;
                current = done.current;
                topology = done.topology;
                stamped = done.stamped;
                idle = done.idle;
                known = done.known;
                keeps_token = done.keeps_token;
              }),
            )
        | inr short ↦
            let waits = ap (λ x. x.0) (complete_waits net c w short) in
            inr (
              rw (ack_state a r h, waits)
                (
                  (λ e. ground arith, λ e. ground arith),
                  (λ e. ground arith, λ e. ground arith),
                  ground arith,
                  a,
                  refl,
                  refl,
                  refl,
                  refl,
                ))
      ]

  -- The answer to an acknowledgement ends its resending at the node that it names, if it is for the
  -- request that the node acknowledges, and changes nothing else.
  pub ack_ack_stops :
      same_name name s.config.current.node_name ≡ true
      → IsName name
      → s.ack_sender.active ≡ true
      → s.ack_sender.request_id ≡ id
      → id < 2 ^ 32
      → unicast_dispatch_message net s (ack_message umsg_join_ack_ack_u id name) w
        ≡ (ok, record s { ack_sender = record (s.ack_sender) { got_ack_ack = true } }, w)
  unfolding unicast_dispatch_message handle_join_ack_ack_u
  ack_ack_stops me nn a r h =
      let mine = same_name-copy_left name s.config.current.node_name nn in
      ground (
        arith,
        decode-ack_message umsg_join_ack_ack_u id name h,
        ack_message_fields umsg_join_ack_ack_u id name,
        terminate-copy_name name,
        mine,
      )
