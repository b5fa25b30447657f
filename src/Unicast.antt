-- ===== src/Unicast.antt =====
-- The unicast messages of the ring over the reliable transport: src/unicast.c without the setup of
-- its socket. The two ways to look up a name are parameters. A message's `payload` is the array of
-- MAX_UNICAST_PAYLOAD bytes, and `wire` is the 516 bytes of the struct that is sent. A port stands
-- in an Addr as the number that htons was given.
pub mod Laws
mod Examples
use psi_project.Base.{
  ℕ, ◌+◌, ◌-◌, Option, none, some, List, [], ◌∷◌, ◌++◌, ltb, if◌then◌else◌, Rc, ok, err, length,
  take, drop, replicate,
}
use psi_project.Cstr.{Name}
use psi_project.Node.{Route}
use psi_project.Wire.{UnicastMsg, max_unicast_payload, put16, get16}
use psi_project.Link.{Received, message, nothing, failed}
use psi_project.Rudp.Tables.{Addr}
use psi_project.Rudp.Net.{Os, Net}
use psi_project.Rudp.Protocol.{
  Delivered, delivered, fault, rudp_recvfrom, rudp_sendto, rudp_sendto_with_limits,
}
use psi_project.Rudp.Protocol

-- AF_INET
abbrev pub af_inet : ℕ
af_inet = 2

-- sizeof (unicast_msg_t)
abbrev pub wire_size : ℕ
wire_size = 516

-- inet_pton returns -1, 0, or 1 with the address.
pub data Pton : Type 0 where
  pton_error : Pton
  pton_no_address : Pton
  pton_address : ℕ → Pton

-- `getaddrinfo` answers the first address that it finds, `none` for an error.
pub record Names : Type 0 where
  pub inet_pton : Name → Pton
  pub getaddrinfo : Name → Option ℕ

abbrev pub inet_addr : Route → ℕ → Addr
inet_addr next ip = record { family = af_inet; port = next.unicast_port; ip = ip }

unfoldable pub resolve_next_addr : Names → Route → Option Addr
resolve_next_addr names next = elim (names.inet_pton next.node_name) [
  | pton_error ↦ none
  | pton_address ip ↦ some (inet_addr next ip)
  | pton_no_address ↦ elim (names.getaddrinfo next.node_name) [
    | none ↦ none
    | some ip ↦ some (inet_addr next ip)
  ]
]

unfoldable pub build_unicast_wire : UnicastMsg → Option (List ℕ)
build_unicast_wire msg =
    if ltb max_unicast_payload msg.payload_len
    then none
    else some (
        put16 msg.type (
          put16 msg.payload_len (
            take msg.payload_len msg.payload
            ++ replicate (max_unicast_payload - msg.payload_len) 0)))

-- 516 bytes are copied out of the frame buffer: behind a shorter datagram they are what the buffer
-- held before, `stale`. The message keeps what it had behind its payload.
unfoldable pub read_wire : List ℕ → UnicastMsg → List ℕ → Received
unfolding get16
read_wire stale msg bytes =
    let wire = bytes ++ drop (length bytes) stale in
    let payload_len = get16 (drop 2 wire) in
    if ltb max_unicast_payload payload_len
    then failed
    else message (record {
      type = get16 wire;
      payload_len = payload_len;
      payload = take payload_len (drop 4 wire) ++ drop payload_len msg.payload;
    })

module _ (os : Os) where
  unfoldable pub unicast_recv : ℕ → ℕ → List ℕ → UnicastMsg → Net → Option (Received × Net)
  unfolding read_wire
  unicast_recv wait_fuel fuel stale msg n = elim (rudp_recvfrom os wait_fuel fuel wire_size n) [
    | none ↦ none
    | some (fault, n1) ↦ some (failed, n1)
    | some (Delivered.nothing, n1) ↦ some (nothing, n1)
    | some (delivered from bytes, n1) ↦ some (read_wire stale msg bytes, n1)
  ]

  unfoldable pub unicast_send : Names → ℕ → ℕ → UnicastMsg → Route → Net → Option (Rc × Net)
  unicast_send names wait_fuel fuel msg next n = elim (resolve_next_addr names next) [
    | none ↦ some (err, n)
    | some to ↦ elim (build_unicast_wire msg) [
      | none ↦ some (err, n)
      | some wire ↦ rudp_sendto os wait_fuel fuel wire to n
    ]
  ]

  unfoldable pub unicast_send_limited :
      Names → ℕ → ℕ → UnicastMsg → Route → ℕ → ℕ → Net → Option (Rc × Net)
  unicast_send_limited names wait_fuel fuel msg next ack_timeout_us max_attempts n =
      elim (resolve_next_addr names next) [
        | none ↦ some (err, n)
        | some to ↦ elim (build_unicast_wire msg) [
          | none ↦ some (err, n)
          | some wire ↦
              rudp_sendto_with_limits os wait_fuel fuel wire to ack_timeout_us max_attempts n
        ]
      ]
