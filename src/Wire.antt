-- ===== src/Wire.antt =====
-- The messages as bytes: src/include/join.h, token.h and unicast_msg.h laid out as the compiler of a
-- 64-bit x86 Linux lays them out (4-byte alignment, little-endian host). `htonl` and `htons` before
-- the copy make the big-endian fields; the token is copied as it stands, so its version is
-- little-endian.
pub mod Laws
use psi_project.Base.{
  ℕ, zero, suc, ◌+◌, ◌-◌, ◌*◌, ◌/◌, ◌%◌, Bool, true, false, not, List, [], ◌∷◌, ◌++◌, ◌==◌,
  if◌then◌else◌, length, take, drop, replicate,
}
use psi_project.Cstr.{Name}
use psi_project.Node.{Token}

abbrev pub join_magic : ℕ
join_magic = 0xAAAABBBB

-- join_message_type_t.
abbrev pub join_request : ℕ
join_request = 1

abbrev pub join_accept : ℕ
join_accept = 2

abbrev pub join_commit : ℕ
join_commit = 6

-- unicast_msg_type_t.
abbrev pub umsg_token : ℕ
umsg_token = 1

abbrev pub umsg_join_accept_u : ℕ
umsg_join_accept_u = 2

abbrev pub umsg_join_ack_u : ℕ
umsg_join_ack_u = 4

abbrev pub umsg_join_ack_ack_u : ℕ
umsg_join_ack_ack_u = 5

abbrev pub max_unicast_payload : ℕ
max_unicast_payload = 512

-- The `sizeof` of each message.
abbrev pub header_size : ℕ
header_size = 12

abbrev pub request_size : ℕ
request_size = 48

abbrev pub commit_size : ℕ
commit_size = 48

abbrev pub accept_size : ℕ
accept_size = 116

abbrev pub ack_size : ℕ
ack_size = 36

abbrev pub token_size : ℕ
token_size = 328

pub record UnicastMsg : Type 0 where
  pub type : ℕ
  pub payload_len : ℕ
  pub payload : List ℕ

pub record JoinHeader : Type 0 where
  pub magic : ℕ
  pub type : ℕ
  pub request_id : ℕ

pub record RequestWire : Type 0 where
  pub header : JoinHeader
  pub node_name : Name
  pub unicast_port : ℕ

pub record CommitWire : Type 0 where
  pub header : JoinHeader
  pub new_name : Name
  pub topo_version : ℕ

pub record AcceptWire : Type 0 where
  pub header : JoinHeader
  pub new_name : Name
  pub new_unicast_port : ℕ
  pub before_name : Name
  pub before_unicast_port : ℕ
  pub prev_name : Name
  pub prev_unicast_port : ℕ

-- join_ack_u_t and join_ack_ack_u_t have one layout; `name` is from_name or to_name.
pub record AckWire : Type 0 where
  pub request_id : ℕ
  pub name : Name

-- A big-endian field in front of more bytes.
abbrev pub put16 : ℕ → List ℕ → List ℕ
put16 n bs = n / 256 % 256 ∷ n % 256 ∷ bs

abbrev pub put32 : ℕ → List ℕ → List ℕ
put32 n bs = n / 0x1000000 % 256 ∷ n / 0x10000 % 256 ∷ n / 256 % 256 ∷ n % 256 ∷ bs

abbrev pub put32_le : ℕ → List ℕ → List ℕ
put32_le n bs = n % 256 ∷ n / 256 % 256 ∷ n / 0x10000 % 256 ∷ n / 0x1000000 % 256 ∷ bs

-- The field at the front of a buffer; a buffer is never shorter than the field.
unfoldable pub get16 : List ℕ → ℕ
get16 (a ∷ b ∷ _) = a * 256 + b
get16 _ = 0

unfoldable pub get32 : List ℕ → ℕ
get32 (a ∷ b ∷ c ∷ d ∷ _) = a * 0x1000000 + b * 0x10000 + c * 256 + d
get32 _ = 0

unfoldable pub get32_le : List ℕ → ℕ
get32_le (a ∷ b ∷ c ∷ d ∷ _) = d * 0x1000000 + c * 0x10000 + b * 256 + a
get32_le _ = 0

-- A bool is false exactly if its byte is 0.
unfoldable pub get_bool : List ℕ → Bool
get_bool (a ∷ _) = not (a == 0)
get_bool [] = false

abbrev pub put_header : JoinHeader → List ℕ → List ℕ
put_header h bs = put32 h.magic (put16 h.type (put16 0 (put32 h.request_id bs)))

unfoldable pub get_header : List ℕ → JoinHeader
unfolding get32 get16
get_header bs = record {
  magic = get32 bs;
  type = get16 (drop 4 bs);
  request_id = get32 (drop 8 bs);
}

unfoldable pub encode_request : RequestWire → List ℕ
encode_request m = put_header m.header (m.node_name ++ put16 m.unicast_port (0 ∷ 0 ∷ []))

unfoldable pub decode_request : List ℕ → RequestWire
unfolding get_header
decode_request bs =
    let body = drop header_size bs in
    record { header = get_header bs; node_name = take 32 body; unicast_port = get16 (drop 32 body) }

unfoldable pub encode_commit : CommitWire → List ℕ
encode_commit m = put_header m.header (m.new_name ++ put32 m.topo_version [])

unfoldable pub decode_commit : List ℕ → CommitWire
unfolding get_header
decode_commit bs =
    let body = drop header_size bs in
    record { header = get_header bs; new_name = take 32 body; topo_version = get32 (drop 32 body) }

unfoldable pub encode_accept : AcceptWire → List ℕ
encode_accept m = put_header m.header (
    m.new_name
    ++ put16 m.new_unicast_port (
        m.before_name
        ++ put16 m.before_unicast_port (m.prev_name ++ put16 m.prev_unicast_port (0 ∷ 0 ∷ []))))

unfoldable pub decode_accept : List ℕ → AcceptWire
unfolding get_header
decode_accept bs =
    let body = drop header_size bs in
    let new_port = drop 32 body in
    let before = drop 2 new_port in
    let before_port = drop 32 before in
    let prev = drop 2 before_port in
    record {
      header = get_header bs;
      new_name = take 32 body;
      new_unicast_port = get16 new_port;
      before_name = take 32 before;
      before_unicast_port = get16 before_port;
      prev_name = take 32 prev;
      prev_unicast_port = get16 (drop 32 prev);
    }

unfoldable pub encode_ack : AckWire → List ℕ
encode_ack m = put32 m.request_id m.name

unfoldable pub decode_ack : List ℕ → AckWire
unfolding get32
decode_ack bs = record { request_id = get32 bs; name = take 32 (drop 4 bs) }

abbrev pub byte_of_bool : Bool → ℕ
byte_of_bool true = 1
byte_of_bool false = 0

-- `memcpy` of a token_t; the three bytes of padding are taken as 0.
unfoldable pub encode_token : Token → List ℕ
encode_token t =
    t.text
    ++ (t.sender
        ++ (t.receiver ++ put32_le t.topo_version (byte_of_bool t.is_empty ∷ 0 ∷ 0 ∷ 0 ∷ [])))

unfoldable pub decode_token : List ℕ → Token
unfolding get32_le get_bool
decode_token bs =
    let from_sender = drop 256 bs in
    let from_receiver = drop 32 from_sender in
    let from_topo = drop 32 from_receiver in
    record {
      text = take 256 bs;
      sender = take 32 from_sender;
      receiver = take 32 from_receiver;
      topo_version = get32_le from_topo;
      is_empty = get_bool (drop 4 from_topo);
    }

-- `msg = {0}; memcpy (msg.payload, …)`: the rest of the payload is 0.
unfoldable pub unicast_msg : ℕ → ℕ → List ℕ → UnicastMsg
unicast_msg type len bytes = record {
  type = type;
  payload_len = len;
  payload = bytes ++ replicate (max_unicast_payload - length bytes) 0;
}
