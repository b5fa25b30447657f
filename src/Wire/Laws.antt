-- ===== src/Wire/Laws.antt =====
-- The messages of src/include/join.h, token.h and unicast_msg.h encoded and decoded again, and their
-- sizes.
use psi_project.Base.{
  ℕ, ◌<◌, ◌^◌, ◌≡◌, refl, Bool, true, false, List, [], ◌∷◌, ◌++◌, length, arith, take-append_exact,
  drop-append_exact, length-append,
}
use mathlib.Core.List.{append_assoc}
use psi_project.Node.{Token}
use psi_project.Wire.{
  JoinHeader, RequestWire, CommitWire, AcceptWire, AckWire, put16, put32, put32_le, get16, get32,
  get32_le, get_bool, put_header, get_header, encode_request, decode_request, encode_commit,
  decode_commit, encode_accept, decode_accept, encode_ack, decode_ack, encode_token, decode_token,
  request_size, commit_size, accept_size, token_size, byte_of_bool,
}

pub get16-put16 : (n : ℕ) (bs : List ℕ) → n < 2 ^ 16 → get16 (put16 n bs) ≡ n
unfolding get16
get16-put16 n bs h = omega arith

pub get32-put32 : (n : ℕ) (bs : List ℕ) → n < 2 ^ 32 → get32 (put32 n bs) ≡ n
unfolding get32
get32-put32 n bs h = omega arith

get32_le-put32_le : (n : ℕ) (bs : List ℕ) → n < 2 ^ 32 → get32_le (put32_le n bs) ≡ n
unfolding get32_le
get32_le-put32_le n bs h = omega arith

-- The fields of a message fit their widths.
pub record FitsHeader (h : JoinHeader) : Type 0 where
  pub magic : h.magic < 2 ^ 32
  pub type : h.type < 2 ^ 16
  pub request_id : h.request_id < 2 ^ 32

pub get_header-put_header :
    (h : JoinHeader) (bs : List ℕ) → FitsHeader h → get_header (put_header h bs) ≡ h
unfolding get_header
get_header-put_header h bs f = ground (arith, get32-put32 h.magic [])

pub record FitsAccept (m : AcceptWire) : Type 0 where
  pub header : FitsHeader m.header
  pub new_name : length m.new_name ≡ 32
  pub new_port : m.new_unicast_port < 2 ^ 16
  pub before_name : length m.before_name ≡ 32
  pub before_port : m.before_unicast_port < 2 ^ 16
  pub prev_name : length m.prev_name ≡ 32
  pub prev_port : m.prev_unicast_port < 2 ^ 16

pub decode-encode_accept :
    (m : AcceptWire) (rest : List ℕ) → FitsAccept m → decode_accept (encode_accept m ++ rest) ≡ m
unfolding decode_accept encode_accept
decode-encode_accept m rest f =
    let t3 = put16 m.prev_unicast_port (0 ∷ 0 ∷ rest) in
    let t2 = put16 m.before_unicast_port (m.prev_name ++ t3) in
    let t1 = put16 m.new_unicast_port (m.before_name ++ t2) in
    simp append_assoc (
      rw
        (
          drop-append_exact 32 m.new_name t1 f.new_name,
          take-append_exact 32 m.new_name t1 f.new_name,
          drop-append_exact 32 m.before_name t2 f.before_name,
          take-append_exact 32 m.before_name t2 f.before_name,
          drop-append_exact 32 m.prev_name t3 f.prev_name,
          take-append_exact 32 m.prev_name t3 f.prev_name,
        )
        (ground arith))

pub record FitsRequest (m : RequestWire) : Type 0 where
  pub header : FitsHeader m.header
  pub node_name : length m.node_name ≡ 32
  pub unicast_port : m.unicast_port < 2 ^ 16

pub decode-encode_request :
    (m : RequestWire) (rest : List ℕ)
    → FitsRequest m
    → decode_request (encode_request m ++ rest) ≡ m
unfolding decode_request encode_request
decode-encode_request m rest f =
    let t = put16 m.unicast_port (0 ∷ 0 ∷ rest) in
    simp append_assoc (
      rw
        (
          drop-append_exact 32 m.node_name t f.node_name,
          take-append_exact 32 m.node_name t f.node_name,
        )
        (ground arith))

pub record FitsCommit (m : CommitWire) : Type 0 where
  pub header : FitsHeader m.header
  pub new_name : length m.new_name ≡ 32
  pub topo_version : m.topo_version < 2 ^ 32

pub decode-encode_commit :
    (m : CommitWire) (rest : List ℕ) → FitsCommit m → decode_commit (encode_commit m ++ rest) ≡ m
unfolding decode_commit encode_commit
decode-encode_commit m rest f =
    let t = put32 m.topo_version rest in
    simp append_assoc (
      rw
        (drop-append_exact 32 m.new_name t f.new_name, take-append_exact 32 m.new_name t f.new_name)
        (ground arith))

pub record FitsAck (m : AckWire) : Type 0 where
  pub request_id : m.request_id < 2 ^ 32
  pub name : length m.name ≡ 32

pub decode-encode_ack :
    (m : AckWire) (rest : List ℕ) → FitsAck m → decode_ack (encode_ack m ++ rest) ≡ m
unfolding decode_ack encode_ack
decode-encode_ack m rest f = rw (take-append_exact 32 m.name rest f.name) (ground arith)

-- The buffers of a token are full.
pub record FitsToken (t : Token) : Type 0 where
  pub text : length t.text ≡ 256
  pub sender : length t.sender ≡ 32
  pub receiver : length t.receiver ≡ 32
  pub topo_version : t.topo_version < 2 ^ 32

get_bool-byte_of_bool : (b : Bool) (rest : List ℕ) → get_bool (byte_of_bool b ∷ rest) ≡ b
unfolding get_bool
get_bool-byte_of_bool true rest = refl
get_bool-byte_of_bool false rest = refl

pub decode-encode_token :
    (t : Token) (rest : List ℕ) → FitsToken t → decode_token (encode_token t ++ rest) ≡ t
unfolding decode_token encode_token
decode-encode_token t rest f =
    let t3 = put32_le t.topo_version (byte_of_bool t.is_empty ∷ 0 ∷ 0 ∷ 0 ∷ rest) in
    let t2 = t.receiver ++ t3 in
    let t1 = t.sender ++ t2 in
    simp append_assoc (
      rw
        (
          drop-append_exact 256 t.text t1 f.text,
          take-append_exact 256 t.text t1 f.text,
          drop-append_exact 32 t.sender t2 f.sender,
          take-append_exact 32 t.sender t2 f.sender,
          drop-append_exact 32 t.receiver t3 f.receiver,
          take-append_exact 32 t.receiver t3 f.receiver,
        )
        (ground (arith, get_bool-byte_of_bool t.is_empty (0 ∷ 0 ∷ 0 ∷ rest))))

pub length-encode_accept : (m : AcceptWire) → FitsAccept m → length (encode_accept m) ≡ accept_size
unfolding encode_accept
length-encode_accept m f =
    let t3 : List ℕ = put16 m.prev_unicast_port (0 ∷ 0 ∷ []) in
    let t2 : List ℕ = put16 m.before_unicast_port (m.prev_name ++ t3) in
    let t1 : List ℕ = put16 m.new_unicast_port (m.before_name ++ t2) in
    omega (
      arith,
      length-append m.new_name t1,
      length-append m.before_name t2,
      length-append m.prev_name t3,
    )

pub length-encode_request :
    (m : RequestWire) → FitsRequest m → length (encode_request m) ≡ request_size
unfolding encode_request
length-encode_request m f =
    omega (arith, length-append m.node_name (put16 m.unicast_port (0 ∷ 0 ∷ [])))

pub length-encode_commit : (m : CommitWire) → FitsCommit m → length (encode_commit m) ≡ commit_size
unfolding encode_commit
length-encode_commit m f = omega (arith, length-append m.new_name (put32 m.topo_version []))

pub length-encode_token : (t : Token) → FitsToken t → length (encode_token t) ≡ token_size
unfolding encode_token
length-encode_token t f =
    let t3 : List ℕ = put32_le t.topo_version (byte_of_bool t.is_empty ∷ 0 ∷ 0 ∷ 0 ∷ []) in
    let t2 : List ℕ = t.receiver ++ t3 in
    let t1 : List ℕ = t.sender ++ t2 in
    omega (arith, length-append t.text t1, length-append t.sender t2, length-append t.receiver t3)

-- The handler looks at the header before it decodes the rest.
pub get_header-encode_request :
    (m : RequestWire) (rest : List ℕ)
    → FitsRequest m
    → get_header (encode_request m ++ rest) ≡ m.header
unfolding encode_request
get_header-encode_request m rest f = get_header-put_header m.header _ f.header

pub get_header-encode_commit :
    (m : CommitWire) (rest : List ℕ)
    → FitsCommit m
    → get_header (encode_commit m ++ rest) ≡ m.header
unfolding encode_commit
get_header-encode_commit m rest f = get_header-put_header m.header _ f.header
