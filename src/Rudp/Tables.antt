-- ===== src/Rudp/Tables.antt =====
-- The two static tables of src/rudp.c: the peers with their sequence bits, and the frames that came
-- while another was waited for. An entry's `len` is the length of its bytes.
pub mod Peers
pub mod Pending
use Prim.Native.Nat.{bit_xor}
use psi_project.Base.{
  ℕ, zero, suc, ◌+◌, ◌<◌, Bool, true, false, ◌&&◌, ◌||◌, not, Option, none, some, List, [], ◌∷◌,
  ◌++◌, ltb, leb, ◌==◌, if◌then◌else◌, length, get_elem?, set, drop,
}
use psi_project.Wire.{get32_le, put32_le}

abbrev pub max_rudp_peers : ℕ
max_rudp_peers = 32

abbrev pub max_rudp_pending : ℕ
max_rudp_pending = 256

-- (1 << 16) - 1
abbrev pub max_frame_size : ℕ
max_frame_size = 65535

-- sizeof (header_t): the enum, the sequence bit, three bytes of padding.
abbrev pub frame_header_size : ℕ
frame_header_size = 8

-- frame_type_t
abbrev pub message : ℕ
message = 0

abbrev pub ack : ℕ
ack = 1

abbrev pub ack_ack : ℕ
ack_ack = 2

pub record Addr : Type 0 where
  pub family : ℕ
  pub port : ℕ
  pub ip : ℕ

pub record Peer : Type 0 where
  pub used : Bool
  pub addr : Addr
  pub send_seq_bit : ℕ
  pub expected_seq_bit : ℕ

pub record PendingFrame : Type 0 where
  pub used : Bool
  pub addr : Addr
  pub bytes : List ℕ

abbrev pub addr_equal : Addr → Addr → Bool
addr_equal a b = a.family == b.family && (a.port == b.port && a.ip == b.ip)

-- The header of a frame in its bytes.
unfoldable pub frame_type : List ℕ → ℕ
unfolding get32_le
frame_type bytes = get32_le bytes

unfoldable pub seq_bit : List ℕ → ℕ
seq_bit (_ ∷ _ ∷ _ ∷ _ ∷ b ∷ _) = b
seq_bit _ = 0

unfoldable pub frame : ℕ → ℕ → List ℕ → List ℕ
frame type seq body = put32_le type (seq ∷ 0 ∷ 0 ∷ 0 ∷ body)

-- `bit ^= 1`
abbrev pub flip : ℕ → ℕ
flip b = bit_xor b 1

abbrev pub is_peer : Addr → Peer → Bool
is_peer a p = p.used && addr_equal p.addr a

-- The first loop of `get_peer`, from index i.
unfoldable pub find_peer : ℕ → Addr → List Peer → Option ℕ
find_peer i a [] = none
find_peer i a (p ∷ ps) = if is_peer a p then some i else find_peer (suc i) a ps

unfoldable pub free_peer : ℕ → List Peer → Option ℕ
free_peer i [] = none
free_peer i (p ∷ ps) = if not p.used then some i else free_peer (suc i) ps

unfoldable pub new_peer : Addr → Peer
new_peer a = record { used = true; addr = a; send_seq_bit = 0; expected_seq_bit = 0 }

-- `get_peer` answers the peer's index, `none` for NULL.
unfoldable pub get_peer : List Peer → Addr → Bool → Option ℕ × List Peer
get_peer ps a create = elim (find_peer 0 a ps) [
  | some i ↦ (some i, ps)
  | none ↦
      if not create
      then (none, ps)
      else elim (free_peer 0 ps) [ some i ↦ (some i, set ps i (new_peer a)) | none ↦ (none, ps) ]
]

-- A used entry of this type, bit and peer.
abbrev pub matches : Addr → ℕ → ℕ → PendingFrame → Bool
matches a type seq f =
    f.used && (frame_type f.bytes == type && (seq_bit f.bytes == seq && addr_equal f.addr a))

abbrev pub is_message : PendingFrame → Bool
is_message f = f.used && frame_type f.bytes == message

unfoldable pub rudp_has_pending : List PendingFrame → Bool
rudp_has_pending [] = false
rudp_has_pending (f ∷ fs) = is_message f || rudp_has_pending fs

abbrev pub released : PendingFrame → PendingFrame
released f = record f { used = false }

abbrev pub after {ℓ} : {A : Type ℓ} → PendingFrame → A × List PendingFrame → A × List PendingFrame
after f (a, fs) = (a, f ∷ fs)

-- The callers do not read the frame that is copied out, so only the result and the table are kept.
unfoldable pub pending_take_frame : Addr → ℕ → ℕ → List PendingFrame → Bool × List PendingFrame
pending_take_frame a type seq [] = (false, [])
pending_take_frame a type seq (f ∷ fs) =
    if matches a type seq f
    then (true, released f ∷ fs)
    else after f (pending_take_frame a type seq fs)

-- The sender and the bytes of the first stored MESSAGE.
unfoldable pub pending_take_message_any :
    List PendingFrame → Option (Addr × List ℕ) × List PendingFrame
pending_take_message_any [] = (none, [])
pending_take_message_any (f ∷ fs) =
    if is_message f
    then (some (f.addr, f.bytes), released f ∷ fs)
    else after f (pending_take_message_any fs)

-- The loop that replaces a stored ACK or ACK_ACK of the same peer, type and bit.
unfoldable pub replace_frame : Addr → List ℕ → List PendingFrame → Option (List PendingFrame)
replace_frame a bytes [] = none
replace_frame a bytes (f ∷ fs) =
    if matches a (frame_type bytes) (seq_bit bytes) f
    then some (record f { bytes = bytes } ∷ fs)
    else elim (replace_frame a bytes fs) [ none ↦ none | some gs ↦ some (f ∷ gs) ]

unfoldable pub fill_slot : Addr → List ℕ → List PendingFrame → Option (List PendingFrame)
fill_slot a bytes [] = none
fill_slot a bytes (f ∷ fs) =
    if not f.used
    then some (record { used = true; addr = a; bytes = bytes } ∷ fs)
    else elim (fill_slot a bytes fs) [ none ↦ none | some gs ↦ some (f ∷ gs) ]

abbrev pub or_full : List PendingFrame → Option (List PendingFrame) → Bool × List PendingFrame
or_full fs none = (false, fs)
or_full fs (some gs) = (true, gs)

unfoldable pub pending_store_frame : Addr → List ℕ → List PendingFrame → Bool × List PendingFrame
unfolding replace_frame fill_slot
pending_store_frame a bytes fs =
    if ltb max_frame_size (length bytes) || ltb (length bytes) frame_header_size
    then (false, fs)
    else if frame_type bytes == message
    then or_full fs (fill_slot a bytes fs)
    else elim (replace_frame a bytes fs) [
      | some gs ↦ (true, gs)
      | none ↦ or_full fs (fill_slot a bytes fs)
    ]

unfoldable pub pending_drop_peer_frames : Addr → ℕ → List PendingFrame → List PendingFrame
pending_drop_peer_frames a type [] = []
pending_drop_peer_frames a type (f ∷ fs) =
    (if f.used && (addr_equal f.addr a && frame_type f.bytes == type) then released f else f)
    ∷ pending_drop_peer_frames a type fs
