-- ===== src/Unicast/Laws.antt =====
-- src/unicast.c: from a message to the bytes of a frame and back, and the end of a send.
use psi_project.Base.{
  ℕ, ◌-◌, ◌<◌, ◌≤◌, ◌^◌, ◌≡◌, ◌≢◌, ◌⊎◌, inl, inr, refl, ap, arith, none, some, List, ◌++◌, length,
  take, drop, replicate, length-append, length-replicate, take-append_exact, Option-cases, ltb,
  Bool-cases, take_exact, ltb→lt, false, ◌∙◌, length-take_le,
}
use mathlib.Core.List.{append_assoc}
use psi_project.Wire.Laws.{get16-put16}
use psi_project.Node.{Route}
use psi_project.Wire.{UnicastMsg, put16, get16}
use psi_project.Link.{message}
use psi_project.Rudp.Tables.{Addr, frame, frame_header_size}
use psi_project.Rudp.Net.{Os, Net}
use psi_project.Rudp.Protocol.Limits.{WaitsEnd, timeout_of, send_ends}
use psi_project.Unicast.{
  Names, wire_size, build_unicast_wire, read_wire, resolve_next_addr, unicast_send_limited,
}

-- The fields of a message fit their types, and its payload is the array of 512 bytes.
pub record FitsMsg (msg : UnicastMsg) : Type 0 where
  pub type : msg.type < 2 ^ 16
  pub payload_len : msg.payload_len < 2 ^ 16
  pub payload : length msg.payload ≡ 512

length-padded :
    (k : ℕ) (xs : List ℕ)
    → k ≤ 512
    → length xs ≡ 512
    → length (take k xs ++ replicate (512 - k) 0) ≡ 512
length-padded k xs h e = omega (
  arith,
  length-append (take k xs) (replicate (512 - k) 0),
  length-take_le k xs,
  length-replicate {A = ℕ} (512 - k) 0,
)

-- What the receiver makes of the bytes that were sent, over the message that it had.
pub carried : UnicastMsg → UnicastMsg → UnicastMsg
carried msg old = record msg {
  payload = take msg.payload_len msg.payload ++ drop msg.payload_len old.payload;
}

abbrev padded : ℕ → List ℕ → List ℕ
padded k xs = take k xs ++ replicate (512 - k) 0

-- The payload is read back, whatever follows it.
take-padded :
    (k : ℕ) (xs rest : List ℕ)
    → k ≤ 512
    → length xs ≡ 512
    → take k (padded k xs ++ rest) ≡ take k xs
take-padded k xs rest h e =
    rw (append_assoc (take k xs) (replicate (512 - k) 0) rest)
      (take-append_exact k (take k xs) _ (length-take_le k xs (omega arith)))

read_lem :
    (type k : ℕ) (xs stale : List ℕ) (old : UnicastMsg)
    → type < 2 ^ 16
    → k ≤ 512
    → length xs ≡ 512
    → read_wire stale old (put16 type (put16 k (padded k xs)))
      ≡ message (record { type = type; payload_len = k; payload = take k xs ++ drop k old.payload })
unfolding read_wire
read_lem type k xs stale old t h e =
    let wire = put16 type (put16 k (padded k xs)) in
    let rest : List ℕ = drop (length wire) stale in
    let len : get16 (put16 k (padded k xs ++ rest)) ≡ k =
      get16-put16 k (padded k xs ++ rest) (omega arith) in
    let kind = get16-put16 type (put16 k (padded k xs ++ rest)) t in
    let short : ltb 512 k ≡ false = ground arith in
    rw (len, kind, short, take-padded k xs rest h e) refl

sent_whole :
    (seq : ℕ) (wire : List ℕ)
    → length wire ≡ wire_size
    → take wire_size (drop frame_header_size (frame 0 seq wire)) ≡ wire
unfolding frame
sent_whole seq wire h = take_exact 516 wire h

-- A message of at most 512 bytes is sent as 516 bytes, from which the receiver gets its type,
-- its length and that many bytes of its payload, whatever its frame buffer held; a longer one is
-- refused. Its fields fit their types, and its payload is an array of 512 bytes.
pub read-build :
    (stale : List ℕ) (msg old : UnicastMsg) (seq : ℕ)
    → FitsMsg msg
    → ((512 < msg.payload_len) × (build_unicast_wire msg ≡ none))
      ⊎ ((wire : List ℕ) × (build_unicast_wire msg ≡ some wire)
          × (length wire ≡ wire_size)
          × (read_wire stale old (take wire_size (drop frame_header_size (frame 0 seq wire)))
              ≡ message (carried msg old)))
unfolding build_unicast_wire carried
read-build stale msg old seq f = elim (Bool-cases (ltb 512 msg.payload_len)) [
  | inl long ↦ inl (ltb→lt 512 msg.payload_len long, rw long refl)
  | inr short ↦
      let le : msg.payload_len ≤ 512 = ground arith in
      let body : List ℕ = padded msg.payload_len msg.payload in
      let wire = put16 msg.type (put16 msg.payload_len body) in
      let size = length-padded msg.payload_len msg.payload le f.payload in
      let whole = sent_whole seq wire (omega arith) in
      inr (
        wire,
        rw short refl,
        omega arith,
        ap (read_wire stale old) whole
            ∙ read_lem msg.type msg.payload_len msg.payload stale old f.type le f.payload,
      )
]

module _ (os : Os) (names : Names) where
  -- A send with a limit returns, whatever name is looked up, if each wait for an acknowledgement
  -- returns and the fuel is above the limit.
  pub send_limited_ends :
      (wait_fuel fuel : ℕ) (msg : UnicastMsg) (next : Route) (us max : ℕ) (n : Net)
      → ((to : Addr) (seq : ℕ) → WaitsEnd os wait_fuel to seq (timeout_of us))
      → 0 < max
      → max < fuel
      → unicast_send_limited os names wait_fuel fuel msg next us max n ≢ none
  unfolding unicast_send_limited
  send_limited_ends wait_fuel fuel msg next us max n ends m h =
      elim (Option-cases (resolve_next_addr names next)) [
        | inl e ↦ rw (unicast_send_limited, e) (λ c. cc)
        | inr (to, e) ↦ elim (Option-cases (build_unicast_wire msg)) [
          | inl e2 ↦ rw (unicast_send_limited, e, e2) (λ c. cc)
          | inr (wire, e2) ↦
              rw (unicast_send_limited, e, e2)
                (send_ends os wait_fuel fuel wire to us max n (ends to) m h)
        ]
      ]
