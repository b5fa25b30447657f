-- ===== src/Rudp/Tables/Pending.antt =====
-- The stored frames of src/rudp.c: storing, taking and dropping, and the order of the messages.
use psi_project.Base.{
  ℕ, suc, ◌<◌, ◌≤◌, ◌≡◌, ◌⊎◌, inl, inr, refl, true, false, Option, none, some, List, [], ◌∷◌, ◌++◌,
  if◌then◌else◌, length, arith, All, ap, Bool-cases,
}
use psi_project.Rudp.Tables.{
  Addr, PendingFrame, message, frame_type, seq_bit, frame, addr_equal, matches, is_message,
  rudp_has_pending, pending_take_frame, pending_take_message_any, replace_frame, fill_slot,
  pending_store_frame, pending_drop_peer_frames, frame_header_size, max_frame_size,
}

-- A frame is read back from its bytes.
pub frame_fields :
    (type seq : ℕ) (body : List ℕ)
    → type < 3
    → (frame_type (frame type seq body) ≡ type) × (seq_bit (frame type seq body) ≡ seq)
unfolding frame_type seq_bit frame
frame_fields type seq body h = (omega arith, refl)

-- How many MESSAGE frames are stored.
unfoldable pub messages : List PendingFrame → ℕ
messages [] = 0
messages (f ∷ fs) = if is_message f then suc (messages fs) else messages fs

-- `rudp_has_pending` says whether `pending_take_message_any` will find a frame, and the take removes
-- one MESSAGE.
pub has_pending_take :
    (fs : List PendingFrame)
    → let (taken, gs) = pending_take_message_any fs in
      ((rudp_has_pending fs ≡ false) × (taken ≡ none) × (gs ≡ fs))
      ⊎ ((rudp_has_pending fs ≡ true)
          × ((a : Addr) × (bytes : List ℕ) × (taken ≡ some (a, bytes))
              × (frame_type bytes ≡ message)
              × (messages fs ≡ suc (messages gs))))
unfolding rudp_has_pending pending_take_message_any messages
has_pending_take [] = inl (refl, refl, refl)
has_pending_take (f ∷ fs) = elim (Bool-cases (is_message f)) [
  | inl hit ↦ inr (ground arith, (f.addr, f.bytes, ground arith, ground arith, ground arith))
  | inr miss ↦ elim (has_pending_take fs) [
    | inl (e, t, g) ↦ inl (ground arith, ground arith, ground arith)
    | inr (e, (a, bytes, t, m, c)) ↦ inr (ground arith, (a, bytes, ground arith, m, ground arith))
  ]
]

pub has_pending-messages : (fs : List PendingFrame) → rudp_has_pending fs ≡ false → messages fs ≡ 0
unfolding rudp_has_pending messages
has_pending-messages [] h = refl
has_pending-messages (f ∷ fs) h = ground (arith, has_pending-messages fs)

-- A stored frame of a peer, type and bit is given and its slot freed; the other slots stay.
pub record Taken (a : Addr) (type seq : ℕ) (fs gs : List PendingFrame) : Type 0 where
  pub before : List PendingFrame
  pub taken : PendingFrame
  pub after_it : List PendingFrame
  pub was : fs ≡ before ++ taken ∷ after_it
  pub now : gs ≡ before ++ record taken { used = false } ∷ after_it
  pub stored : taken.used ≡ true
  pub from : addr_equal taken.addr a ≡ true
  pub of_type : frame_type taken.bytes ≡ type
  pub with_bit : seq_bit taken.bytes ≡ seq

pub take-Taken :
    (a : Addr) (type seq : ℕ) (fs : List PendingFrame)
    → (pending_take_frame a type seq fs).0 ≡ true
    → Taken a type seq fs (pending_take_frame a type seq fs).1
unfolding pending_take_frame
take-Taken a type seq [] h = absurd (ground arith)
take-Taken a type seq (f ∷ fs) h = elim (Bool-cases (matches a type seq f)) [
  | inl hit ↦ record {
    before = [];
    taken = f;
    after_it = fs;
    was = refl;
    now = ground arith;
    stored = ground arith;
    from = ground arith;
    of_type = ground arith;
    with_bit = ground arith;
  }
  | inr miss ↦
      let t = take-Taken a type seq fs (ground arith) in
      record {
        before = f ∷ t.before;
        taken = t.taken;
        after_it = t.after_it;
        was = ap (λ xs. f ∷ xs) t.was;
        now = ground (arith, t.now);
        stored = t.stored;
        from = t.from;
        of_type = t.of_type;
        with_bit = t.with_bit;
      }
]

-- An acknowledgement of this peer, type and bit is in the table.
abbrev pub Holds : Addr → ℕ → ℕ → Option (List PendingFrame) → Type 0
Holds a type seq none = Unit
Holds a type seq (some gs) = (pending_take_frame a type seq gs).0 ≡ true

take-replace :
    (a : Addr) (bytes : List ℕ) (fs : List PendingFrame)
    → Holds a (frame_type bytes) (seq_bit bytes) (replace_frame a bytes fs)
unfolding replace_frame pending_take_frame
take-replace a bytes [] = tt
take-replace a bytes (f ∷ fs) = ground (arith, take-replace a bytes fs)

take-fill :
    (a : Addr) (bytes : List ℕ) (fs : List PendingFrame)
    → Holds a (frame_type bytes) (seq_bit bytes) (fill_slot a bytes fs)
unfolding fill_slot pending_take_frame
take-fill a bytes [] = tt
take-fill a bytes (f ∷ fs) = ground (arith, take-fill a bytes fs)

-- A frame that was stored is found by the wait for its peer, type and bit.
pub take-store :
    (a : Addr) (bytes : List ℕ) (fs : List PendingFrame)
    → let (stored, gs) = pending_store_frame a bytes fs in
      stored ≡ true → (pending_take_frame a (frame_type bytes) (seq_bit bytes) gs).0 ≡ true
unfolding pending_store_frame
take-store a bytes fs = ground (arith, take-replace a bytes fs, take-fill a bytes fs)

-- After the frames of a peer and type are dropped, no wait finds one of them.
pub take-drop :
    (a : Addr) (type seq : ℕ) (fs : List PendingFrame)
    → (pending_take_frame a type seq (pending_drop_peer_frames a type fs)).0 ≡ false
unfolding pending_take_frame pending_drop_peer_frames
take-drop a type seq [] = refl
take-drop a type seq (f ∷ fs) = ground (arith, take-drop a type seq fs)

fill_first_free :
    (a : Addr) (bytes : List ℕ) (xs ys : List PendingFrame) (free : PendingFrame)
    → All (λ f. (f.used ≡ true) × (is_message f ≡ false)) xs
    → free.used ≡ false
    → frame_type bytes ≡ message
    → (gs : List PendingFrame) × (fill_slot a bytes (xs ++ free ∷ ys) ≡ some gs)
      × ((pending_take_message_any gs).0 ≡ some (a, bytes))
unfolding fill_slot pending_take_message_any
fill_first_free a bytes [] ys free h u m =
    (record { used = true; addr = a; bytes = bytes } ∷ ys, ground arith, ground arith)
fill_first_free a bytes (x ∷ xs) ys free h u m =
    let (gs, e, t) = fill_first_free a bytes xs ys free h.1 u m in
    (x ∷ gs, ground arith, ground arith)

-- A MESSAGE that is stored while a slot is free before the other stored messages is taken before
-- them, although it came after them. The frame is not shorter than its header and not longer
-- than MAX_FRAME_SIZE.
pub store_overtakes :
    (a : Addr) (bytes : List ℕ) (xs ys : List PendingFrame) (free : PendingFrame)
    → frame_type bytes ≡ message
    → frame_header_size ≤ length bytes
    → length bytes ≤ max_frame_size
    → All (λ f. (f.used ≡ true) × (is_message f ≡ false)) xs
    → free.used ≡ false
    → (pending_take_message_any (pending_store_frame a bytes (xs ++ free ∷ ys)).1).0
      ≡ some (a, bytes)
unfolding pending_store_frame
store_overtakes a bytes xs ys free m lo hi h u =
    let (gs, e, t) = fill_first_free a bytes xs ys free h u m in ground arith
