-- ===== src/Cli/Laws.antt =====
-- The token of src/writer.c, and what the reader of src/cli.c makes of its bytes.
use psi_project.Base.{
  ℕ, ◌<◌, ◌≤◌, ◌≡◌, ◌⊎◌, inl, inr, refl, true, false, arith, Option, none, some, List, [], ◌∷◌,
  ◌++◌, length, length-append, Bool-cases, ltb, ltb→lt,
}
use psi_project.Cstr.{Name, strncpy, copy_name, same_name}
use psi_project.Cstr.Laws.{
  length-copy_name, length-strncpy, IsName, same_name-copy_name, length-text,
}
use psi_project.Node.{Token}
use psi_project.Wire.{encode_token}
use psi_project.Wire.Laws.{FitsToken, decode-encode_token}
use psi_project.Cli.{overwrite, writer_token}

-- A whole token that is read replaces the one before it.
pub overwrite-encode_token : (old t : Token) → FitsToken t → overwrite old (encode_token t) ≡ t
unfolding overwrite
overwrite-encode_token old t f = decode-encode_token t _ f

abbrev written : List ℕ → Name → Name → Token
written words receiver name = record {
  text = strncpy 255 words ++ 0 ∷ [];
  sender = copy_name name;
  receiver = copy_name receiver;
  topo_version = 0;
  is_empty = false;
}

written-FitsToken :
    (words : List ℕ) (receiver name : Name) → FitsToken (written words receiver name)
written-FitsToken words receiver name = record {
  text = omega (arith, length-append (strncpy 255 words) (0 ∷ []), length-strncpy 255 words);
  sender = length-copy_name name;
  receiver = length-copy_name receiver;
  topo_version = omega arith;
}

-- The writer refuses a text of more than 255 bytes, a receiver's name of more than 31, and a missing
-- sender. Otherwise its token fits the buffers, is full, and names its receiver and has its text.
pub writer_token_cases :
    (words : List ℕ) (receiver : Name) (sender : Option Name)
    → ((writer_token words receiver sender ≡ none)
        × ((255 < length words) ⊎ ((31 < length receiver) ⊎ (sender ≡ none))))
      ⊎ ((t : Token) × (writer_token words receiver sender ≡ some t)
          × (length words ≤ 255)
          × (length receiver ≤ 31)
          × FitsToken t
          × (t.is_empty ≡ false)
          × (same_name t.receiver receiver ≡ true)
          × (t.text ≡ strncpy 255 words ++ 0 ∷ []))
unfolding writer_token
writer_token_cases words receiver none = inl (ground arith, inr (inr refl))
writer_token_cases words receiver (some name) = elim (Bool-cases (ltb 255 (length words))) [
  | inl long ↦ inl (rw long, inl (ltb→lt _ _ long))
  | inr short ↦ elim (Bool-cases (ltb 31 (length receiver))) [
    | inl far ↦ inl (rw (short, far), inr (inl (ltb→lt _ _ far)))
    | inr near ↦
        let named : IsName receiver = ground (arith, length-text 32 receiver) in
        inr (
          written words receiver name,
          rw (short, near),
          ground arith,
          ground arith,
          written-FitsToken words receiver name,
          refl,
          same_name-copy_name receiver named,
          refl,
        )
  ]
]
