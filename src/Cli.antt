-- ===== src/Cli.antt =====
-- The command line: the reader of src/cli.c and the token that src/writer.c sends through the fifo.
pub mod Laws
use psi_project.Base.{
  ℕ, ◌-◌, Bool, true, false, Option, none, some, List, [], ◌∷◌, ◌++◌, ltb, if◌then◌else◌, Rc, ok,
  err, length, drop,
}
use psi_project.Cstr.{Name, strncpy, copy_name, data_size, name_size}
use psi_project.Node.{Token}
use psi_project.Wire.{encode_token, decode_token}
use psi_project.Link.{Link}

-- The bytes read land over the front of the token; a short read leaves the rest as it was.
unfoldable pub overwrite : Token → List ℕ → Token
unfolding decode_token encode_token
overwrite token bytes = decode_token (bytes ++ drop (length bytes) (encode_token token))

unfoldable pub cli_handle_read : {W : Type 0} (net : Link W) → Token → W → Rc × Token × W
cli_handle_read net token w =
    let (got, w') = net.cli_read w in
    elim got [ none ↦ (err, token, w') | some bytes ↦ (ok, overwrite token bytes, w') ]

-- `main` of the writer after its argument count: the bytes that it writes, or `none` where it exits
-- with a failure. An argument is its text without the NUL, so `strlen` is its length.
unfoldable pub writer_token : List ℕ → Name → Option Name → Option Token
unfolding copy_name strncpy
writer_token text receiver sender =
    if ltb (data_size - 1) (length text)
    then none
    else if ltb (name_size - 1) (length receiver)
    then none
    else elim sender [
      | none ↦ none
      | some name ↦ some (record {
        text = strncpy (data_size - 1) text ++ 0 ∷ [];
        sender = copy_name name;
        receiver = copy_name receiver;
        topo_version = 0;
        is_empty = false;
      })
    ]
