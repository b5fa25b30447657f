-- ===== src/Boot/Fifo.antt =====
-- A message from the writer (src/writer.c) through the fifo (src/cli.c) to a node that reads it
-- (src/ring.c). The fifo's bytes are a function of the world of the writer.
use psi_project.Base.{
  ℕ, ◌≤◌, ◌≡◌, inl, inr, arith, true, false, Option, some, List, [], ◌∷◌, ◌++◌, length, ok,
  Rc-cases, Option-cases,
}
use psi_project.Cstr.{same_name, strncpy}
use psi_project.Node.{RingState, Token}
use psi_project.Wire.{encode_token}
use psi_project.Link.{Link}
use psi_project.Setup.{Variable, node_name}
use psi_project.Cli.{writer_token}
use psi_project.Cli.Laws.{writer_token_cases}
use psi_project.Ring.{handle_cli_if_ready}
use psi_project.Ring.Tokens.{cli_delivers}
use psi_project.Boot.{
  System, OpenMode, o_wronly, exit_success, setup_fifo, cli_setup_writer, writer_main,
}

-- The writer's calls and the bytes that wait in the fifo: a write that succeeds puts all its bytes
-- behind them, as for any write to a fifo of at most PIPE_BUF bytes.
pub record IsFifo {W : Type 0} (sys : System W) (fifo : W → List ℕ) : Type 0 where
  pub mkfifo_keeps : (w : W) → fifo (sys.mkfifo w).1 ≡ fifo w
  pub open_keeps : (w : W) (m : OpenMode) → fifo (sys.open_fifo w m).1 ≡ fifo w
  pub write_appends :
      (w : W) (fd : ℕ) (bytes : List ℕ)
      → (sys.write w fd bytes).0 ≡ ok
      → fifo (sys.write w fd bytes).1 ≡ fifo w ++ bytes

module _ {W : Type 0} (sys : System W) (fifo : W → List ℕ) (lawful : IsFifo sys fifo) where
  setup_keeps : (w : W) → fifo (cli_setup_writer sys w).1 ≡ fifo w
  unfolding cli_setup_writer setup_fifo
  setup_keeps w = ground (arith, lawful.mkfifo_keeps w, lawful.open_keeps (sys.mkfifo w).1 o_wronly)

  -- A writer that ends with success has put one whole token behind the bytes of the fifo.
  writer_appends :
      (getenv : Variable → Option (List ℕ)) (words receiver : List ℕ) (w : W)
      → (writer_main sys getenv (words ∷ receiver ∷ []) w).0 ≡ exit_success
      → (t : Token) × (writer_token words receiver (getenv node_name) ≡ some t)
        × (fifo (writer_main sys getenv (words ∷ receiver ∷ []) w).1 ≡ fifo w ++ encode_token t)
  unfolding writer_main
  writer_appends getenv words receiver w e =
      elim (Option-cases (writer_token words receiver (getenv node_name))) [
        | inl f ↦ absurd (ground arith)
        | inr (t, f) ↦
            let (cli, w1) = cli_setup_writer sys w in
            elim (Option-cases cli) [
              | inl g ↦ absurd (ground arith)
              | inr (fd, g) ↦ elim (Rc-cases (sys.write w1 fd (encode_token t)).0) [
                | inr h ↦ absurd (ground arith)
                | inl h ↦ (
                  t,
                  f,
                  ground (arith, lawful.write_appends w1 fd (encode_token t) h, setup_keeps w),
                )
              ]
            ]
      ]

  -- A message that the writer accepts reaches a node: the writer ends with success on a fifo that
  -- was empty, and the node reads what then stands in the fifo, its token being an empty one.
  -- Then the node has a message pending, with the text and the receiver of the writer's arguments,
  -- also where another message was pending. Both arguments fit their buffers.
  pub writer_delivers :
      (getenv : Variable → Option (List ℕ)) (words receiver : List ℕ) (w : W) {V : Type 0}
      (net : Link V) (s : RingState) (v v' : V)
      → (writer_main sys getenv (words ∷ receiver ∷ []) w).0 ≡ exit_success
      → fifo w ≡ []
      → s.token_in.is_empty ≡ true
      → net.cli_read v ≡ (some (fifo (writer_main sys getenv (words ∷ receiver ∷ []) w).1), v')
      → (t : Token) × (handle_cli_if_ready net true s v
          ≡ (ok, record s { cli_pending = t; have_cli_pending = true }, v'))
        × (t.text ≡ strncpy 255 words ++ 0 ∷ [])
        × (same_name t.receiver receiver ≡ true)
        × (t.is_empty ≡ false)
        × (length words ≤ 255)
        × (length receiver ≤ 31)
  writer_delivers getenv words receiver w net s v v' e empty idle read =
      let (t, built, stands) = writer_appends getenv words receiver w e in
      elim (writer_token_cases words receiver (getenv node_name)) [
        | inl (no_token, why) ↦ absurd (ground arith)
        | inr (t', built', short, near, fits, full, named, has) ↦
            let now_reads : net.cli_read v ≡ (some (encode_token t'), v') = ground arith in
            let taken = cli_delivers net s v v' t' fits now_reads in
            (t', ground (arith, taken), has, named, full, short, near)
      ]
