-- ===== src/Boot.antt =====
-- How a node comes up: the sockets and the fifo that it opens (unicast_setup_socket of
-- src/unicast.c, broadcast_setup_socket of src/broadcast.c, the two openings of src/cli.c),
-- `ring_initialize` of src/ring.c, and the parts that write to the fifo in src/writer.c. The system
-- calls are a parameter.
pub mod Opened
pub mod Fifo
mod Examples
use psi_project.Base.{
  ℕ, Bool, true, false, Option, none, some, List, [], ◌∷◌, ltb, if◌then◌else◌, Rc, ok, err,
}
use psi_project.Cstr.{Name}
use psi_project.Node.{Route, RouteConfig, Token}
use psi_project.Wire.{encode_token}
use psi_project.Setup.{Variable, node_name, fill_config_from_env}
use psi_project.Targets.{Interface, Target, broadcast_collect_targets}
use psi_project.Cli.{writer_token}

pub data SocketOption : Type 0 where
  so_broadcast : SocketOption
  so_reuseaddr : SocketOption

pub data OpenMode : Type 0 where
  o_rdwr : OpenMode
  o_wronly : OpenMode

-- The answers of mkfifo: 0, -1 with EEXIST, or -1 with another error.
pub data Mkfifo : Type 0 where
  made : Mkfifo
  eexist : Mkfifo
  refused : Mkfifo

-- The system calls, on a world that they may change; `none` stands for -1. Every socket is
-- `socket (AF_INET, SOCK_DGRAM, 0)`, every bind is to INADDR_ANY and a port, and every fifo is
-- FIFO_FILE with FIFO_FILE_PERMISSIONS. What `close` returns is not looked at.
pub record System (W : Type 0) : Type 0 where
  pub socket : W → Option ℕ × W
  pub setsockopt : W → ℕ → SocketOption → Rc × W
  pub bind : W → ℕ → ℕ → Rc × W
  pub close : W → ℕ → W
  pub getifaddrs : W → Option (List Interface) × W
  pub mkfifo : W → Mkfifo × W
  pub open_fifo : W → OpenMode → Option ℕ × W
  pub write : W → ℕ → List ℕ → Rc × W

pub record Descriptors : Type 0 where
  pub unicast_socket : ℕ
  pub broadcast_socket : ℕ
  pub cli_fd : ℕ

-- The length of the array `targets`.
abbrev pub max_targets : ℕ
max_targets = 16

pub data Exit : Type 0 where
  exit_success : Exit
  exit_failure : Exit

-- MAX3
unfoldable pub max3 : ℕ → ℕ → ℕ → ℕ
max3 x y z = if ltb y x then if ltb z x then x else z else if ltb z y then y else z

module _ {W : Type 0} (sys : System W) where
  -- A socket that cannot be bound stays open.
  unfoldable pub unicast_setup_socket : Route → W → Option ℕ × W
  unicast_setup_socket current w =
      let (opened, w1) = sys.socket w in
      elim opened [
        | none ↦ (none, w1)
        | some sock_fd ↦
            let (bound, w2) = sys.bind w1 sock_fd current.unicast_port in
            elim bound [ err ↦ (none, w2) | ok ↦ (some sock_fd, w2) ]
      ]

  -- The descriptor, and what the static `targets` and `targets_count` hold afterwards.
  unfoldable pub broadcast_setup_socket : Route → List Target → W → Option ℕ × List Target × W
  broadcast_setup_socket current targets w =
      let (opened, w1) = sys.socket w in
      elim opened [
        | none ↦ (none, targets, w1)
        | some sock_fd ↦
            let (broadcast, w2) = sys.setsockopt w1 sock_fd so_broadcast in
            let (reuse, w3) = sys.setsockopt w2 sock_fd so_reuseaddr in
            let (bound, w4) = sys.bind w3 sock_fd current.broadcast_port in
            let (ifas, w5) = sys.getifaddrs w4 in
            elim broadcast [
              | err ↦ (none, targets, sys.close w2 sock_fd)
              | ok ↦ elim reuse [
                | err ↦ (none, targets, sys.close w3 sock_fd)
                | ok ↦ elim bound [
                  | err ↦ (none, targets, sys.close w4 sock_fd)
                  | ok ↦ elim (broadcast_collect_targets ifas current.broadcast_port max_targets) [
                    | none ↦ (none, targets, sys.close w5 sock_fd)
                    | some found ↦ (some sock_fd, found, w5)
                  ]
                ]
              ]
            ]
      ]

  -- `cli_setup_reader` and `cli_setup_writer` differ in the mode of open only.
  unfoldable pub setup_fifo : OpenMode → W → Option ℕ × W
  setup_fifo mode w =
      let (fifo, w1) = sys.mkfifo w in
      let opened = sys.open_fifo w1 mode in
      elim fifo [ refused ↦ (none, w1) | eexist ↦ opened | made ↦ opened ]

  unfoldable pub cli_setup_reader : W → Option ℕ × W
  cli_setup_reader w = setup_fifo o_rdwr w

  unfoldable pub cli_setup_writer : W → Option ℕ × W
  cli_setup_writer w = setup_fifo o_wronly w

  -- The routes that are filled in, the descriptors unless it fails, and the targets.
  unfoldable pub ring_initialize :
      (Variable → Option (List ℕ))
      → RouteConfig
      → Bool
      → W
      → Option Descriptors × RouteConfig × List Target × W
  ring_initialize getenv config joined w =
      let (c, filled) = fill_config_from_env getenv config joined in
      elim filled [
        | err ↦ (none, c, [], w)
        | ok ↦
            let (unicast, w1) = unicast_setup_socket c.current w in
            elim unicast [
              | none ↦ (none, c, [], w1)
              | some unicast_socket ↦
                  let (broadcast, targets, w2) = broadcast_setup_socket c.current [] w1 in
                  elim broadcast [
                    | none ↦ (none, c, targets, w2)
                    | some broadcast_socket ↦
                        let (cli, w3) = cli_setup_reader w2 in
                        elim cli [
                          | none ↦ (none, c, targets, w3)
                          | some cli_fd ↦ (
                            some (record {
                              unicast_socket = unicast_socket;
                              broadcast_socket = broadcast_socket;
                              cli_fd = cli_fd;
                            }),
                            c,
                            targets,
                            w3,
                          )
                        ]
                  ]
            ]
      ]

  -- `main` of the writer on the arguments after the name of the program.
  unfoldable pub writer_main : (Variable → Option (List ℕ)) → List (List ℕ) → W → Exit × W
  writer_main getenv (text ∷ receiver ∷ []) w =
      let (cli, w1) = cli_setup_writer w in
      elim (writer_token text receiver (getenv node_name)) [
        | none ↦ (exit_failure, w)
        | some token ↦ elim cli [
          | none ↦ (exit_failure, w1)
          | some cli_fd ↦
              let (rc, w2) = sys.write w1 cli_fd (encode_token token) in
              elim rc [ err ↦ (exit_failure, w2) | ok ↦ (exit_success, w2) ]
        ]
      ]
  writer_main getenv _ w = (exit_failure, w)
