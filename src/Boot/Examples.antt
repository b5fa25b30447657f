-- ===== src/Boot/Examples.antt =====
-- The theorems on what a node opens, on a system that gives out the next descriptor.
use psi_project.Base.{
  ℕ, suc, ◌≤◌, ◌<◌, ◌≡◌, ◌≢◌, ◌⊎◌, refl, arith, max, true, false, Option, none, some, List, [], ◌∷◌,
  ◌++◌, length, take, ok,
}
use psi_project.Cstr.{strncpy, same_name}
use psi_project.Node.{RouteConfig, Token, RingState, zero_route, zero_token}
use psi_project.Link.{Link}
use psi_project.Setup.{Variable, node_name, node_uni_port, node_broad_port}
use psi_project.Targets.{Interface}
use psi_project.Targets.Laws.{all_wanted}
use psi_project.Samples.{route, name_j, name_p, calm, predecessor}
use psi_project.Cli.{writer_token}
use psi_project.Ring.{handle_cli_if_ready}
use psi_project.Boot.{
  System, Descriptors, eexist, made, max3, broadcast_setup_socket, ring_initialize, writer_main,
  cli_setup_writer, setup_fifo,
}
use psi_project.Boot.Opened.{
  is_open, without, Opens, IsSystem, LeftOpen, bound_world, broadcast_setup_cases, initialize_cases,
}
use psi_project.Boot.Fifo.{IsFifo, writer_delivers}

-- The world is the list of open descriptors.
abbrev top : List ℕ → ℕ
top [] = 2
top (x ∷ xs) = max x (top xs)

abbrev counting : System (List ℕ)
counting = record {
  socket = λ w. (some (suc (top w)), suc (top w) ∷ w);
  setsockopt = λ w fd o. (ok, w);
  bind = λ w fd port. (ok, w);
  close = λ w fd. without fd w;
  getifaddrs = λ w. (some [], w);
  mkfifo = λ w. (eexist, w);
  open_fifo = λ w m. (some (suc (top w)), suc (top w) ∷ w);
  write = λ w fd bytes. (ok, w);
}

above : (fd : ℕ) (xs : List ℕ) → top xs < fd → is_open fd xs ≡ false
above fd [] h = refl
above fd (x ∷ xs) h = ground (arith, above fd xs (omega arith))

counting-IsSystem : IsSystem counting (λ w. w)
unfolding Opens
counting-IsSystem = record {
  socket_opens = λ w. (refl, above (suc (top w)) w (omega arith));
  open_opens = λ w m. (refl, above (suc (top w)) w (omega arith));
  close_closes = λ w fd. refl;
  setsockopt_keeps = λ w fd o. refl;
  bind_keeps = λ w fd port. refl;
  getifaddrs_keeps = λ w. refl;
  mkfifo_keeps = λ w. refl;
}

abbrev own : Variable → Option (List ℕ)
own node_name = some name_j
own node_uni_port = some (53 ∷ 48 ∷ 48 ∷ 51 ∷ [])
own node_broad_port = some (57 ∷ 48 ∷ 48 ∷ 48 ∷ [])
own _ = none

abbrev blank : RouteConfig
blank = record { current = zero_route; prev = zero_route; next = zero_route }

initialize_cases_example :
    let (ds, c, ts, w') = ring_initialize counting own blank false (2 ∷ 1 ∷ 0 ∷ []) in
    ((d : Descriptors) × (ds ≡ some d)
      × (w' ≡ d.cli_fd ∷ d.broadcast_socket ∷ d.unicast_socket ∷ 2 ∷ 1 ∷ 0 ∷ [])
      × (d.broadcast_socket ≢ d.unicast_socket)
      × (d.cli_fd ≢ d.unicast_socket)
      × (d.cli_fd ≢ d.broadcast_socket)
      × (let top = max3 d.unicast_socket d.broadcast_socket d.cli_fd in
          (d.unicast_socket ≤ top) × (d.broadcast_socket ≤ top) × (d.cli_fd ≤ top)))
    ⊎ ((ds ≡ none)
        × LeftOpen counting (λ w. w) counting-IsSystem own blank false (2 ∷ 1 ∷ 0 ∷ []) w')
initialize_cases_example =
    initialize_cases counting (λ w. w) counting-IsSystem own blank false (2 ∷ 1 ∷ 0 ∷ [])

broadcast_setup_cases_example :
    let (rc, ts', w') = broadcast_setup_socket counting (route name_j 5003) [] (2 ∷ 1 ∷ 0 ∷ []) in
    ((rc ≡ none) × (ts' ≡ []) × (w' ≡ 2 ∷ 1 ∷ 0 ∷ []))
    ⊎ ((fd : ℕ) × (ifas : List Interface) × (rc ≡ some fd)
        × Opens (some fd) (2 ∷ 1 ∷ 0 ∷ []) w'
        × ((counting.getifaddrs (bound_world counting (route name_j 5003) (2 ∷ 1 ∷ 0 ∷ []) fd)).0
            ≡ some ifas)
        × (ts' ≡ take 16 (all_wanted 9000 ifas)))
broadcast_setup_cases_example =
    broadcast_setup_cases counting (λ w. w) counting-IsSystem (route name_j 5003) []
      (2 ∷ 1 ∷ 0 ∷ [])

-- A system whose world is the bytes in the fifo, and a node that reads what the writer put there.
abbrev piping : System (List ℕ)
piping = record counting {
  socket = λ w. (none, w);
  mkfifo = λ w. (made, w);
  open_fifo = λ w m. (some 3, w);
  write = λ w fd bytes. (ok, w ++ bytes);
}

piping-IsFifo : IsFifo piping (λ w. w)
piping-IsFifo = record {
  mkfifo_keeps = λ w. refl;
  open_keeps = λ w m. refl;
  write_appends = λ w fd bytes e. refl;
}

abbrev words : List ℕ
words = 104 ∷ 105 ∷ []

abbrev piped : List ℕ
piped = (writer_main piping own (words ∷ name_p ∷ []) []).1

abbrev reading : Link ℕ
reading = record calm { cli_read = λ w. (some piped, w) }

abbrev waiting : RingState
waiting = record predecessor { token_in = record zero_token { is_empty = true } }

writer_delivers_example :
    (t : Token) × (handle_cli_if_ready reading true waiting 5
      ≡ (ok, record waiting { cli_pending = t; have_cli_pending = true }, 5))
    × (t.text ≡ strncpy 255 words ++ 0 ∷ [])
    × (same_name t.receiver name_p ≡ true)
    × (t.is_empty ≡ false)
    × (length words ≤ 255)
    × (length name_p ≤ 31)
unfolding writer_main cli_setup_writer setup_fifo writer_token
writer_delivers_example =
    writer_delivers piping (λ w. w) piping-IsFifo own words name_p [] reading waiting 5 5 refl refl
      refl refl
