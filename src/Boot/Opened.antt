-- ===== src/Boot/Opened.antt =====
-- Which descriptors are open once src/ring.c, src/unicast.c, src/broadcast.c and src/cli.c have set
-- up what a node needs, on system calls that keep to their documentation.
use psi_project.Base.{
  ℕ, ◌≤◌, ◌≡◌, ap, ◌∙◌, ◌≢◌, ◌⊎◌, inl, inr, refl, arith, Bool, false, ◌||◌, ◌==◌, ==_refl, Option,
  none, some, List, [], ◌∷◌, if◌then◌else◌, err, take, Option-cases, Rc-cases,
}
use psi_project.Node.{Route, RouteConfig}
use psi_project.Setup.{Variable, fill_config_from_env}
use psi_project.Targets.{Interface, Target, broadcast_collect_targets}
use psi_project.Targets.Laws.{all_wanted, collect_targets-wanted}
use psi_project.Boot.{
  System, SocketOption, so_broadcast, so_reuseaddr, OpenMode, o_rdwr, Mkfifo, made, eexist, refused,
  Descriptors, max3, unicast_setup_socket, broadcast_setup_socket, setup_fifo, cli_setup_reader,
  ring_initialize,
}

abbrev pub is_open : ℕ → List ℕ → Bool
is_open fd [] = false
is_open fd (x ∷ xs) = fd == x || is_open fd xs

abbrev pub without : ℕ → List ℕ → List ℕ
without fd [] = []
without fd (x ∷ xs) = let rest = without fd xs in if fd == x then xs else x ∷ rest

-- A call that opens adds a descriptor that was not open, and otherwise nothing.
unfoldable pub Opens : Option ℕ → List ℕ → List ℕ → Type 0
Opens none before after = after ≡ before
Opens (some fd) before after = (after ≡ fd ∷ before) × (is_open fd before ≡ false)

-- What the manual pages say of the calls, by the list of the open descriptors of a world.
pub record IsSystem {W : Type 0} (sys : System W) (opens : W → List ℕ) : Type 0 where
  pub socket_opens : (w : W) → Opens (sys.socket w).0 (opens w) (opens (sys.socket w).1)
  pub open_opens :
      (w : W) (m : OpenMode) → Opens (sys.open_fifo w m).0 (opens w) (opens (sys.open_fifo w m).1)
  pub close_closes : (w : W) (fd : ℕ) → opens (sys.close w fd) ≡ without fd (opens w)
  pub setsockopt_keeps :
      (w : W) (fd : ℕ) (o : SocketOption) → opens (sys.setsockopt w fd o).1 ≡ opens w
  pub bind_keeps : (w : W) (fd port : ℕ) → opens (sys.bind w fd port).1 ≡ opens w
  pub getifaddrs_keeps : (w : W) → opens (sys.getifaddrs w).1 ≡ opens w
  pub mkfifo_keeps : (w : W) → opens (sys.mkfifo w).1 ≡ opens w

refused? : (m : Mkfifo) → (m ≡ refused) ⊎ ((m ≡ made) ⊎ (m ≡ eexist))
refused? made = inr (inl refl)
refused? eexist = inr (inr refl)
refused? refused = inl refl

without-cons : (fd : ℕ) (xs : List ℕ) → without fd (fd ∷ xs) ≡ xs
without-cons fd xs = rw (==_refl fd) refl

-- The world in which the network interfaces are listed.
abbrev pub bound_world : {W : Type 0} → System W → Route → W → ℕ → W
bound_world sys current w fd =
    let w2 = (sys.setsockopt (sys.socket w).1 fd so_broadcast).1 in
    let w3 = (sys.setsockopt w2 fd so_reuseaddr).1 in (sys.bind w3 fd current.broadcast_port).1

module _ {W : Type 0} (sys : System W) (opens : W → List ℕ) (lawful : IsSystem sys opens) where
  -- A descriptor that is closed while it is the last that was opened.
  closes :
      (fd : ℕ) (w w1 v : W)
      → Opens (some fd) (opens w) (opens w1)
      → opens v ≡ opens w1
      → opens (sys.close v fd) ≡ opens w
  unfolding Opens
  closes fd w w1 v opened e =
      lawful.close_closes v fd ∙ (ap (without fd) (e ∙ opened.0) ∙ without-cons fd (opens w))

  -- The unicast socket is open exactly if `socket` succeeded: also where bind failed and the function
  -- returns -1.
  pub unicast_setup_cases :
      (current : Route) (w : W)
      → let (rc, w') = unicast_setup_socket sys current w in
        let (fd?, w1) = sys.socket w in
        ((fd? ≡ none) × (rc ≡ none) × (opens w' ≡ opens w))
        ⊎ ((fd : ℕ) × (fd? ≡ some fd)
            × Opens (some fd) (opens w) (opens w')
            × (((rc ≡ none) × ((sys.bind w1 fd current.unicast_port).0 ≡ err)) ⊎ (rc ≡ some fd)))
  unfolding unicast_setup_socket Opens
  unicast_setup_cases current w = elim (Option-cases (sys.socket w).0) [
    | inl e ↦ inl (e, ground arith, ground (arith, rw e at (lawful.socket_opens w)))
    | inr (fd, e) ↦
        let w1 = (sys.socket w).1 in
        let kept = lawful.bind_keeps w1 fd current.unicast_port in
        let opened : Opens (some fd) (opens w) (opens w1) = rw e at (lawful.socket_opens w) in
        elim (Rc-cases (sys.bind w1 fd current.unicast_port).0) [
          | inl b ↦ inr (fd, e, ground (arith, kept, opened), inr (ground arith))
          | inr b ↦ inr (fd, e, ground (arith, kept, opened), inl (ground arith, b))
        ]
  ]

  -- The broadcast socket is open exactly if the function returns it: every failure after `socket`
  -- closes it again, and then the targets are as before. With a socket the targets are those of the
  -- first sixteen usable interfaces.
  pub broadcast_setup_cases :
      (current : Route) (ts : List Target) (w : W)
      → let (rc, ts', w') = broadcast_setup_socket sys current ts w in
        ((rc ≡ none) × (ts' ≡ ts) × (opens w' ≡ opens w))
        ⊎ ((fd : ℕ) × (ifas : List Interface) × (rc ≡ some fd)
            × Opens (some fd) (opens w) (opens w')
            × ((sys.getifaddrs (bound_world sys current w fd)).0 ≡ some ifas)
            × (ts' ≡ take 16 (all_wanted current.broadcast_port ifas)))
  unfolding broadcast_setup_socket Opens broadcast_collect_targets
  broadcast_setup_cases current ts w = elim (Option-cases (sys.socket w).0) [
    | inl e ↦ inl (ground arith, ground arith, ground (arith, rw e at (lawful.socket_opens w)))
    | inr (fd, e) ↦
        let w1 = (sys.socket w).1 in
        let w2 = (sys.setsockopt w1 fd so_broadcast).1 in
        let w3 = (sys.setsockopt w2 fd so_reuseaddr).1 in
        let w4 = (sys.bind w3 fd current.broadcast_port).1 in
        let w5 = (sys.getifaddrs w4).1 in
        let opened : Opens (some fd) (opens w) (opens w1) = rw e at (lawful.socket_opens w) in
        let at2 : opens w2 ≡ opens w1 = lawful.setsockopt_keeps w1 fd so_broadcast in
        let at3 : opens w3 ≡ opens w1 = lawful.setsockopt_keeps w2 fd so_reuseaddr ∙ at2 in
        let at4 : opens w4 ≡ opens w1 = lawful.bind_keeps w3 fd current.broadcast_port ∙ at3 in
        let at5 : opens w5 ≡ opens w1 = lawful.getifaddrs_keeps w4 ∙ at4 in
        elim (Rc-cases (sys.setsockopt w1 fd so_broadcast).0) [
          | inr b ↦ inl (ground arith, ground arith, ground (arith, closes fd w w1 w2 opened at2))
          | inl b ↦ elim (Rc-cases (sys.setsockopt w2 fd so_reuseaddr).0) [
            | inr c ↦ inl (ground arith, ground arith, ground (arith, closes fd w w1 w3 opened at3))
            | inl c ↦ elim (Rc-cases (sys.bind w3 fd current.broadcast_port).0) [
              | inr d ↦
                  inl (ground arith, ground arith, ground (arith, closes fd w w1 w4 opened at4))
              | inl d ↦ elim (Option-cases (sys.getifaddrs w4).0) [
                | inl g ↦
                    inl (ground arith, ground arith, ground (arith, closes fd w w1 w5 opened at5))
                | inr (ifas, g) ↦
                    let found = collect_targets-wanted ifas current.broadcast_port 16 in
                    inr (
                      fd,
                      ifas,
                      ground (arith, found),
                      ground (arith, found, opened, at5),
                      g,
                      ground (arith, found),
                    )
              ]
            ]
          ]
        ]
  ]

  -- Why `ring_initialize` fails, and the descriptors that are open then.
  pub data LeftOpen (getenv : Variable → Option (List ℕ)) (config : RouteConfig) (joined : Bool)
      (w : W) (now : List ℕ) : Type 0 where
    refused_config :
        (fill_config_from_env getenv config joined).1 ≡ err
        → now ≡ opens w
        → LeftOpen getenv config joined w now
    no_socket : (sys.socket w).0 ≡ none → now ≡ opens w → LeftOpen getenv config joined w now
    no_bind :
        (fd : ℕ)
        → (sys.socket w).0 ≡ some fd
        → (let c = (fill_config_from_env getenv config joined).0 in
            (sys.bind (sys.socket w).1 fd c.current.unicast_port).0 ≡ err)
        → now ≡ fd ∷ opens w
        → LeftOpen getenv config joined w now
    no_broadcast :
        (fd : ℕ)
        → (let c = (fill_config_from_env getenv config joined).0 in
            (unicast_setup_socket sys c.current w).0 ≡ some fd)
        → (let c = (fill_config_from_env getenv config joined).0 in
            let w1 = (unicast_setup_socket sys c.current w).1 in
            (broadcast_setup_socket sys c.current [] w1).0 ≡ none)
        → now ≡ fd ∷ opens w
        → LeftOpen getenv config joined w now
    no_fifo :
        (fd broad : ℕ)
        → (let c = (fill_config_from_env getenv config joined).0 in
            (unicast_setup_socket sys c.current w).0 ≡ some fd)
        → (let c = (fill_config_from_env getenv config joined).0 in
            let w1 = (unicast_setup_socket sys c.current w).1 in
            (broadcast_setup_socket sys c.current [] w1).0 ≡ some broad)
        → (let c = (fill_config_from_env getenv config joined).0 in
            let w1 = (unicast_setup_socket sys c.current w).1 in
            let w2 = (broadcast_setup_socket sys c.current [] w1).2 in
            (setup_fifo sys o_rdwr w2).0 ≡ none)
        → now ≡ broad ∷ fd ∷ opens w
        → LeftOpen getenv config joined w now

  setup_fifo_cases :
      (mode : OpenMode) (w : W)
      → let (rc, w') = setup_fifo sys mode w in
        ((rc ≡ none) × (opens w' ≡ opens w))
        ⊎ ((fd : ℕ) × (rc ≡ some fd) × Opens (some fd) (opens w) (opens w'))
  unfolding setup_fifo Opens
  setup_fifo_cases mode w =
      let w1 = (sys.mkfifo w).1 in
      let kept = lawful.mkfifo_keeps w in
      elim (Option-cases (sys.open_fifo w1 mode).0) [
        | inl e ↦ inl (ground arith, ground (arith, kept, rw e at (lawful.open_opens w1 mode)))
        | inr (fd, e) ↦
            let opened : Opens (some fd) (opens w1) (opens (sys.open_fifo w1 mode).1) =
              rw e at (lawful.open_opens w1 mode) in
            elim (refused? (sys.mkfifo w).0) [
              | inl r ↦ inl (ground arith, ground (arith, kept))
              | inr r ↦ inr (fd, ground arith, ground (arith, kept, opened))
            ]
      ]

  -- With its three descriptors a node has opened them and no others, they are different, and none
  -- exceeds the number that is passed to select. If `ring_initialize` fails, what it had opened
  -- stays open: nothing if the configuration is refused or `socket` fails, the unicast socket if
  -- its bind or the broadcast socket fails, and both sockets if the fifo fails.
  pub initialize_cases :
      (getenv : Variable → Option (List ℕ)) (config : RouteConfig) (joined : Bool) (w : W)
      → let (ds, c, ts, w') = ring_initialize sys getenv config joined w in
        ((d : Descriptors) × (ds ≡ some d)
          × (opens w' ≡ d.cli_fd ∷ d.broadcast_socket ∷ d.unicast_socket ∷ opens w)
          × (d.broadcast_socket ≢ d.unicast_socket)
          × (d.cli_fd ≢ d.unicast_socket)
          × (d.cli_fd ≢ d.broadcast_socket)
          × (let top = max3 d.unicast_socket d.broadcast_socket d.cli_fd in
              (d.unicast_socket ≤ top) × (d.broadcast_socket ≤ top) × (d.cli_fd ≤ top)))
        ⊎ ((ds ≡ none) × LeftOpen getenv config joined w (opens w'))
  unfolding ring_initialize max3 cli_setup_reader Opens
  initialize_cases getenv config joined w =
      let c = (fill_config_from_env getenv config joined).0 in
      let (u, w1) = unicast_setup_socket sys c.current w in
      let (b, ts, w2) = broadcast_setup_socket sys c.current [] w1 in
      let (f, w3) = setup_fifo sys o_rdwr w2 in
      elim (Rc-cases (fill_config_from_env getenv config joined).1) [
        | inr e ↦ inr (ground arith, refused_config e (ground arith))
        | inl e ↦ elim (unicast_setup_cases c.current w) [
          | inl (no_fd, a, kept) ↦ inr (ground arith, no_socket no_fd (ground (arith, kept)))
          | inr (ufd, has_fd, opened, inl (a, unbound)) ↦
              inr (ground arith, no_bind ufd has_fd unbound (ground (arith, opened)))
          | inr (ufd, has_fd, opened, inr a) ↦ elim (broadcast_setup_cases c.current [] w1) [
            | inl (a', same, kept) ↦
                inr (ground arith, no_broadcast ufd a a' (ground (arith, opened, kept)))
            | inr (bfd, ifas, a', opened', listed, found) ↦ elim (setup_fifo_cases o_rdwr w2) [
              | inl (a2, kept) ↦
                  inr
                    (ground arith, no_fifo ufd bfd a a' a2 (ground (arith, opened, opened', kept)))
              | inr (cfd, a2, opened2) ↦ inl (
                record { unicast_socket = ufd; broadcast_socket = bfd; cli_fd = cfd },
                ground arith,
                ground (arith, opened, opened', opened2),
                λ h. ground (arith, opened, opened', opened2),
                λ h. ground (arith, opened, opened', opened2),
                λ h. ground (arith, opened, opened', opened2),
                ground arith,
              )
            ]
          ]
        ]
      ]
