-- ===== src/Program/Examples.antt =====
-- A program that joins a ring and whose select then fails, by `main` of src/core.c.
use psi_project.Base.{ℕ, ◌+◌, Option, none, some, List, [], ◌∷◌, ok}
use psi_project.Link.{Link, broken}
use psi_project.Setup.{Variable, node_name, node_uni_port, node_broad_port}
use psi_project.Targets.{Target}
use psi_project.Samples.{calm, name_j}
use psi_project.Boot.{System, Descriptors, made}

-- Every call succeeds, and the world counts them.
abbrev working : System ℕ
working = record {
  socket = λ w. (some w, w + 1);
  setsockopt = λ w fd o. (ok, w + 1);
  bind = λ w fd port. (ok, w + 1);
  close = λ w fd. w + 1;
  getifaddrs = λ w. (some [], w + 1);
  mkfifo = λ w. (made, w + 1);
  open_fifo = λ w m. (some w, w + 1);
  write = λ w fd bytes. (ok, w + 1);
}

abbrev no_select : Descriptors → List Target → Link ℕ
no_select d ts = record calm { select = λ w t. (broken, t, w + 1) }

abbrev own : Variable → Option (List ℕ)
own node_name = some name_j
own node_uni_port = some (53 ∷ 48 ∷ 48 ∷ 51 ∷ [])
own node_broad_port = some (57 ∷ 48 ∷ 48 ∷ 48 ∷ [])
own _ = none

-- The argument "0", that is a node that is to join.
abbrev zero_text : List ℕ
zero_text = 48 ∷ []

abbrev world_left : ℕ
world_left = 18
