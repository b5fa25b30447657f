-- ===== src/Cluster.antt =====
-- Nodes that run the program of src/core.c over one network: a step is the start of a node, or a
-- round of its loop (`ring_run` of src/ring.c), in any order. What a node's layers see of the world
-- that the nodes share is a parameter.
pub mod Members
pub mod Schedule
mod Examples
use psi_project.Base.{
  ℕ, ◌+◌, ◌≡◌, Bool, true, false, Option, some, List, [], ◌∷◌, get_elem?, set, Rc, ok, err,
  if◌then◌else◌,
}
use psi_project.Node.{RouteConfig, RingState}
use psi_project.Link.{Link, Timeout}
use psi_project.Ring.{again, stop, ring_round}
use psi_project.Program.{ring_begin}

-- A node that is not started, with whether SHOULD_START is set for it; one in its loop; one that has
-- ended.
pub data Place : Type 0 where
  absent : Bool → Place
  running : RingState → Timeout → Place
  ended : Place

pub record Cluster (W : Type 0) : Type 0 where
  pub places : List Place
  pub world : W

module _ {W : Type 0} (nets : ℕ → Link W) where
  -- A node draws its id, reads its configuration and takes what `timeout` holds as it starts.
  pub data Step : Cluster W → Cluster W → Type 0 where
    boot :
        {c : Cluster W} {s : RingState} {w : W} (i id : ℕ) (starts joined : Bool)
        (config : RouteConfig) (t : Timeout)
        → get_elem? c.places i ≡ some (absent starts)
        → ring_begin (nets i) id starts config joined c.world ≡ (ok, s, w)
        → Step c (record { places = set c.places i (running s t); world = w })
    boot_fails :
        {c : Cluster W} {s : RingState} {w : W} (i id : ℕ) (starts joined : Bool)
        (config : RouteConfig)
        → get_elem? c.places i ≡ some (absent starts)
        → ring_begin (nets i) id starts config joined c.world ≡ (err, s, w)
        → Step c (record { places = set c.places i ended; world = w })
    turn :
        {c : Cluster W} {s s' : RingState} {t t' : Timeout} {w : W} (i fuel : ℕ)
        → get_elem? c.places i ≡ some (running s t)
        → ring_round (nets i) fuel s t c.world ≡ some (again s' t' w)
        → Step c (record { places = set c.places i (running s' t'); world = w })
    leave :
        {c : Cluster W} {s s' : RingState} {t : Timeout} {w : W} {rc : Rc} (i fuel : ℕ)
        → get_elem? c.places i ≡ some (running s t)
        → ring_round (nets i) fuel s t c.world ≡ some (stop rc s' w)
        → Step c (record { places = set c.places i ended; world = w })

  pub data Steps : Cluster W → Cluster W → Type 0 where
    stay : {c : Cluster W} → Steps c c
    then_step : {c d e : Cluster W} → Steps c d → Step d e → Steps c e

-- Nodes that are not started yet, one for every setting of SHOULD_START.
abbrev pub all_absent : List Bool → List Place
all_absent [] = []
all_absent (b ∷ bs) = absent b ∷ all_absent bs
