-- ===== src/Program/Exits.antt =====
-- How a node's program ends: `ring_run` of src/ring.c and `main` of src/core.c.
use psi_project.Base.{ℕ, ◌≡◌, ◌⊎◌, some, Rc, ok, err, ◌≢◌}
use psi_project.Node.{RingState}
use psi_project.Link.{Link, Timeout, broken}
use psi_project.Ring.{stop, ring_round}
use psi_project.Base.{◌≢◌}
use psi_project.Ring.Stops.{selected}
use psi_project.Ring.Rounds.{Reach}
use psi_project.Boot.{Exit, exit_success, exit_failure}

module _ {W : Type 0} (net : Link W) (unicast_fuel : ℕ) where
  -- The loop ends in a round that a run reaches.
  pub record EndsIn (rc : Rc) (s' : RingState) (w' : W) : Type 0 where
    pub last_state : RingState
    pub last_timeout : Timeout
    pub last_world : W
    pub reached : Reach net last_state last_timeout last_world
    pub last_round :
        ring_round net unicast_fuel last_state last_timeout last_world ≡ some (stop rc s' w')

-- What the program reports of a round that ended its loop.
abbrev pub Reported :
    {W : Type 0} (net : Link W) (unicast_fuel : ℕ) {rc : Rc} {s' : RingState} {w' : W}
    → EndsIn net unicast_fuel rc s' w'
    → Exit
    → Type 0
Reported net unicast_fuel {rc} r exit =
    ((rc ≡ ok) × (exit ≡ exit_success))
    ⊎ ((rc ≡ err)
        × (exit ≡ exit_failure)
        × ((selected net unicast_fuel r.last_state r.last_timeout r.last_world).0 ≡ broken))
