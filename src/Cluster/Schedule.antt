-- ===== src/Cluster/Schedule.antt =====
-- Runs of a ring of nodes by their schedule: which node of src/core.c starts or takes a turn next.
use psi_project.Base.{
  ℕ, ◌≡◌, refl, Bool, Option, none, some, List, [], ◌∷◌, get_elem?, set, Rc, ok, err,
}
use psi_project.Node.{RouteConfig, RingState}
use psi_project.Link.{Link, Timeout}
use psi_project.Deadline.{at_once}
use psi_project.Ring.{Next, again, stop, ring_round}
use psi_project.Program.{ring_begin}
use psi_project.Cluster.{
  Place, absent, running, ended, Cluster, boot, boot_fails, turn, leave, Steps, then_step,
}

abbrev begun : {W : Type 0} → ℕ → Cluster W → Rc × RingState × W → Cluster W
begun i c (ok, s, w) = record { places = set c.places i (running s at_once); world = w }
begun i c (err, s, w) = record { places = set c.places i ended; world = w }

abbrev went : {W : Type 0} → ℕ → Cluster W → Option (Next W) → Cluster W
went i c none = c
went i c (some (again s t w)) = record { places = set c.places i (running s t); world = w }
went i c (some (stop rc s w)) = record { places = set c.places i ended; world = w }

module _ {W : Type 0} (nets : ℕ → Link W) (configs : ℕ → RouteConfig × Bool) (fuel : ℕ) where
  -- The node at a place starts, with its place as the id that it draws, or takes a turn.
  unfoldable pub advance : ℕ → Cluster W → Cluster W
  advance i c = elim (get_elem? c.places i) [
    | none ↦ c
    | some ended ↦ c
    | some (absent starts) ↦
        let (config, joined) = configs i in
        begun i c (ring_begin (nets i) i starts config joined c.world)
    | some (running s t) ↦ went i c (ring_round (nets i) fuel s t c.world)
  ]

  unfoldable pub run : List ℕ → Cluster W → Cluster W
  run [] c = c
  run (i ∷ is) c = run is (advance i c)

  begun-Steps :
      (i : ℕ) (starts : Bool) (b c : Cluster W) (o : Rc × RingState × W)
      → Steps nets b c
      → get_elem? c.places i ≡ some (absent starts)
      → (let (config, joined) = configs i in ring_begin (nets i) i starts config joined c.world ≡ o)
      → Steps nets b (begun i c o)
  begun-Steps i starts b c (ok, s, w) r at e =
      let (config, joined) = configs i in
      then_step r (boot {c = c} i i starts joined config at_once at e)
  begun-Steps i starts b c (err, s, w) r at e =
      let (config, joined) = configs i in
      then_step r (boot_fails {c = c} i i starts joined config at e)

  went-Steps :
      (i : ℕ) (s : RingState) (t : Timeout) (b c : Cluster W) (o : Option (Next W))
      → Steps nets b c
      → get_elem? c.places i ≡ some (running s t)
      → ring_round (nets i) fuel s t c.world ≡ o
      → Steps nets b (went i c o)
  went-Steps i s t b c none r at e = r
  went-Steps i s t b c (some (again s' t' w)) r at e = then_step r (turn {c = c} i fuel at e)
  went-Steps i s t b c (some (stop rc s' w)) r at e = then_step r (leave {c = c} i fuel at e)

  advance-Steps : (i : ℕ) (b c : Cluster W) → Steps nets b c → Steps nets b (advance i c)
  unfolding advance
  advance-Steps i b c r = place (get_elem? c.places i) refl
    where
      place : (o : Option Place) → get_elem? c.places i ≡ o → Steps nets b (advance i c)
      place none e = rw (e, advance) r
      place (some ended) e = rw (e, advance) r
      place (some (absent starts)) e = rw (e, advance) (begun-Steps i starts b c _ r e refl)
      place (some (running s t)) e = rw (e, advance) (went-Steps i s t b c _ r e refl)

  -- Every run is a sequence of steps.
  pub run-Steps : (is : List ℕ) (b c : Cluster W) → Steps nets b c → Steps nets b (run is c)
  unfolding run
  run-Steps [] b c r = r
  run-Steps (i ∷ is) b c r = run-Steps is b (advance i c) (advance-Steps i b c r)
