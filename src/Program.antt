-- ===== src/Program.antt =====
-- The program of a node: `main` of src/core.c over `ring_initialize` and `ring_run` of src/ring.c. The
-- loop of `ring_run` takes fuel, and `none` is a node that still runs.
pub mod Exits
mod Examples
use psi_project.Base.{
  ℕ, zero, suc, Bool, true, false, not, ◌||◌, Option, none, some, List, [], ◌∷◌, ◌==◌,
  if◌then◌else◌, Rc, ok, err,
}
use psi_project.Node.{Route, RouteConfig, RingState, init_ring_state, zero_route}
use psi_project.Link.{Link, Timeout}
use psi_project.Setup.{Variable, digits, is_space}
use psi_project.Targets.{Target}
use psi_project.Ring.{
  Next, again, stop, init_join_request_if_needed, maybe_send_initial_token, ring_round,
}
use psi_project.Boot.{System, Descriptors, Exit, exit_success, exit_failure, ring_initialize}

-- `atoi (s) != 0`, for a value that an int holds.
unfoldable pub atoi_is_set : List ℕ → Bool
atoi_is_set [] = false
atoi_is_set (c ∷ cs) =
    let rest = atoi_is_set cs in
    if is_space c
    then rest
    else if c == 45 || c == 43
    then not (digits 0 cs == 0)
    else not (digits 0 (c ∷ cs) == 0)

abbrev pub zero_config : RouteConfig
zero_config = record { current = zero_route; prev = zero_route; next = zero_route }

abbrev pub exit_of : Rc → Exit
exit_of ok = exit_success
exit_of err = exit_failure

module _ {W : Type 0} (net : Link W) where
  -- `ring_run` up to its loop, with the id that `gen_request_id` draws and whether SHOULD_START is set.
  unfoldable pub ring_begin : ℕ → Bool → RouteConfig → Bool → W → Rc × RingState × W
  ring_begin id starts config joined w =
      let (rc, s, w1) = init_join_request_if_needed net id (init_ring_state config joined) w in
      elim rc [ err ↦ (err, s, w1) | ok ↦ (ok, maybe_send_initial_token starts s, w1) ]

  unfoldable pub run_loop : ℕ → ℕ → RingState → Timeout → W → Option (Rc × RingState × W)
  run_loop unicast_fuel zero s t w = none
  run_loop unicast_fuel (suc fuel) s t w = elim (ring_round net unicast_fuel s t w) [
    | none ↦ none
    | some (stop rc s' w') ↦ some (rc, s', w')
    | some (again s' t' w') ↦ run_loop unicast_fuel fuel s' t' w'
  ]

  -- `t` is what the uninitialised `timeout` holds.
  unfoldable pub ring_run :
      ℕ → ℕ → ℕ → Bool → Timeout → RouteConfig → Bool → W → Option (Rc × RingState × W)
  ring_run unicast_fuel fuel id starts t config joined w =
      let (rc, s, w1) = ring_begin id starts config joined w in
      elim rc [ err ↦ some (err, s, w1) | ok ↦ run_loop unicast_fuel fuel s t w1 ]

-- The layers below the ring use the descriptors and the targets that `ring_initialize` leaves; the
-- arguments are those after the name of the program.
module _ {W : Type 0} (sys : System W) (net : Descriptors → List Target → Link W) where
  unfoldable pub core_main :
      ℕ
      → ℕ
      → (Variable → Option (List ℕ))
      → ℕ
      → Bool
      → Timeout
      → List (List ℕ)
      → W
      → Option (Exit × W)
  core_main unicast_fuel fuel getenv id starts t (arg ∷ []) w =
      let joined = atoi_is_set arg in
      let (ds, config, targets, w1) = ring_initialize sys getenv zero_config joined w in
      elim ds [
        | none ↦ some (exit_failure, w1)
        | some d ↦ elim (ring_run (net d targets) unicast_fuel fuel id starts t config joined w1) [
          | none ↦ none
          | some (rc, s, w2) ↦ some (exit_of rc, w2)
        ]
      ]
  core_main unicast_fuel fuel getenv id starts t _ w = some (exit_failure, w)
