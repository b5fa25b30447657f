-- ===== src/Setup/Examples.antt =====
-- The theorem on the configuration in an environment with one name and port for every variable.
use psi_project.Base.{ℕ, ◌≡◌, ◌⊎◌, refl, true, false, Option, none, some, List, [], ◌∷◌, ok, err}
use psi_project.Node.{RouteConfig, zero_route}
use psi_project.Setup.{
  Variable, node_name, node_uni_port, node_broad_port, prev_node_name, prev_node_uni_port,
  next_node_name, next_node_uni_port, digits, port_of, fill_config_from_env,
}
use psi_project.Setup.Laws.{
  Read, BroadcastPort, Missing, own_variables, all_variables, fill_config_cases,
}

-- "5003", and "-1" as a port.
port_of_text : port_of (53 ∷ 48 ∷ 48 ∷ 51 ∷ []) ≡ 5003
unfolding port_of digits
port_of_text = refl

port_of_minus_one : port_of (32 ∷ 45 ∷ 49 ∷ []) ≡ 65535
unfolding port_of digits
port_of_minus_one = refl

abbrev env : Variable → Option (List ℕ)
env node_name = some (106 ∷ [])
env node_uni_port = some (53 ∷ 48 ∷ 48 ∷ 51 ∷ [])
env node_broad_port = some (57 ∷ 48 ∷ 48 ∷ 48 ∷ [])
env prev_node_name = some (112 ∷ [])
env prev_node_uni_port = some (53 ∷ 48 ∷ 48 ∷ 49 ∷ [])
env next_node_name = none
env next_node_uni_port = none

abbrev blank : RouteConfig
blank = record { current = zero_route; prev = zero_route; next = zero_route }

fill_config_cases_example :
    let (c, rc) = fill_config_from_env env blank false in
    ((rc ≡ err)
      × (c ≡ blank)
      × (((false ≡ false) × Missing env own_variables)
          ⊎ ((false ≡ true) × Missing env all_variables)))
    ⊎ ((rc ≡ ok)
        × Read env node_name node_uni_port c.current
        × BroadcastPort env c.current
        × (((false ≡ false) × (c.prev ≡ blank.prev) × (c.next ≡ blank.next))
            ⊎ ((false ≡ true)
                × Read env prev_node_name prev_node_uni_port c.prev
                × Read env next_node_name next_node_uni_port c.next)))
fill_config_cases_example = fill_config_cases env blank false
