-- ===== src/Setup/Laws.antt =====
-- The configuration and the request id that src/ring.c starts from.
use psi_project.Base.{
  ℕ, ◌<◌, ◌≡◌, ◌⊎◌, inl, inr, refl, arith, ◌^◌, Bool, true, false, Option, none, some, List, [],
  ◌∷◌, ok, err, Bool-cases, Option-cases, map,
}
use psi_project.Cstr.{copy_name}
use psi_project.Cstr.Laws.{IsName, copy_name-IsName}
use psi_project.Node.{Route, RouteConfig}
use psi_project.Setup.{
  Variable, node_name, node_uni_port, node_broad_port, prev_node_name, prev_node_uni_port,
  next_node_name, next_node_uni_port, port_of, value, all_set, fill_config_from_env, gen_request_id,
}

-- A route can be compared with other names and put on the wire.
pub record IsRoute (r : Route) : Type 0 where
  pub name : IsName r.node_name
  pub port : r.unicast_port < 2 ^ 16

abbrev pub own_variables : List Variable
own_variables = node_name ∷ node_uni_port ∷ node_broad_port ∷ []

abbrev pub all_variables : List Variable
all_variables =
    node_name ∷ node_uni_port ∷ prev_node_name ∷ prev_node_uni_port ∷ next_node_name
    ∷ next_node_uni_port ∷ node_broad_port ∷ []

-- Some variable of a list is not set.
pub Missing : (Variable → Option (List ℕ)) → List Variable → Type 0
Missing getenv [] = ⊥
Missing getenv (v ∷ vs) = (getenv v ≡ none) ⊎ Missing getenv vs

all_set-Missing :
    (getenv : Variable → Option (List ℕ)) (vs : List Variable)
    → all_set (map getenv vs) ≡ false
    → Missing getenv vs
unfolding Missing
all_set-Missing getenv [] h = absurd (ground arith)
all_set-Missing getenv (v ∷ vs) h = elim (Option-cases (getenv v)) [
  | inl e ↦ inl e
  | inr (x, e) ↦ inr (all_set-Missing getenv vs (ground arith))
]

abbrev HasValue : (Variable → Option (List ℕ)) → Variable → Type 0
HasValue getenv v = (text : List ℕ) × (getenv v ≡ some text)

-- Every variable of a list is set.
abbrev Given : (Variable → Option (List ℕ)) → List Variable → Type 0
Given getenv [] = Unit
Given getenv (v ∷ vs) = HasValue getenv v × Given getenv vs

all_set-Given :
    (getenv : Variable → Option (List ℕ)) (vs : List Variable)
    → all_set (map getenv vs) ≡ true
    → Given getenv vs
all_set-Given getenv [] h = tt
all_set-Given getenv (v ∷ vs) h = elim (Option-cases (getenv v)) [
  | inl e ↦ absurd (ground arith)
  | inr (x, e) ↦ ((x, e), all_set-Given getenv vs (ground arith))
]

port_of_bound : (cs : List ℕ) → port_of cs < 2 ^ 16
unfolding port_of
port_of_bound [] = omega arith
port_of_bound (c ∷ cs) = ground (arith, port_of_bound cs)

-- A route whose name and unicast port are the values of two variables.
pub record Read (getenv : Variable → Option (List ℕ)) (name port : Variable) (r : Route)
    : Type 0 where
  pub name_text : List ℕ
  pub port_text : List ℕ
  pub name_set : getenv name ≡ some name_text
  pub port_set : getenv port ≡ some port_text
  pub node_name_is : r.node_name ≡ copy_name name_text
  pub port_is : r.unicast_port ≡ port_of port_text
  pub fits : IsRoute r

Read-named :
    (getenv : Variable → Option (List ℕ)) (name port : Variable) (r : Route)
    → HasValue getenv name
    → HasValue getenv port
    → r.node_name ≡ copy_name (value (getenv name))
    → r.unicast_port ≡ port_of (value (getenv port))
    → Read getenv name port r
Read-named getenv name port r (n, hn) (p, hp) en ep = record {
  name_text = n;
  port_text = p;
  name_set = hn;
  port_set = hp;
  node_name_is = rw hn at en;
  port_is = rw hp at ep;
  fits = record {
    name = rw en (copy_name-IsName (value (getenv name)));
    port = rw ep (port_of_bound (value (getenv port)));
  };
}

-- The broadcast port of the node's own route.
abbrev pub BroadcastPort : (Variable → Option (List ℕ)) → Route → Type 0
BroadcastPort getenv r =
    (text : List ℕ) × (getenv node_broad_port ≡ some text) × (r.broadcast_port ≡ port_of text)

-- A node that has not joined needs its own name and ports, a member those of its neighbours too;
-- exactly if one of these is not set it fails, and nothing is configured. Otherwise the node's own
-- route, and a member's three, have the names and ports of their own variables, with a NUL in the
-- 32 bytes of a name and 16 bits in a port, and the other routes of a node that has not joined are
-- as before.
pub fill_config_cases :
    (getenv : Variable → Option (List ℕ)) (config : RouteConfig) (joined : Bool)
    → let (c, rc) = fill_config_from_env getenv config joined in
      ((rc ≡ err)
        × (c ≡ config)
        × (((joined ≡ false) × Missing getenv own_variables)
            ⊎ ((joined ≡ true) × Missing getenv all_variables)))
      ⊎ ((rc ≡ ok)
          × Read getenv node_name node_uni_port c.current
          × BroadcastPort getenv c.current
          × (((joined ≡ false) × (c.prev ≡ config.prev) × (c.next ≡ config.next))
              ⊎ ((joined ≡ true)
                  × Read getenv prev_node_name prev_node_uni_port c.prev
                  × Read getenv next_node_name next_node_uni_port c.next)))
unfolding fill_config_from_env Missing
fill_config_cases getenv config false = elim (Bool-cases (all_set (map getenv own_variables))) [
  | inr lost ↦
      inl (ground arith, ground arith, inl (refl, all_set-Missing getenv own_variables lost))
  | inl set ↦
      let (name, (port, (broad, none_left))) = all_set-Given getenv own_variables set in
      inr (
        ground arith,
        Read-named getenv node_name node_uni_port _ name port (ground arith) (ground arith),
        (broad.0, broad.1, ground (arith, broad.1)),
        inl (refl, ground arith, ground arith),
      )
]
fill_config_cases getenv config true = elim (Bool-cases (all_set (map getenv all_variables))) [
  | inr lost ↦
      inl (ground arith, ground arith, inr (refl, all_set-Missing getenv all_variables lost))
  | inl set ↦
      let (name, (port, (prev, (prev_port, (next, (next_port, (broad, none_left))))))) =
        all_set-Given getenv all_variables set in
      inr (
        ground arith,
        Read-named getenv node_name node_uni_port _ name port (ground arith) (ground arith),
        (broad.0, broad.1, ground (arith, broad.1)),
        inr (
          refl,
          Read-named getenv prev_node_name prev_node_uni_port _ prev prev_port (ground arith)
              (ground arith),
          Read-named getenv next_node_name next_node_uni_port _ next next_port (ground arith)
              (ground arith),
        ),
      )
]

-- A request id is never 0, the value of a node that has not asked.
pub gen_request_id_positive :
    (random : Option ℕ) (sec usec pid : ℕ) → 0 < gen_request_id random sec usec pid
unfolding gen_request_id
gen_request_id_positive none sec usec pid = ground arith
gen_request_id_positive (some r) sec usec pid = ground arith
