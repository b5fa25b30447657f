-- ===== src/Setup.antt =====
-- What a node starts from: `fill_config_from_env` and `gen_request_id` of src/ring.c. The
-- environment is a function of the variable, and a value is its text without the NUL.
pub mod Laws
mod Examples
use Prim.Native.Nat.{bit_xor}
use psi_project.Base.{
  ℕ, zero, suc, ◌+◌, ◌-◌, ◌*◌, ◌%◌, ◌^◌, Bool, true, false, not, ◌&&◌, ◌||◌, Option, none, some,
  List, [], ◌∷◌, ltb, leb, ◌==◌, if◌then◌else◌, Rc, ok, err, u32,
}
use psi_project.Cstr.{Name, copy_name}
use psi_project.Node.{Route, RouteConfig}

pub data Variable : Type 0 where
  node_name : Variable
  node_uni_port : Variable
  node_broad_port : Variable
  prev_node_name : Variable
  prev_node_uni_port : Variable
  next_node_name : Variable
  next_node_uni_port : Variable

abbrev is_digit : ℕ → Bool
is_digit c = leb 48 c && leb c 57

unfoldable pub digits : ℕ → List ℕ → ℕ
digits n [] = n
digits n (c ∷ cs) = let rest = digits (10 * n + (c - 48)) cs in if is_digit c then rest else n

-- `isspace` in the C locale.
abbrev pub is_space : ℕ → Bool
is_space c = c == 32 || (leb 9 c && leb c 13)

-- `(uint16_t) atoi (s)`, for a value that an int holds: a minus sign wraps around.
unfoldable pub port_of : List ℕ → ℕ
unfolding digits
port_of [] = 0
port_of (c ∷ cs) =
    let rest = port_of cs in
    if is_space c
    then rest
    else if c == 45
    then (2 ^ 16 - digits 0 cs % 2 ^ 16) % 2 ^ 16
    else if c == 43
    then digits 0 cs % 2 ^ 16
    else digits 0 (c ∷ cs) % 2 ^ 16

abbrev pub all_set : List (Option (List ℕ)) → Bool
all_set [] = true
all_set (none ∷ vs) = false
all_set (some v ∷ vs) = all_set vs

abbrev pub value : Option (List ℕ) → List ℕ
value none = []
value (some v) = v

abbrev named : Route → List ℕ → List ℕ → Route
named r name port = record r { node_name = copy_name name; unicast_port = port_of port }

-- `config` is the routes that `main` zeroes; a node that has not joined sets its own route only.
unfoldable pub fill_config_from_env :
    (Variable → Option (List ℕ)) → RouteConfig → Bool → RouteConfig × Rc
unfolding port_of
fill_config_from_env getenv config joined =
    let name = getenv node_name in
    let uni_port = getenv node_uni_port in
    let b_port = getenv node_broad_port in
    let prev_name = getenv prev_node_name in
    let prev_port = getenv prev_node_uni_port in
    let next_name = getenv next_node_name in
    let next_port = getenv next_node_uni_port in
    let current = record (named config.current (value name) (value uni_port)) {
      broadcast_port = port_of (value b_port);
    } in
    if not joined
    then if not (all_set (name ∷ uni_port ∷ b_port ∷ []))
      then (config, err)
      else (record config { current = current }, ok)
    else if not
        (all_set (name ∷ uni_port ∷ prev_name ∷ prev_port ∷ next_name ∷ next_port ∷ b_port ∷ []))
    then (config, err)
    else (
      record {
        current = current;
        prev = named config.prev (value prev_name) (value prev_port);
        next = named config.next (value next_name) (value next_port);
      },
      ok,
    )

-- `random` is what four bytes of /dev/urandom give, `none` if they cannot be read; then the clock
-- and the process id are used, as numbers of 32 bits. The id is never 0.
unfoldable pub gen_request_id : Option ℕ → ℕ → ℕ → ℕ → ℕ
gen_request_id random sec usec pid =
    let v = u32 (bit_xor (bit_xor sec usec) (u32 (pid * 2 ^ 16))) in
    let fallback = if v == 0 then 1 else v in
    elim random [ none ↦ fallback | some r ↦ if r == 0 then fallback else r ]
