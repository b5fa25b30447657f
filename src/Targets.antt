-- ===== src/Targets.antt =====
-- Where broadcasts go: src/broadcast_targets.c and `send_to_all_targets` of src/broadcast.c. The
-- interfaces that getifaddrs lists are a list; an address is a number of 32 bits.
pub mod Laws
mod Examples
use Prim.Native.Nat.{bit_or, bit_xor}
use psi_project.Base.{
  ℕ, zero, suc, ◌+◌, ◌-◌, Bool, true, false, not, ◌&&◌, ◌||◌, Option, none, some, List, [], ◌∷◌,
  ◌++◌, leb, ◌==◌, if◌then◌else◌, Rc, ok, err, length,
}
use psi_project.Cstr.{strncpy}

pub record Sockaddr : Type 0 where
  pub family : ℕ
  pub ip : ℕ

-- `struct ifaddrs`: `none` for a null pointer, IFF_UP and IFF_BROADCAST as flags.
pub record Interface : Type 0 where
  pub name : List ℕ
  pub addr : Option Sockaddr
  pub up : Bool
  pub broadcasts : Bool
  pub broadaddr : Option Sockaddr
  pub netmask : Option Sockaddr

-- `sin_family` is AF_INET in every target.
pub record Target : Type 0 where
  pub ifname : List ℕ
  pub ip : ℕ
  pub port : ℕ

abbrev pub af_inet : ℕ
af_inet = 2

unfoldable pub sockaddr_in_is_valid : Option Sockaddr → Bool
sockaddr_in_is_valid none = false
sockaddr_in_is_valid (some a) = a.family == af_inet

abbrev pub ip_of : Option Sockaddr → ℕ
ip_of none = 0
ip_of (some a) = a.ip

-- `ip | ~netmask` on 32 bits.
unfoldable pub compute_broadcast : ℕ → ℕ → ℕ
compute_broadcast ip netmask = bit_or ip (bit_xor netmask 4294967295)

-- The broadcast address that the loop takes, `none` where it goes on without a target.
unfoldable pub broadcast_addr : Interface → Option ℕ
unfolding compute_broadcast
broadcast_addr ifa =
    if sockaddr_in_is_valid ifa.broadaddr
    then some (ip_of ifa.broadaddr)
    else if sockaddr_in_is_valid ifa.netmask
    then some (compute_broadcast (ip_of ifa.addr) (ip_of ifa.netmask))
    else none

-- IFNAMSIZ is 16.
unfoldable pub target : ℕ → Interface → ℕ → Target
target port ifa ip = record { ifname = strncpy 15 ifa.name ++ 0 ∷ []; ip = ip; port = port }

-- The loop of `broadcast_collect_targets`: what it adds when it has `count` targets already.
unfoldable pub collect : ℕ → ℕ → ℕ → List Interface → List Target
collect port cap count [] = []
collect port cap count (ifa ∷ rest) =
    let skip = collect port cap count rest in
    let more = collect port cap (suc count) rest in
    if not (sockaddr_in_is_valid ifa.addr)
    then skip
    else if not ifa.up
    then skip
    else if not ifa.broadcasts
    then skip
    else if leb cap count
    then []
    else elim (broadcast_addr ifa) [ none ↦ skip | some ip ↦ target port ifa ip ∷ more ]

-- `none` for a failure of getifaddrs.
unfoldable pub broadcast_collect_targets : Option (List Interface) → ℕ → ℕ → Option (List Target)
broadcast_collect_targets none port cap = none
broadcast_collect_targets (some ifas) port cap = some (collect port cap 0 ifas)

-- `sendto` of the system is a parameter.
module _ {W : Type 0} (sendto : W → List ℕ → Target → Rc × W) where
  unfoldable pub send_each : Bool → List ℕ → List Target → W → Bool × W
  send_each sent msg [] w = (sent, w)
  send_each sent msg (t ∷ ts) w =
      let (rc, w') = sendto w msg t in
      let failed = send_each sent msg ts w' in
      let worked = send_each true msg ts w' in elim rc [ err ↦ failed | ok ↦ worked ]

  unfoldable pub send_to_all_targets : List ℕ → List Target → W → Rc × W
  unfolding send_each
  send_to_all_targets msg targets w =
      let (sent, w') = send_each false msg targets w in
      if length targets == 0 then (err, w') else (if sent then ok else err, w')
