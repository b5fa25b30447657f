-- ===== src/Targets/Examples.antt =====
-- The theorems on broadcast targets at three interfaces.
use psi_project.Base.{
  ℕ, suc, ◌≡◌, ◌↔◌, true, false, Option, none, some, List, [], ◌∷◌, take, Rc, ok, err, ◌==◌,
  if◌then◌else◌,
}
use psi_project.Targets.{
  Sockaddr, Interface, Target, broadcast_collect_targets, send_to_all_targets,
}
use psi_project.Targets.Laws.{all_wanted, collect_targets-wanted, Works, send_to_all_targets-ok_iff}

abbrev inet : ℕ → Option Sockaddr
inet ip = some (record { family = 2; ip = ip })

-- One interface with a netmask only, one that is down, and one with its broadcast address.
abbrev interfaces : List Interface
interfaces =
    record {
      name = 101 ∷ [];
      addr = inet 16777343;
      up = true;
      broadcasts = true;
      broadaddr = none;
      netmask = inet 65535;
    }
    ∷ record {
      name = 102 ∷ [];
      addr = inet 33554687;
      up = false;
      broadcasts = true;
      broadaddr = inet 7;
      netmask = none;
    }
    ∷ record {
      name = 103 ∷ [];
      addr = inet 50331903;
      up = true;
      broadcasts = true;
      broadaddr = inet 9;
      netmask = none;
    }
    ∷ []

collect_targets-wanted_example :
    broadcast_collect_targets (some interfaces) 9000 16
    ≡ some (take 16 (all_wanted 9000 interfaces))
collect_targets-wanted_example = collect_targets-wanted interfaces 9000 16

-- The first send fails, the others work.
abbrev first_fails : ℕ → List ℕ → Target → Rc × ℕ
first_fails w msg t = if w == 0 then (err, suc w) else (ok, suc w)

abbrev targets : List Target
targets = take 16 (all_wanted 9000 interfaces)

send_to_all_targets-ok_iff_example :
    ((send_to_all_targets first_fails (1 ∷ []) targets 0).0 ≡ ok)
    ↔ Works first_fails (1 ∷ []) targets 0
send_to_all_targets-ok_iff_example = send_to_all_targets-ok_iff first_fails (1 ∷ []) targets 0
