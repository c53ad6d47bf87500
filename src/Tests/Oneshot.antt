-- ===== src/Tests/Oneshot.antt =====
-- Meetings over a oneshot channel.
use remora.Prelude.{◌≡◌, refl, List, [], ◌∷◌, none, some, get, insert, remove, nat_eq, arith}
use remora.Oneshot.{
  new_controller, set_local_dependency, set_remote_dependency, get_dependency, take_signal,
}
use remora.Oneshot.Rendezvous.{
  Call, local, dependency, run, slot, local_then_dependency, dependency_then_local,
  remote_then_signal,
}

-- The signal of a remote dependency can be taken once.
signal_once :
    let s = (set_remote_dependency 4 new_controller).1 in
    ((take_signal 4 s).0 ≡ some 0) × ((take_signal 4 (take_signal 4 s).1).0 ≡ none)
unfolding set_remote_dependency take_signal new_controller get insert remove
signal_once = (refl, refl)

-- Another verification, of transaction 8.
abbrev another : List Call
another = local 8 ∷ dependency 8 ∷ []

local_then_dependency_example :
    let (tx, c1) = set_local_dependency 4 new_controller in
    let (rx, c2) = get_dependency 4 (run another c1) in (rx ≡ some tx) × (slot c2 4 ≡ none)
unfolding new_controller get
local_then_dependency_example = local_then_dependency 4 new_controller another (omega arith) refl

dependency_then_local_example :
    let (rx, c1) = get_dependency 4 new_controller in
    let (tx, c2) = set_local_dependency 4 (run another c1) in
    (rx ≡ some tx) × (slot c2 4 ≡ some (some (record { rx = none; tx = none })))
unfolding new_controller get
dependency_then_local_example = dependency_then_local 4 new_controller another (omega arith) refl

remote_then_signal_example :
    let (rx, c1) = set_remote_dependency 4 new_controller in
    let (tx, c2) = take_signal 4 (run another c1) in (tx ≡ some rx) × (slot c2 4 ≡ none)
remote_then_signal_example = remote_then_signal 4 new_controller another (omega arith)
