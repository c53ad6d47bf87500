-- ===== src/Oneshot.antt =====
-- src/executor/oneshot_dependency_controller.rs: where the result of a stateless verification meets
-- the task that waits for it. A oneshot channel is known by the number under which it was made; its
-- sender and its receiver are the two places where that number stands.
pub mod Rendezvous
use remora.Prelude.{
  ℕ, ◌+◌, List, [], ◌∷◌, Option, none, some, Bool, Map, get, insert, remove, contains_key, nat_eq,
}

-- (Option<Receiver<bool>>, Option<Sender<bool>>)
pub record TaskHandle : Type 0 where
  pub rx : Option ℕ
  pub tx : Option ℕ

abbrev pub TaskEntry : Type 0
TaskEntry = Option TaskHandle

pub record OneshotDependencyController : Type 0 where
  pub obj_task_map : Map ℕ TaskEntry
  pub next_channel : ℕ

unfoldable pub new_controller : OneshotDependencyController
new_controller = record { obj_task_map = []; next_channel = 0 }

unfoldable pub has_entry_for_txn : OneshotDependencyController → ℕ → Bool
has_entry_for_txn c txn_id = contains_key c.obj_task_map txn_id

-- `channel()`, with the entry that the caller stores for it.
abbrev pub open_channel : OneshotDependencyController → ℕ → TaskHandle → OneshotDependencyController
open_channel c txn_id handle = record {
  obj_task_map = insert c.obj_task_map txn_id (some handle);
  next_channel = c.next_channel + 1;
}

-- Writes an entry over the one that is there.
abbrev pub put_entry : OneshotDependencyController → ℕ → TaskHandle → OneshotDependencyController
put_entry c txn_id handle = record c { obj_task_map = insert c.obj_task_map txn_id (some handle) }

abbrev pub drop_entry : OneshotDependencyController → ℕ → OneshotDependencyController
drop_entry c txn_id = record c { obj_task_map = remove c.obj_task_map txn_id }

-- Each method returns its result and the new state.
unfoldable pub set_remote_dependency :
    ℕ → OneshotDependencyController → ℕ × OneshotDependencyController
set_remote_dependency txn_id c =
    (c.next_channel, open_channel c txn_id (record { rx = none; tx = some c.next_channel }))

-- The sender that a new channel returns, its receiver stored.
abbrev new_local : ℕ → OneshotDependencyController → ℕ × OneshotDependencyController
new_local txn_id c =
    (c.next_channel, open_channel c txn_id (record { rx = some c.next_channel; tx = none }))

unfoldable pub local_of :
    Option TaskEntry → ℕ → OneshotDependencyController → ℕ × OneshotDependencyController
local_of (some (some h)) txn_id c = elim h.tx [
  | some tx ↦ (tx, put_entry c txn_id (record { rx = h.rx; tx = none }))
  | none ↦ new_local txn_id c
]
local_of (some none) txn_id c = new_local txn_id c
local_of none txn_id c = new_local txn_id c

unfoldable pub set_local_dependency :
    ℕ → OneshotDependencyController → ℕ × OneshotDependencyController
unfolding local_of
set_local_dependency txn_id c = local_of (get c.obj_task_map txn_id) txn_id c

unfoldable pub dependency_of :
    Option TaskEntry → ℕ → OneshotDependencyController → Option ℕ × OneshotDependencyController
dependency_of (some (some h)) txn_id c = elim h.tx [
  | some tx ↦ (h.rx, put_entry c txn_id (record { rx = none; tx = some tx }))
  | none ↦ (h.rx, drop_entry c txn_id)
]
dependency_of (some none) txn_id c = (none, c)
dependency_of none txn_id c =
    (some c.next_channel, open_channel c txn_id (record { rx = none; tx = some c.next_channel }))

unfoldable pub get_dependency :
    ℕ → OneshotDependencyController → Option ℕ × OneshotDependencyController
unfolding dependency_of
get_dependency txn_id c = dependency_of (get c.obj_task_map txn_id) txn_id c

unfoldable pub remove_dependency : ℕ → OneshotDependencyController → OneshotDependencyController
remove_dependency txn_id c = drop_entry c txn_id

unfoldable pub signal_of :
    Option TaskEntry → ℕ → OneshotDependencyController → Option ℕ × OneshotDependencyController
signal_of (some (some h)) txn_id c = elim h.rx [
  | some rx ↦ (h.tx, put_entry c txn_id (record { rx = some rx; tx = none }))
  | none ↦ (h.tx, drop_entry c txn_id)
]
signal_of (some none) txn_id c = (none, c)
signal_of none txn_id c = (none, c)

unfoldable pub take_signal :
    ℕ → OneshotDependencyController → Option ℕ × OneshotDependencyController
unfolding signal_of
take_signal txn_id c = signal_of (get c.obj_task_map txn_id) txn_id c
