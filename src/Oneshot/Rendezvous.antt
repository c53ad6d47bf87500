-- ===== src/Oneshot/Rendezvous.antt =====
-- The calls of the two parties of a verification, in each order, with calls for others in between.
use remora.Prelude.{
  insert, remove, ◌∙◌, ℕ, ◌≡◌, ◌≢◌, refl, List, [], ◌∷◌, Option, none, some, arith, All, get,
  get-insert, get-remove, nat_eq, ==_iff,
}
use remora.Oneshot.{
  OneshotDependencyController, TaskEntry, TaskHandle, set_remote_dependency, set_local_dependency,
  get_dependency, remove_dependency, take_signal, local_of, dependency_of, signal_of, open_channel,
}

-- A call of some task, for one transaction.
pub data Call : Type 0 where
  remote local dependency removal signal : ℕ → Call

abbrev pub on : Call → ℕ
on (remote d) = d
on (local d) = d
on (dependency d) = d
on (removal d) = d
on (signal d) = d

unfoldable pub step : Call → OneshotDependencyController → OneshotDependencyController
step (remote d) c = (set_remote_dependency d c).1
step (local d) c = (set_local_dependency d c).1
step (dependency d) c = (get_dependency d c).1
step (removal d) c = remove_dependency d c
step (signal d) c = (take_signal d c).1

unfoldable pub run : List Call → OneshotDependencyController → OneshotDependencyController
run [] c = c
run (call ∷ calls) c = run calls (step call c)

-- The entry of a transaction.
abbrev pub slot : OneshotDependencyController → ℕ → Option TaskEntry
slot c d = get c.obj_task_map d

local_of-frame :
    (o : Option TaskEntry) (d e : ℕ) (c : OneshotDependencyController)
    → d ≢ e
    → slot (local_of o d c).1 e ≡ slot c e
unfolding local_of
local_of-frame o d e c ne = grind (arith, get-insert, get-remove, ==_iff)

dependency_of-frame :
    (o : Option TaskEntry) (d e : ℕ) (c : OneshotDependencyController)
    → d ≢ e
    → slot (dependency_of o d c).1 e ≡ slot c e
unfolding dependency_of
dependency_of-frame o d e c ne = grind (arith, get-insert, get-remove, ==_iff)

signal_of-frame :
    (o : Option TaskEntry) (d e : ℕ) (c : OneshotDependencyController)
    → d ≢ e
    → slot (signal_of o d c).1 e ≡ slot c e
unfolding signal_of
signal_of-frame o d e c ne = grind (arith, get-insert, get-remove, ==_iff)

-- A call for another transaction leaves an entry alone.
step-frame :
    (call : Call) (c : OneshotDependencyController) (d : ℕ)
    → on call ≢ d
    → slot (step call c) d ≡ slot c d
unfolding step set_remote_dependency remove_dependency
step-frame (remote e) c d ne = grind (arith, get-insert, ==_iff)
step-frame (local e) c d ne = unfold set_local_dependency in local_of-frame _ e d c ne
step-frame (dependency e) c d ne = unfold get_dependency in dependency_of-frame _ e d c ne
step-frame (removal e) c d ne = grind (arith, get-remove, ==_iff)
step-frame (signal e) c d ne = unfold take_signal in signal_of-frame _ e d c ne

-- So do all the calls of a run.
pub run-frame :
    (calls : List Call) (c : OneshotDependencyController) (d : ℕ)
    → All (λ call. on call ≢ d) calls
    → slot (run calls c) d ≡ slot c d
unfolding run
run-frame [] c d h = refl
run-frame (call ∷ calls) c d h = run-frame calls (step call c) d h.1 ∙ step-frame call c d h.0

after_insert : (m : List (ℕ × TaskEntry)) (d : ℕ) (e : TaskEntry) → get (insert m d e) d ≡ some e
after_insert m d e = ground (arith, get-insert m d d e)

after_remove : (m : List (ℕ × TaskEntry)) (d : ℕ) → get (remove m d) d ≡ none
after_remove m d = ground (arith, get-remove m d d)

-- What the three ways to meet have in common.
module _ (d : ℕ) (c : OneshotDependencyController) (calls : List Call)
    (others : All (λ call. on call ≢ d) calls) where
  -- With no entry for the transaction and only calls for others in between, the verification starts
  -- first: the waiting task gets the receiver of the sender that the verification was given, and the
  -- entry is gone.
  pub local_then_dependency :
      slot c d ≡ none
      → let (tx, c1) = set_local_dependency d c in
        let (rx, c2) = get_dependency d (run calls c1) in (rx ≡ some tx) × (slot c2 d ≡ none)
  unfolding set_local_dependency get_dependency
  local_then_dependency fresh =
      let h : TaskHandle = record { rx = some c.next_channel; tx = none } in
      let c1 : OneshotDependencyController = open_channel c d h in
      let there : slot (run calls c1) d ≡ some (some h) =
        run-frame calls c1 d others ∙ after_insert c.obj_task_map d (some h) in
      rw (fresh, local_of) (rw (there, dependency_of) (refl, after_remove _ d))

  -- With no entry for the transaction and only calls for others in between, the waiting task comes
  -- first: the verification is given the sender of its receiver. What is left is an entry with
  -- neither end.
  pub dependency_then_local :
      slot c d ≡ none
      → let (rx, c1) = get_dependency d c in
        let (tx, c2) = set_local_dependency d (run calls c1) in
        (rx ≡ some tx) × (slot c2 d ≡ some (some (record { rx = none; tx = none })))
  unfolding set_local_dependency get_dependency
  dependency_then_local fresh =
      let h : TaskHandle = record { rx = none; tx = some c.next_channel } in
      let c1 : OneshotDependencyController = open_channel c d h in
      let there : slot (run calls c1) d ≡ some (some h) =
        run-frame calls c1 d others ∙ after_insert c.obj_task_map d (some h) in
      rw (fresh, dependency_of) (rw (there, local_of) (refl, after_insert _ d _))

  -- With only calls for other transactions in between, when the result comes from another proxy: the
  -- handler of its reply gets the sender of the receiver on which the task waits, whatever entry was
  -- there before, and the entry is gone.
  pub remote_then_signal :
      let (rx, c1) = set_remote_dependency d c in
      let (tx, c2) = take_signal d (run calls c1) in (tx ≡ some rx) × (slot c2 d ≡ none)
  unfolding set_remote_dependency take_signal
  remote_then_signal =
      let h : TaskHandle = record { rx = none; tx = some c.next_channel } in
      let c1 : OneshotDependencyController = open_channel c d h in
      let there : slot (run calls c1) d ≡ some (some h) =
        run-frame calls c1 d others ∙ after_insert c.obj_task_map d (some h) in
      rw (there, signal_of) (refl, after_remove _ d)
