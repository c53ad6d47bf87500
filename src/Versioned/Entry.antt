-- ===== src/Versioned/Entry.antt =====
-- Entries of the controller's map: what one call of `entry_helper` does.
use remora.Prelude.{
  ==_ne, Bool-cases, ℕ, ◌+◌, ◌<◌, ◌≡◌, ◌≢◌, refl, ap, Option, none, some, if◌then◌else◌, get,
  get-insert, insert, arith, ◌==◌, ==_iff, pair_eq, ==_refl, Option-cases, inl, inr,
}
use remora.Versioned.{VersionedDependencyController, TaskEntry, entry_helper, new_controller}

-- The handle of a version of an object.
abbrev pub notify_of : TaskEntry → Option ℕ
notify_of none = none
notify_of (some (task_id, notify)) = some notify

abbrev pub entry_notify : Option TaskEntry → Option ℕ
entry_notify none = none
entry_notify (some e) = notify_of e

unfoldable pub handle : VersionedDependencyController → ℕ × ℕ → Option ℕ
handle c k = entry_notify (get c.obj_task_map k)

-- Every entry has a handle, allocated before, and no two entries share one.
pub record IsWellFormed (c : VersionedDependencyController) : Type 0 where
  pub filled : (k : ℕ × ℕ) (e : TaskEntry) → get c.obj_task_map k ≡ some e → e ≢ none
  pub allocated : (k : ℕ × ℕ) (n : ℕ) → handle c k ≡ some n → n < c.next_notify
  pub distinct : (j k : ℕ × ℕ) (n : ℕ) → handle c j ≡ some n → handle c k ≡ some n → j ≡ k
  pub initial : c.initial_version ≡ 2

-- What holds between a state and a later one while nothing is removed.
pub record Extends (c d : VersionedDependencyController) : Type 0 where
  pub keeps : (k : ℕ × ℕ) (n : ℕ) → handle c k ≡ some n → handle d k ≡ some n
  pub initial : d.initial_version ≡ c.initial_version

pub Extends-refl : (c : VersionedDependencyController) → Extends c c
Extends-refl c = record { keeps = λ k n h. h; initial = refl }

pub Extends-trans :
    {c d e : VersionedDependencyController} → Extends c d → Extends d e → Extends c e
Extends-trans p q = record {
  keeps = λ k n h. q.keeps k n (p.keeps k n h);
  initial = ground (arith, p.initial, q.initial);
}

pub new_controller-IsWellFormed : IsWellFormed new_controller
unfolding new_controller handle get
new_controller-IsWellFormed = record {
  filled = λ k e h. ground arith;
  allocated = λ k n h. ground arith;
  distinct = λ j k n h i. ground arith;
  initial = refl;
}

-- A state with a new entry under a key that had none.
abbrev pub with_entry : VersionedDependencyController → ℕ × ℕ → ℕ → VersionedDependencyController
with_entry c k task_id = record c {
  obj_task_map = insert c.obj_task_map k (some (task_id, c.next_notify));
  next_notify = c.next_notify + 1;
}

handle-with_entry :
    (c : VersionedDependencyController) (k j : ℕ × ℕ) (task_id : ℕ)
    → handle (with_entry c k task_id) j ≡ (if k == j then some c.next_notify else handle c j)
unfolding handle
handle-with_entry c k j task_id =
    ground (arith, get-insert c.obj_task_map k j (some (task_id, c.next_notify)))

module _ (c : VersionedDependencyController) (k : ℕ × ℕ) (task_id : ℕ) (w : IsWellFormed c) where
  with_entry-filled :
      (j : ℕ × ℕ) (e : TaskEntry) → get (with_entry c k task_id).obj_task_map j ≡ some e → e ≢ none
  with_entry-filled j e h =
      ground (arith, get-insert c.obj_task_map k j (some (task_id, c.next_notify)), w.filled j e)

  with_entry-allocated :
      (j : ℕ × ℕ) (n : ℕ) → handle (with_entry c k task_id) j ≡ some n → n < c.next_notify + 1
  with_entry-allocated j n h = ground (arith, handle-with_entry c k j task_id, w.allocated j n)

  with_entry-distinct :
      (i j : ℕ × ℕ) (n : ℕ)
      → handle (with_entry c k task_id) i ≡ some n
      → handle (with_entry c k task_id) j ≡ some n
      → i ≡ j
  with_entry-distinct i j n hi hj = ground (
    arith,
    handle-with_entry c k i task_id,
    handle-with_entry c k j task_id,
    ==_iff k i,
    ==_iff k j,
    w.allocated i n,
    w.allocated j n,
    w.distinct i j n,
  )

  with_entry-IsWellFormed : IsWellFormed (with_entry c k task_id)
  with_entry-IsWellFormed = record {
    filled = with_entry-filled;
    allocated = with_entry-allocated;
    distinct = with_entry-distinct;
    initial = w.initial;
  }

  with_entry-keeps :
      handle c k ≡ none
      → (j : ℕ × ℕ) (n : ℕ) → handle c j ≡ some n
      → handle (with_entry c k task_id) j ≡ some n
  with_entry-keeps fresh j n h = elim (Bool-cases (k == j)) [
    | inl e ↦ cc (ap (handle c) ((==_iff k j).0 e), fresh, h)
    | inr e ↦ ground (arith, handle-with_entry c k j task_id)
  ]

-- What `entry_helper` guarantees of its handle and of the new state.
pub record Entered (c : VersionedDependencyController) (k : ℕ × ℕ) (n : ℕ)
    (d : VersionedDependencyController) : Type 0 where
  pub well_formed : IsWellFormed d
  pub extends : Extends c d
  pub at : handle d k ≡ some n
  pub only : (j : ℕ × ℕ) → k ≢ j → handle d j ≡ handle c j

entry_helper-old :
    (c : VersionedDependencyController) (obj seq task : ℕ) (e : TaskEntry)
    → IsWellFormed c
    → get c.obj_task_map (obj, seq) ≡ some e
    → (n : ℕ) × (entry_helper obj seq task c ≡ some (n, c)) × Entered c (obj, seq) n c
unfolding entry_helper handle
entry_helper-old c obj seq task none w h = absurd (w.filled (obj, seq) none h refl)
entry_helper-old c obj seq task (some (t, n)) w h = (
  n,
  rw (h, entry_helper) refl,
  record { well_formed = w; extends = Extends-refl c; at = rw h refl; only = λ j ne. refl },
)

entry_helper-new :
    (c : VersionedDependencyController) (obj seq task : ℕ)
    → IsWellFormed c
    → get c.obj_task_map (obj, seq) ≡ none
    → (n : ℕ) × (d : VersionedDependencyController) × (entry_helper obj seq task c ≡ some (n, d))
      × Entered c (obj, seq) n d
unfolding entry_helper
entry_helper-new c obj seq task w h =
    let k : ℕ × ℕ = (obj, seq) in
    (
      c.next_notify,
      with_entry c k task,
      rw (h, entry_helper) refl,
      record {
        well_formed = with_entry-IsWellFormed c k task w;
        extends = record {
          keeps = with_entry-keeps c k task w (unfold handle in rw h refl);
          initial = refl;
        };
        at = ground (arith, handle-with_entry c k k task, ==_refl k);
        only = λ j ne. ground (arith, handle-with_entry c k j task, ==_ne k j ne);
      },
    )

-- In a well-formed state `entry_helper` never panics, and its handle is the entry's from then on.
pub entry_helper_lem :
    (c : VersionedDependencyController) (obj seq task : ℕ)
    → IsWellFormed c
    → (n : ℕ) × (d : VersionedDependencyController) × (entry_helper obj seq task c ≡ some (n, d))
      × Entered c (obj, seq) n d
entry_helper_lem c obj seq task w = elim (Option-cases (get c.obj_task_map (obj, seq))) [
  | inl h ↦ entry_helper-new c obj seq task w h
  | inr (e, h) ↦
      let (n, run, entered) = entry_helper-old c obj seq task e w h in (n, c, run, entered)
]
