-- ===== src/Versioned.antt =====
-- src/executor/versioned_dependency_controller.rs: which `Notify` stands for a version of an object.
-- A `Notify` is known by the number under which it was allocated; `none` is a panic.
pub mod Entry
pub mod Register
pub mod Next
pub mod Runs
use remora.Prelude.{
  ◌≡◌, refl, ℕ, ◌+◌, List, [], ◌∷◌, ◌++◌, Option, none, some, Bool, true, false, not, ◌&&◌, ltb,
  if◌then◌else◌, Map, get, insert, remove, contains_key, pair_eq, pair_beq,
}
use remora.SequenceNumber.{SequenceNumbers, next}

-- (TaskID, Arc<Notify>)
abbrev pub TaskHandle : Type 0
TaskHandle = ℕ × ℕ

abbrev pub TaskEntry : Type 0
TaskEntry = Option TaskHandle

abbrev pub ObjectTaskMap : Type 0
ObjectTaskMap = Map (ℕ × ℕ) TaskEntry

-- `next_notify` is the number of the next `Notify::new()`.
pub record VersionedDependencyController : Type 0 where
  pub obj_task_map : ObjectTaskMap
  pub initial_version : ℕ
  pub next_notify : ℕ

unfoldable pub new_controller : VersionedDependencyController
new_controller = record { obj_task_map = []; initial_version = 2; next_notify = 0 }

-- A method that may panic returns its result and the new state.
abbrev pub M : Type 0 → Type 0
M A = VersionedDependencyController → Option (A × VersionedDependencyController)

infixl 5 ◌>>=◌
abbrev pub ◌>>=◌ : {A B : Type 0} → M A → (A → M B) → M B
◌>>=◌ m f c = elim (m c) [ none ↦ none | some (a, c') ↦ f a c' ]

pub >>=-run :
    {A B : Type 0} (m : M A) (f : A → M B) (c : VersionedDependencyController) {a : A}
    {d : VersionedDependencyController}
    → m c ≡ some (a, d)
    → (m >>= f) c ≡ f a d
>>=-run m f c run = rw (run, ◌>>=◌) refl

abbrev pub pure : {A : Type 0} → A → M A
pure a c = some (a, c)

unfoldable pub has_task_for_object : VersionedDependencyController → ℕ → ℕ → Bool
has_task_for_object c obj_id seq_num = contains_key c.obj_task_map (obj_id, seq_num)

-- `entry.get().as_ref().unwrap().1.clone()`
unfoldable pub unwrap_notify : TaskEntry → M ℕ
unwrap_notify none c = none
unwrap_notify (some (task_id, notify)) c = some (notify, c)

unfoldable pub entry_helper : ℕ → ℕ → ℕ → M ℕ
unfolding unwrap_notify
entry_helper obj_id seq_num task_id c = elim (get c.obj_task_map (obj_id, seq_num)) [
  | some entry ↦ unwrap_notify entry c
  | none ↦ some (
    c.next_notify,
    record c {
      obj_task_map = insert c.obj_task_map (obj_id, seq_num) (some (task_id, c.next_notify));
      next_notify = c.next_notify + 1;
    },
  )
]

-- obj_versions.iter().map(|(_, seq_num)| *seq_num).max()
unfoldable pub max_version : List (ℕ × ℕ) → Option ℕ
max_version [] = none
max_version ((obj_id, seq_num) ∷ obj_versions) = elim (max_version obj_versions) [
  | none ↦ some seq_num
  | some m ↦ some (if ltb m seq_num then seq_num else m)
]

-- A handle is taken only under its flag.
unfoldable pub handle_if : Bool → ℕ → ℕ → ℕ → M (List ℕ)
handle_if true obj_id seq_num task_id = do
  notify ← entry_helper obj_id seq_num task_id
  pure (notify ∷ [])
handle_if false obj_id seq_num task_id = pure []

-- The loop of `get_prior_dependency_and_update`: the handles in the order in which they are pushed.
unfoldable pub collect_handles : ℕ → ℕ → Bool → Bool → List (ℕ × ℕ) → M (List ℕ × List ℕ)
collect_handles task_id next_v ignore_prior ignore_next [] c = some (([], []), c)
collect_handles task_id next_v ignore_prior ignore_next ((obj_id, seq_num) ∷ rest) c =
    let later : M (List ℕ × List ℕ) =
      collect_handles task_id next_v ignore_prior ignore_next rest in
    (do
      current ← handle_if (ltb c.initial_version seq_num && not ignore_prior) obj_id seq_num task_id
      following ← handle_if (not ignore_next) obj_id next_v task_id
      handles ← later
      pure (current ++ handles.0, following ++ handles.1))
      c

-- remove_dependency
unfoldable pub remove_entries : List (ℕ × ℕ) → ObjectTaskMap → ObjectTaskMap
remove_entries [] m = m
remove_entries (k ∷ ks) m = remove_entries ks (remove m k)

unfoldable pub remove_dependency :
    List (ℕ × ℕ) → VersionedDependencyController → VersionedDependencyController
unfolding remove_entries
remove_dependency obj_versions c = record c {
  obj_task_map = remove_entries obj_versions c.obj_task_map;
}

module _ ⦃S : SequenceNumbers⦄ where
  -- `expect` on an empty list is a panic.
  unfoldable pub calculate_next_version : List (ℕ × ℕ) → Option ℕ
  unfolding max_version
  calculate_next_version obj_versions = elim (max_version obj_versions) [
    | none ↦ none
    | some m ↦ some (next m)
  ]

  unfoldable pub get_prior_dependency_and_update :
      ℕ → List (ℕ × ℕ) → Bool → Bool → M (List ℕ × List ℕ)
  get_prior_dependency_and_update task_id obj_versions ignore_prior ignore_next c =
      elim (calculate_next_version obj_versions) [
        | none ↦ none
        | some next_v ↦ collect_handles task_id next_v ignore_prior ignore_next obj_versions c
      ]
