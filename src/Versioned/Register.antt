-- ===== src/Versioned/Register.antt =====
-- `get_prior_dependency_and_update` and `remove_dependency` against the keys that they name.
use remora.Prelude.{
  subst, ◌∙◌, ℕ, ◌≡◌, refl, List, [], ◌∷◌, ◌++◌, some, Bool, true, false, not, ◌&&◌, ltb,
  if◌then◌else◌, pair_eq,
}
use remora.Versioned.{
  >>=-run, VersionedDependencyController, entry_helper, handle_if, collect_handles,
}
use remora.Versioned.Entry.{
  handle, IsWellFormed, Extends, Extends-refl, Extends-trans, entry_helper_lem,
}

-- The handles `ns` are those of the keys `ks`, one for one.
abbrev pub HandlesAt : VersionedDependencyController → List (ℕ × ℕ) → List ℕ → Type 0
HandlesAt c [] [] = Unit {0}
HandlesAt c [] (n ∷ ns) = ⊥
HandlesAt c (k ∷ ks) [] = ⊥
HandlesAt c (k ∷ ks) (n ∷ ns) = (handle c k ≡ some n) × HandlesAt c ks ns

HandlesAt-append :
    (c : VersionedDependencyController) (js ks : List (ℕ × ℕ)) (ms ns : List ℕ)
    → HandlesAt c js ms
    → HandlesAt c ks ns
    → HandlesAt c (js ++ ks) (ms ++ ns)
HandlesAt-append c [] ks [] ns h i = i
HandlesAt-append c [] ks (m ∷ ms) ns h i = absurd h
HandlesAt-append c (j ∷ js) ks [] ns h i = absurd h
HandlesAt-append c (j ∷ js) ks (m ∷ ms) ns h i = (h.0, HandlesAt-append c js ks ms ns h.1 i)

-- Handles that were given out stay the handles of their keys.
pub HandlesAt-Extends :
    {c d : VersionedDependencyController} (ks : List (ℕ × ℕ)) (ns : List ℕ)
    → Extends c d
    → HandlesAt c ks ns
    → HandlesAt d ks ns
HandlesAt-Extends [] [] e h = tt
HandlesAt-Extends [] (n ∷ ns) e h = h
HandlesAt-Extends (k ∷ ks) [] e h = h
HandlesAt-Extends (k ∷ ks) (n ∷ ns) e h = (e.keeps k n h.0, HandlesAt-Extends ks ns e h.1)

-- The versions that a transaction waits for: those above the initial one, unless it ignores them.
abbrev pub awaited : ℕ → Bool → List (ℕ × ℕ) → List (ℕ × ℕ)
awaited initial ignore_prior [] = []
awaited initial ignore_prior (k ∷ ks) =
    (if ltb initial k.1 && not ignore_prior then k ∷ [] else []) ++ awaited initial ignore_prior ks

-- The versions that it produces: its objects at their next version.
abbrev pub produced : ℕ → Bool → List (ℕ × ℕ) → List (ℕ × ℕ)
produced next_v ignore_next [] = []
produced next_v ignore_next (k ∷ ks) =
    (if not ignore_next then (k.0, next_v) ∷ [] else []) ++ produced next_v ignore_next ks

handle_if_lem :
    (b : Bool) (obj seq task : ℕ) (c : VersionedDependencyController)
    → IsWellFormed c
    → (ns : List ℕ) × (d : VersionedDependencyController) × (handle_if b obj seq task c
        ≡ some (ns, d))
      × IsWellFormed d
      × Extends c d
      × HandlesAt d (if b then (obj, seq) ∷ [] else []) ns
unfolding handle_if
handle_if_lem false obj seq task c w = ([], c, refl, w, Extends-refl c, tt)
handle_if_lem true obj seq task c w =
    let (n, d, run, e) = entry_helper_lem c obj seq task w in
    (n ∷ [], d, >>=-run (entry_helper obj seq task) _ c run, e.well_formed, e.extends, (e.at, tt))

-- What a registration guarantees: no panic, the handles of the keys, and nothing forgotten.
pub record Registered (next_v : ℕ) (ignore_prior ignore_next : Bool) (ks : List (ℕ × ℕ))
    (c d : VersionedDependencyController) (handles : List ℕ × List ℕ) : Type 0 where
  pub well_formed : IsWellFormed d
  pub extends : Extends c d
  pub priors : HandlesAt d (awaited c.initial_version ignore_prior ks) handles.0
  pub nexts : HandlesAt d (produced next_v ignore_next ks) handles.1

module _ (task next_v : ℕ) (ip in' : Bool) where
  pub collect_handles_lem :
      (ks : List (ℕ × ℕ)) (c : VersionedDependencyController)
      → IsWellFormed c
      → (handles : List ℕ × List ℕ) × (d : VersionedDependencyController) × (collect_handles task
            next_v ip in' ks c
          ≡ some (handles, d))
        × Registered next_v ip in' ks c d handles
  unfolding collect_handles
  collect_handles_lem [] c w = (
    ([], []),
    c,
    refl,
    record { well_formed = w; extends = Extends-refl c; priors = tt; nexts = tt },
  )
  collect_handles_lem ((obj, seq) ∷ ks) c w =
      let b : Bool = ltb c.initial_version seq && not ip in
      let (ns, d, r1, w1, e1, h1) = handle_if_lem b obj seq task c w in
      let (ms, f, r2, w2, e2, h2) = handle_if_lem (not in') obj next_v task d w1 in
      let (hs, g, r3, reg) = collect_handles_lem ks f w2 in
      let later : HandlesAt g (awaited c.initial_version ip ks) hs.0 =
        subst (λ i. HandlesAt g (awaited i ip ks) hs.0) (Extends-trans e1 e2).initial reg.priors in
      (
        (ns ++ hs.0, ms ++ hs.1),
        g,
        >>=-run (handle_if b obj seq task) _ c r1
            ∙ >>=-run (handle_if (not in') obj next_v task) _ d r2
            ∙ >>=-run (collect_handles task next_v ip in' ks) _ f r3,
        record {
          well_formed = reg.well_formed;
          extends = Extends-trans e1 (Extends-trans e2 reg.extends);
          priors =
              HandlesAt-append g _ (awaited c.initial_version ip ks) ns hs.0
                (HandlesAt-Extends _ ns (Extends-trans e2 reg.extends) h1) later;
          nexts =
              HandlesAt-append g _ (produced next_v in' ks) ms hs.1
                (HandlesAt-Extends _ ms reg.extends h2) reg.nexts;
        },
      )
