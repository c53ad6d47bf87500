-- ===== src/Prelude/Assoc.antt =====
-- Maps of the program (DashMap, FxHashMap) as association lists. The order of the entries is the
-- order in which an iteration meets them; no theorem depends on it.
use Prim.Native.Nat.{ℕ, ◌+◌}
use mathlib.Core.Path.{◌≡◌, refl, subst, ap}
use mathlib.Core.Logic.{inl, inr}
use remora.Prelude.Lists.{All}
use mathlib.Core.Bool.{Bool, true, false, ◌||◌}
use mathlib.Core.Option.{Option, none, some}
use mathlib.Core.List.{List, [], ◌∷◌, ◌++◌}
use native.Mathlib.Omega.{arith}
use remora.Prelude.Tests.{if◌then◌else◌, Bool-cases, ltb}
use remora.Prelude.Eq.{EqKey, ◌==◌}

abbrev pub Assoc {ℓ κ} : Type ℓ → Type κ → Type (ℓ ⊔ κ)
Assoc K V = List (K × V)

module _ {ℓ κ} {K : Type ℓ} {V : Type κ} ⦃e : EqKey K⦄ where
  -- map.get(&k)
  unfoldable pub get : Assoc K V → K → Option V
  get [] k = none
  get ((j, v) ∷ m) k = if j == k then some v else get m k

  -- map.insert(k, v): an old entry of the key is overwritten.
  unfoldable pub insert : Assoc K V → K → V → Assoc K V
  insert [] k v = (k, v) ∷ []
  insert ((j, w) ∷ m) k v = let rest = insert m k v in if j == k then (k, v) ∷ m else (j, w) ∷ rest

  -- map.remove(&k)
  unfoldable pub remove : Assoc K V → K → Assoc K V
  remove [] k = []
  remove ((j, w) ∷ m) k = let rest = remove m k in if j == k then rest else (j, w) ∷ rest

  -- map.contains_key(&k)
  unfoldable pub contains_key : Assoc K V → K → Bool
  unfolding get
  contains_key m k = elim (get m k) [ none ↦ false | some v ↦ true ]

  pub get-insert :
      (m : Assoc K V) (k j : K) (v : V)
      → get (insert m k v) j ≡ (if k == j then some v else get m j)
  unfolding get insert
  get-insert [] k j v = refl
  get-insert ((i, w) ∷ m) k j v =
      ground (arith, e.same_iff i k, e.same_iff i j, e.same_iff k j, get-insert m k j v)

  pub get-remove :
      (m : Assoc K V) (k j : K) → get (remove m k) j ≡ (if k == j then none else get m j)
  unfolding get remove
  get-remove [] k j = ground arith
  get-remove ((i, w) ∷ m) k j =
      ground (arith, e.same_iff i k, e.same_iff i j, e.same_iff k j, get-remove m k j)

-- A predicate of every entry.
module _ {ℓ κ} {K : Type ℓ} {V : Type κ} ⦃e : EqKey K⦄ where
  pub All-insert {ι} :
      (P : K × V → Type ι) (m : Assoc K V) (k : K) (v : V)
      → All P m
      → P (k, v)
      → All P (insert m k v)
  unfolding insert
  All-insert P [] k v h p = (p, tt)
  All-insert P ((j, w) ∷ m) k v h p =
      elim (j == k) as (λ b. All P (if b then (k, v) ∷ m else (j, w) ∷ insert m k v)) [
        | true ↦ (p, h.1)
        | false ↦ (h.0, All-insert P m k v h.1 p)
      ]

  pub All-get {ι} :
      (P : K × V → Type ι) (m : Assoc K V) (k : K) (v : V) → All P m → get m k ≡ some v → P (k, v)
  unfolding get
  All-get P [] k v h g = absurd (ground arith)
  All-get P ((j, w) ∷ m) k v h g = elim (Bool-cases (j == k)) [
    | inl same ↦
        let value : w ≡ v = ground arith in
        subst (λ u. P (k, u)) value (subst (λ i. P (i, w)) ((e.same_iff j k).0 same) h.0)
    | inr differs ↦ All-get P m k v h.1 (ground arith)
  ]

-- Membership in a list of keys, and how often a key stands in one.
module _ {ℓ} {K : Type ℓ} ⦃e : EqKey K⦄ where
  unfoldable pub contains : List K → K → Bool
  contains [] k = false
  contains (j ∷ ks) k = if j == k then true else contains ks k

  abbrev pub count : List K → K → ℕ
  count [] k = 0
  count (j ∷ ks) k = (if j == k then 1 else 0) + count ks k

  pub count-append : (xs ys : List K) (k : K) → count (xs ++ ys) k ≡ count xs k + count ys k
  count-append [] ys k = omega arith
  count-append (x ∷ xs) ys k = omega (arith, count-append xs ys k)

  pub contains-count : (xs : List K) (k : K) → contains xs k ≡ ltb 0 (count xs k)
  unfolding contains
  contains-count [] k = refl
  contains-count (x ∷ xs) k = ground (arith, contains-count xs k)

  pub contains-append :
      (xs ys : List K) (k : K) → contains (xs ++ ys) k ≡ (contains xs k || contains ys k)
  unfolding contains
  contains-append [] ys k = refl
  contains-append (x ∷ xs) ys k = ground (arith, contains-append xs ys k)

  pub contains-same : (xs : List K) (j k : K) → (j == k) ≡ true → contains xs j ≡ contains xs k
  contains-same xs j k h = ap (contains xs) ((e.same_iff j k).0 h)

pub ruleset assoc_laws = (get-insert, get-remove)
