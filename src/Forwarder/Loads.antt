-- ===== src/Forwarder/Loads.antt =====
-- `StatelessTxnForwarder::pick_stateless_proxy`, and the loads of the proxies in microseconds.
use remora.Prelude.{
  ◌⊎◌, Option-cases, ℕ, ◌+◌, ◌≡◌, ◌≤◌, refl, List, [], ◌∷◌, Option, none, some, if◌then◌else◌, ltb,
  ◌==◌, nat_eq, ==_iff, arith, Map, get, insert, get-insert, All, contains, inl, inr, true,
}

-- proxy_loads.get(&proxy_id).map_or(0, |load| *load)
unfoldable pub load_of : Map ℕ ℕ → ℕ → ℕ
load_of loads proxy = elim (get loads proxy) [ none ↦ 0 | some load ↦ load ]

-- entry(proxy).and_modify(|load| *load += weight).or_insert(weight)
unfoldable pub add_load : Map ℕ ℕ → ℕ → ℕ → Map ℕ ℕ
add_load loads proxy weight = elim (get loads proxy) [
  | none ↦ insert loads proxy weight
  | some load ↦ insert loads proxy (load + weight)
]

-- The first of the least loaded, as `min_by_key` finds it.
unfoldable pub least_loaded_from : Map ℕ ℕ → ℕ → List ℕ → ℕ
least_loaded_from loads best [] = best
least_loaded_from loads best (p ∷ ps) =
    least_loaded_from loads (if ltb (load_of loads p) (load_of loads best) then p else best) ps

unfoldable pub least_loaded : Map ℕ ℕ → List ℕ → Option ℕ
unfolding least_loaded_from
least_loaded loads [] = none
least_loaded loads (p ∷ ps) = some (least_loaded_from loads p ps)

unfoldable pub unwrap_or : Option ℕ → ℕ → ℕ
unwrap_or none d = d
unwrap_or (some p) d = p

-- The proxy, and the loads with the duration of the request added to it.
unfoldable pub pick_stateless_proxy : List ℕ → Map ℕ ℕ → ℕ → ℕ × Map ℕ ℕ
unfolding least_loaded unwrap_or add_load
pick_stateless_proxy conn proxy_loads duration =
    let proxy = unwrap_or (least_loaded proxy_loads conn) 0 in
    (proxy, add_load proxy_loads proxy duration)

pub load_of-add_load :
    (loads : Map ℕ ℕ) (p weight q : ℕ)
    → load_of (add_load loads p weight) q
      ≡ (if p == q then load_of loads q + weight else load_of loads q)
unfolding load_of add_load
load_of-add_load loads p weight q = elim (Option-cases (get loads p)) [
  | inl e ↦ rw (e, add_load) (ground (arith, e, ==_iff p q, get-insert loads p q weight))
  | inr (l, e) ↦ rw (e, add_load) (ground (arith, e, ==_iff p q, get-insert loads p q (l + weight)))
]

least_loaded_from_lem :
    (loads : Map ℕ ℕ) (best : ℕ) (ps : List ℕ)
    → (load_of loads (least_loaded_from loads best ps) ≤ load_of loads best)
      × All (λ q. load_of loads (least_loaded_from loads best ps) ≤ load_of loads q) ps
      × ((least_loaded_from loads best ps ≡ best)
          ⊎ (contains ps (least_loaded_from loads best ps) ≡ true))
unfolding least_loaded_from contains
least_loaded_from_lem loads best [] = (omega arith, tt, inl refl)
least_loaded_from_lem loads best (p ∷ ps) =
    let b : ℕ = if ltb (load_of loads p) (load_of loads best) then p else best in
    let (le, all, member) = least_loaded_from_lem loads b ps in
    (
      ground (arith, le),
      (ground (arith, le), all),
      ground (arith, member, ==_iff p (least_loaded_from loads b ps)),
    )

-- With a proxy connected, a stateless transaction goes to a connected proxy of the least load, and
-- its duration is added to the load of that proxy and of no other.
pub pick_stateless_proxy_lem :
    (p : ℕ) (ps : List ℕ) (loads : Map ℕ ℕ) (duration : ℕ) (q : ℕ)
    → let (picked, loads') = pick_stateless_proxy (p ∷ ps) loads duration in
      (contains (p ∷ ps) picked ≡ true)
      × All (λ r. load_of loads picked ≤ load_of loads r) (p ∷ ps)
      × (load_of loads' q ≡ (if picked == q then load_of loads q + duration else load_of loads q))
unfolding pick_stateless_proxy contains
pick_stateless_proxy_lem p ps loads duration q =
    let picked : ℕ = least_loaded_from loads p ps in
    let (le, all, member) = least_loaded_from_lem loads p ps in
    (ground (arith, member, ==_iff p picked), (le, all), load_of-add_load loads picked duration q)
