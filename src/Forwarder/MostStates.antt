-- ===== src/Forwarder/MostStates.antt =====
-- `get_proxy_for_shared_objects_most_states`: the proxy that hosts the most of the versions that a
-- transaction requires. `none` is a panic; the source's own `None` is the inner one.
pub mod Counts
pub mod Best
use remora.Prelude.{
  ℕ, zero, suc, ◌+◌, ◌%◌, List, [], ◌∷◌, ◌++◌, Option, none, some, if◌then◌else◌, ltb, ◌==◌, nat_eq,
  pair_eq, Map, get, length, get_elem?,
}

-- vec![0; n]
unfoldable pub zeros : ℕ → List ℕ
zeros zero = []
zeros (suc n) = 0 ∷ zeros n

-- counts[index] += 1
unfoldable pub increment : List ℕ → ℕ → List ℕ
increment [] index = []
increment (c ∷ counts) zero = (c + 1) ∷ counts
increment (c ∷ counts) (suc index) = c ∷ increment counts index

abbrev pub count_state : ℕ → List ℕ → Option ℕ → List ℕ
count_state proxy_count counts none = counts
count_state proxy_count counts (some proxy_index) =
    if ltb proxy_index proxy_count then increment counts proxy_index else counts

-- The loop over `required_versions`.
unfoldable pub count_states : Map (ℕ × ℕ) ℕ → ℕ → List ℕ → List (ℕ × ℕ) → List ℕ
unfolding increment
count_states states_to_proxy proxy_count counts [] = counts
count_states states_to_proxy proxy_count counts (k ∷ required) =
    count_states states_to_proxy proxy_count
      (count_state proxy_count counts (get states_to_proxy k)) required

-- What one count does to `max_count` and `best_proxies`.
abbrev pub compare_count : ℕ → ℕ → ℕ → List ℕ → ℕ × List ℕ
compare_count index count max_count best_proxies =
    if ltb max_count count
    then (count, index ∷ [])
    else if count == max_count
    then (max_count, best_proxies ++ index ∷ [])
    else (max_count, best_proxies)

-- The loop over the counts, which keeps all indices of the largest one.
unfoldable pub find_best : ℕ → ℕ → List ℕ → List ℕ → ℕ × List ℕ
find_best index max_count best_proxies [] = (max_count, best_proxies)
find_best index max_count best_proxies (count ∷ counts) =
    let (m, best) = compare_count index count max_count best_proxies in
    find_best (index + 1) m best counts

-- Indexing a vector; out of bounds it panics.
unfoldable pub select : ℕ → List ℕ → Option ℕ
select txn_cnt best_proxies =
    if ltb 1 (length best_proxies)
    then get_elem? best_proxies (txn_cnt % length best_proxies)
    else get_elem? best_proxies 0

abbrev return_some : Option ℕ → Option (Option ℕ)
return_some none = none
return_some (some p) = some (some p)

most_states_of : ℕ → Map (ℕ × ℕ) ℕ → List (ℕ × ℕ) → ℕ → Option (Option ℕ)
unfolding zeros count_states find_best select
most_states_of proxy_count states_to_proxy [] txn_cnt = some (some 0)
most_states_of proxy_count states_to_proxy (k ∷ required) txn_cnt =
    let counts = count_states states_to_proxy proxy_count (zeros proxy_count) (k ∷ required) in
    return_some (select txn_cnt (find_best 0 0 [] counts).1)

unfoldable pub get_proxy_for_shared_objects_most_states :
    ℕ → Map (ℕ × ℕ) ℕ → List (ℕ × ℕ) → ℕ → Option (Option ℕ)
unfolding most_states_of
get_proxy_for_shared_objects_most_states proxy_count states_to_proxy required_versions txn_cnt =
    if proxy_count == 0
    then some none
    else most_states_of proxy_count states_to_proxy required_versions txn_cnt
