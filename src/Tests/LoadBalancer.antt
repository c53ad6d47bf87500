-- ===== src/Tests/LoadBalancer.antt =====
-- The split of committed transactions, and the turns of those without shared objects.
use mathlib.Core.List.{Perm, Sublist}
use remora.Prelude.{◌≡◌, ◌≢◌, refl, [], ◌∷◌, ◌++◌, All}
use remora.Config.{round_robin}
use remora.LoadBalancer.{separate}
use remora.LoadBalancer.Split.{separate_lem}
use remora.OwnedForwarder.{OwnedObjTxnForwarder, forward_owned_txns_in_parallel}
use remora.OwnedForwarder.RoundRobin.{append_some, two_batches}
use remora.Tests.Data.{over, mint, request_for}

separate_lem_example :
    Perm
      ((separate (mint ∷ over 5 [] ∷ [])).0 ++ (separate (mint ∷ over 5 [] ∷ [])).1)
      (mint ∷ over 5 [] ∷ [])
    × Sublist (separate (mint ∷ over 5 [] ∷ [])).0 (mint ∷ over 5 [] ∷ [])
    × Sublist (separate (mint ∷ over 5 [] ∷ [])).1 (mint ∷ over 5 [] ∷ [])
    × All (λ t. t.shared_objects ≡ []) (separate (mint ∷ over 5 [] ∷ [])).0
    × All (λ t. t.shared_objects ≢ []) (separate (mint ∷ over 5 [] ∷ [])).1
separate_lem_example = separate_lem (mint ∷ over 5 [] ∷ [])

abbrev two_proxies : OwnedObjTxnForwarder
two_proxies = record { proxy_connections = 0 ∷ 1 ∷ []; policy = round_robin; index = 1 }

turns :
    (forward_owned_txns_in_parallel request_for two_proxies (over 5 [] ∷ over 6 [] ∷ [])).1
    ≡ two_proxies
unfolding forward_owned_txns_in_parallel
turns = refl

two_batches_example :
    let (first, g) = forward_owned_txns_in_parallel request_for two_proxies (over 5 [] ∷ []) in
    let (second, h) = forward_owned_txns_in_parallel request_for g (over 6 [] ∷ []) in
    let (both, h') =
      forward_owned_txns_in_parallel request_for two_proxies (over 5 [] ∷ over 6 [] ∷ []) in
    (both ≡ append_some first second) × (h' ≡ h)
two_batches_example = two_batches request_for two_proxies (over 5 [] ∷ []) (over 6 [] ∷ [])
