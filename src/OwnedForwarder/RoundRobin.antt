-- ===== src/OwnedForwarder/RoundRobin.antt =====
-- The turn from batch to batch.
use native.Mathlib.Nat.{mod-add-mod}
use remora.Prelude.{
  true, false, inr, inl, Bool-cases, ap₂, ℕ, ◌+◌, ◌%◌, ◌≡◌, refl, List, [], ◌∷◌, ◌++◌, Option, none,
  some, ◌==◌, nat_eq, length, arith, length-append, ap, sym, ◌∙◌,
}
use remora.Api.{TransactionWithTimestamp, StatelessVerificationRequest}
use remora.OwnedForwarder.{
  OwnedObjTxnForwarder, Messages, messages_for, messages_from, forward_owned_txns_in_parallel,
  cons_some,
}

-- Two outcomes one after the other; a panic of either is a panic.
abbrev pub append_some {ℓ} : {A : Type ℓ} → Option (List A) → Option (List A) → Option (List A)
append_some none rest = none
append_some (some xs) none = none
append_some (some xs) (some ys) = some (xs ++ ys)

append_some-cons_some :
    (m : Option Messages) (a b : Option (List Messages))
    → append_some (cons_some m a) b ≡ cons_some m (append_some a b)
append_some-cons_some none a b = refl
append_some-cons_some (some m) none b = refl
append_some-cons_some (some m) (some a) none = refl
append_some-cons_some (some m) (some a) (some b) = refl

append_some-nil : (a : Option (List Messages)) → append_some (some []) a ≡ a
append_some-nil none = refl
append_some-nil (some a) = refl

next_turn : (a b n : ℕ) → a % n ≡ b % n → (a + 1) % n ≡ (b + 1) % n
next_turn a b n e = sym (mod-add-mod a n 1) ∙ ap (λ r. (r + 1) % n) e ∙ mod-add-mod b n 1

module _ (make_request : TransactionWithTimestamp → StatelessVerificationRequest) where
  -- The messages depend on the turn of the first transaction alone.
  messages_from-turn :
      (f : OwnedObjTxnForwarder) (k s i t j : ℕ) (ts : List TransactionWithTimestamp)
      → (t + j) % length f.proxy_connections ≡ (s + i) % length f.proxy_connections
      → messages_from make_request (record f { index = k }) t j ts
        ≡ messages_from make_request f s i ts
  unfolding messages_from
  messages_from-turn f k s i t j [] e = refl
  messages_from-turn f k s i t j (x ∷ ts) e =
      let n : ℕ = length f.proxy_connections in
      let turn : (t + (j + 1)) % n ≡ (s + (i + 1)) % n =
        ap (λ r. r % n) (omega arith)
        ∙ next_turn (t + j) (s + i) n e
        ∙ ap (λ r. r % n) (omega arith) in
      ap₂ (λ r rest. cons_some (messages_for make_request f.proxy_connections f.policy r x) rest) e
        (messages_from-turn f k s (i + 1) t (j + 1) ts turn)

  messages_from-append :
      (f : OwnedObjTxnForwarder) (s i k : ℕ) (xs ys : List TransactionWithTimestamp)
      → i + length xs ≡ k
      → messages_from make_request f s i (xs ++ ys)
        ≡ append_some (messages_from make_request f s i xs) (messages_from make_request f s k ys)
  unfolding messages_from
  messages_from-append f s i k [] ys e =
      let same : i ≡ k = omega arith in
      ap (λ r. messages_from make_request f s r ys) same
      ∙ sym (append_some-nil (messages_from make_request f s k ys))
  messages_from-append f s i k (x ∷ xs) ys e =
      ap (cons_some _) (messages_from-append f s (i + 1) k xs ys (omega arith))
      ∙ sym (append_some-cons_some _ (messages_from make_request f s (i + 1) xs) _)

  forward_none :
      (f : OwnedObjTxnForwarder) (ts : List TransactionWithTimestamp)
      → (length f.proxy_connections == 0) ≡ true
      → forward_owned_txns_in_parallel make_request f ts ≡ (some [], f)
  unfolding forward_owned_txns_in_parallel
  forward_none f ts h = rw h refl

  forward_some :
      (f : OwnedObjTxnForwarder) (ts : List TransactionWithTimestamp)
      → (length f.proxy_connections == 0) ≡ false
      → forward_owned_txns_in_parallel make_request f ts ≡ (
        messages_from make_request f f.index 0 ts,
        record f { index = (f.index + length ts) % length f.proxy_connections },
      )
  unfolding forward_owned_txns_in_parallel
  forward_some f ts h = rw h refl

  -- The batches do not matter: two batches one after the other are forwarded as the one batch of
  -- both would be, to the same proxies, with the same turn left for what follows, and panic if it
  -- would.
  pub two_batches :
      (f : OwnedObjTxnForwarder) (xs ys : List TransactionWithTimestamp)
      → let (first, g) = forward_owned_txns_in_parallel make_request f xs in
        let (second, h) = forward_owned_txns_in_parallel make_request g ys in
        let (both, h') = forward_owned_txns_in_parallel make_request f (xs ++ ys) in
        (both ≡ append_some first second) × (h' ≡ h)
  two_batches f xs ys = elim (Bool-cases (length f.proxy_connections == 0)) [
    | inl z ↦
        rw (forward_none f xs z, forward_none f ys z, forward_none f (xs ++ ys) z) (refl, refl)
    | inr proxies ↦
        let n : ℕ = length f.proxy_connections in
        let k : ℕ = (f.index + length xs) % n in
        rw
          (
            forward_some f xs proxies,
            forward_some (record f { index = k }) ys proxies,
            forward_some f (xs ++ ys) proxies,
          )
          (
            messages_from-append f f.index 0 (length xs) xs ys (omega arith)
                ∙ ap (append_some _) (
                    sym (
                      messages_from-turn f k f.index (length xs) k 0 ys
                        (mod-add-mod (f.index + length xs) n 0 ∙ ap (λ r. r % n) (omega arith)))),
            ap (λ (i : ℕ). record f { index = i })
                (ap (λ r. r % n) (omega (arith, length-append xs ys))
                  ∙ sym (mod-add-mod (f.index + length xs) n (length ys))),
          )
  ]
