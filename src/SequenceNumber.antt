-- ===== src/SequenceNumber.antt =====
-- `SequenceNumber` of the crate sui_types, which src/ does not hold: a version number, ordered as the
-- u64 that `SequenceNumber::from` takes. What the program calls of it is a parameter of the model:
-- `next`, the version right after a given one, and `one_before`, its inverse. No run comes near
-- the largest u64, so that limit is not modelled.
use remora.Prelude.{ℕ, zero, suc, ◌+◌, ◌≡◌, refl, Option, none, some, arith}

pub record SequenceNumbers : Type 0 where
  pub next : ℕ → ℕ
  pub one_before : ℕ → Option ℕ
  pub next_lem : (v : ℕ) → next v ≡ v + 1
  pub one_before-next : (v : ℕ) → one_before (next v) ≡ some v

abbrev pub next : ⦃S : SequenceNumbers⦄ → ℕ → ℕ
next ⦃S⦄ = S.next

-- A version number as the plain number that it wraps meets these laws.
abbrev pred? : ℕ → Option ℕ
pred? zero = none
pred? (suc n) = some n

pub plain_one_before-next : (v : ℕ) → pred? (suc v) ≡ some v
plain_one_before-next v = refl

pub plain_next_lem : (v : ℕ) → suc v ≡ v + 1
plain_next_lem v = omega arith

instance abbrev pub plain_numbers : SequenceNumbers
plain_numbers = record {
  next = λ v. suc v;
  one_before = pred?;
  next_lem = plain_next_lem;
  one_before-next = plain_one_before-next;
}
