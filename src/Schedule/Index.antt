-- ===== src/Schedule/Index.antt =====
-- The value of `object_id_24bit_index`.
use Prim.Native.Nat.{bit_or, bit_or-bitwise, digits, max}
use remora.Prelude.{
  ℕ, zero, suc, ◌+◌, ◌*◌, ◌/◌, ◌^◌, ◌<◌, ◌≤◌, ◌≡◌, ◌⊎◌, inl, inr, Option, none, some, arith, refl,
}
use remora.Schedule.External.{External, ExternalLaws}
use remora.Schedule.Policy.{object_id_24bit_index, num_objects}

digits-le : (n a b : ℕ) → digits (λ y. y) max n a b ≤ a + b
digits-le zero a b = omega arith
digits-le (suc n) zero b = omega arith
digits-le (suc n) (suc a) b = ground (arith, digits-le n (suc a / 2) (b / 2))

le-digits : (n a b : ℕ) → a ≤ n → (a ≤ digits (λ y. y) max n a b) × (b ≤ digits (λ y. y) max n a b)
le-digits zero a b h = omega arith
le-digits (suc n) zero b h = omega arith
le-digits (suc n) (suc a) b h = ground (arith, le-digits n (suc a / 2) (b / 2))

bit_or-le : (a b : ℕ) → bit_or a b ≤ a + b
bit_or-le a b = rw (bit_or-bitwise a b) (digits-le a a b)

le-bit_or : (a b : ℕ) → (a ≤ bit_or a b) × (b ≤ bit_or a b)
le-bit_or a b = rw (bit_or-bitwise a b) (le-digits a a b (omega arith))

-- One of the first three bytes is not 0.
abbrev pub HasIndex : ⦃E : External⦄ → ℕ → Type 0
HasIndex ⦃E⦄ object_id = 0 < E.byte object_id 0 + E.byte object_id 1 + E.byte object_id 2

module _ ⦃E : External⦄ (laws : ExternalLaws E) where
  index_cases :
      (object_id x : ℕ)
      → x
        ≡ bit_or
            (bit_or (E.byte object_id 0) (E.byte object_id 1 * 2 ^ 8))
            (E.byte object_id 2 * 2 ^ 16)
      → (x < 2 ^ 24)
        × (E.byte object_id 0 + E.byte object_id 1 + E.byte object_id 2 ≤ x)
        × (x ≤ 2 ^ 16 * (E.byte object_id 0 + E.byte object_id 1 + E.byte object_id 2))
  index_cases object_id x h =
      let low = bit_or (E.byte object_id 0) (E.byte object_id 1 * 2 ^ 8) in
      omega (
        arith,
        h,
        laws.byte_lt object_id 0,
        laws.byte_lt object_id 1,
        laws.byte_lt object_id 2,
        bit_or-le (E.byte object_id 0) (E.byte object_id 1 * 2 ^ 8),
        bit_or-le low (E.byte object_id 2 * 2 ^ 16),
        le-bit_or (E.byte object_id 0) (E.byte object_id 1 * 2 ^ 8),
        le-bit_or low (E.byte object_id 2 * 2 ^ 16),
      )

  -- What the index may be.
  abbrev pub IsIndex : ℕ → Option ℕ → Type 0
  IsIndex object_id index =
      (HasIndex object_id × (i : ℕ) × (index ≡ some i) × (i < num_objects))
      ⊎ (¬ HasIndex object_id × (index ≡ none))

  less_one :
      (object_id x : ℕ)
      → x
        ≡ bit_or
            (bit_or (E.byte object_id 0) (E.byte object_id 1 * 2 ^ 8))
            (E.byte object_id 2 * 2 ^ 16)
      → IsIndex object_id (elim x [ zero ↦ none | suc i ↦ some i ])
  less_one object_id zero h =
      inr (λ p. absurd (omega (arith, p, index_cases object_id zero h)), refl)
  less_one object_id (suc i) h = inl (
    omega (arith, index_cases object_id (suc i) h),
    i,
    refl,
    omega (arith, index_cases object_id (suc i) h),
  )

  -- The index of an object is below the length of `object_last_proxy` when one of the first three bytes
  -- of its id is not 0, and its computation panics when they are all 0.
  pub object_id_24bit_index-bound :
      (object_id : ℕ) → IsIndex object_id (object_id_24bit_index object_id)
  unfolding object_id_24bit_index
  object_id_24bit_index-bound object_id = less_one object_id _ refl
