-- ===== src/Prelude/Eq.antt =====
-- Keys that the program compares: object ids, digests and proxy ids are numbers, and a versioned
-- object is a pair of them.
use Prim.Native.Nat.{ℕ}
use mathlib.Core.Path.{◌≡◌, refl}
use mathlib.Core.Logic.{◌↔◌, ◌≢◌}
use mathlib.Core.Bool.{Bool, true, false, ◌&&◌}
use native.Mathlib.Omega.{arith}
use remora.Prelude.Tests.{nat_beq, nat_beq_iff}

pub record EqKey {ℓ} (A : Type ℓ) : Type ℓ where
  pub same : A → A → Bool
  pub same_iff : (a b : A) → (same a b ≡ true) ↔ (a ≡ b)

abbrev pub ◌==◌ {ℓ} : {A : Type ℓ} ⦃keys : EqKey A⦄ → A → A → Bool
◌==◌ ⦃keys⦄ a b = keys.same a b

infix 50 ◌==◌
instance abbrev pub nat_eq : EqKey ℕ
nat_eq = record { same_iff = nat_beq_iff; same = nat_beq }

abbrev pub pair_beq : ℕ × ℕ → ℕ × ℕ → Bool
pair_beq p q = nat_beq p.0 q.0 && nat_beq p.1 q.1

pub pair_beq_iff : (p q : ℕ × ℕ) → (pair_beq p q ≡ true) ↔ (p ≡ q)
pair_beq_iff (a, b) (c, d) = ground (arith, nat_beq_iff a c, nat_beq_iff b d)

instance abbrev pub pair_eq : EqKey (ℕ × ℕ)
pair_eq = record { same_iff = pair_beq_iff; same = pair_beq }

module _ {ℓ} {A : Type ℓ} ⦃e : EqKey A⦄ where
  pub ==_iff : (a b : A) → ((a == b) ≡ true) ↔ (a ≡ b)
  ==_iff = e.same_iff

  pub ==_refl : (a : A) → (a == a) ≡ true
  ==_refl a = (e.same_iff a a).1 refl

  pub ==_ne : (a b : A) → a ≢ b → (a == b) ≡ false
  ==_ne a b h = ground (arith, e.same_iff a b)
