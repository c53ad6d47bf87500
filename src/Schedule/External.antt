-- ===== src/Schedule/External.antt =====
-- What `PreConsensusSchedTask` uses of other code: floating-point arithmetic, the random numbers of
-- fastrand and the bytes of an object id.
use remora.Prelude.{◌^◌, ℕ, ◌<◌, Bool}

pub record External : Type 1 where
  pub Float : Type 0
  pub of_usize : ℕ → Float
  pub zero_f : Float
  pub one_f : Float
  pub half : Float
  pub epsilon : Float
  pub add : Float → Float → Float
  pub sub : Float → Float → Float
  pub mul : Float → Float → Float
  pub div : Float → Float → Float
  pub max_f : Float → Float → Float
  pub abs : Float → Float
  pub lt_f : Float → Float → Bool
  pub Seed : Type 0
  pub usize : Seed → ℕ → ℕ × Seed
  pub byte : ℕ → ℕ → ℕ

-- `fastrand::usize(..n)` is below a positive n, and a byte is below 2 ^ 8.
pub record ExternalLaws (E : External) : Type 0 where
  pub usize_lt : (seed : E.Seed) (n : ℕ) → 0 < n → (E.usize seed n).0 < n
  pub byte_lt : (object_id i : ℕ) → E.byte object_id i < 2 ^ 8
