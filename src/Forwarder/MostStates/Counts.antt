-- ===== src/Forwarder/MostStates/Counts.antt =====
-- The counts that the first loop makes, against a count for each proxy by itself.
use remora.Prelude.{
  inr, ◌≤◌, Bool-cases, inl, ◌⊎◌, ◌∙◌, ap, ℕ, zero, suc, ◌+◌, ◌≡◌, ◌<◌, refl, List, [], ◌∷◌, Option,
  none, some, if◌then◌else◌, ltb, ◌==◌, nat_eq, pair_eq, arith, Map, get, length,
}
use remora.Forwarder.MostStates.{zeros, increment, count_state, count_states}

-- Whether a proxy hosts a version, as a number.
abbrev pub hosts : Option ℕ → ℕ → ℕ
hosts none p = 0
hosts (some q) p = if q == p then 1 else 0

-- How many of the required versions a proxy hosts.
unfoldable pub hosted : Map (ℕ × ℕ) ℕ → List (ℕ × ℕ) → ℕ → ℕ
hosted states [] p = 0
hosted states (k ∷ required) p = hosts (get states k) p + hosted states required p

-- The list holds the values of a function from an index on.
abbrev pub Values : (ℕ → ℕ) → ℕ → List ℕ → Type 0
Values f i [] = Unit {0}
Values f i (c ∷ cs) = (c ≡ f i) × Values f (i + 1) cs

zeros-Values : (n i : ℕ) → Values (λ p. 0) i (zeros n)
unfolding zeros
zeros-Values zero i = tt
zeros-Values (suc n) i = (refl, zeros-Values n (i + 1))

pub length-zeros : (n : ℕ) → length (zeros n) ≡ n
unfolding zeros
length-zeros zero = refl
length-zeros (suc n) = ap suc (length-zeros n)

length-increment : (cs : List ℕ) (i : ℕ) → length (increment cs i) ≡ length cs
unfolding increment
length-increment [] i = refl
length-increment (c ∷ cs) zero = refl
length-increment (c ∷ cs) (suc i) = ap suc (length-increment cs i)

length-count_state : (n : ℕ) (cs : List ℕ) (o : Option ℕ) → length (count_state n cs o) ≡ length cs
length-count_state n cs none = refl
length-count_state n cs (some q) = ground (arith, length-increment cs q)

Values-ext :
    (f g : ℕ → ℕ) (i : ℕ) (cs : List ℕ) → ((p : ℕ) → f p ≡ g p) → Values f i cs → Values g i cs
Values-ext f g i [] e h = tt
Values-ext f g i (c ∷ cs) e h = (h.0 ∙ e i, Values-ext f g (i + 1) cs e h.1)

-- An index outside the list adds nothing.
Values-outside :
    (f : ℕ → ℕ) (i b : ℕ) (cs : List ℕ)
    → (b < i) ⊎ (i + length cs ≤ b)
    → Values f i cs
    → Values (λ p. f p + hosts (some b) p) i cs
Values-outside f i b [] o h = tt
Values-outside f i b (c ∷ cs) o h = (ground arith, Values-outside f (i + 1) b cs (grind arith) h.1)

increment-Values :
    (f : ℕ → ℕ) (i j b : ℕ) (cs : List ℕ)
    → i + j ≡ b
    → j < length cs
    → Values f i cs
    → Values (λ p. f p + hosts (some b) p) i (increment cs j)
unfolding increment
increment-Values f i j b [] e lt h = tt
increment-Values f i zero b (c ∷ cs) e lt h =
    (ground arith, Values-outside f (i + 1) b cs (inl (omega arith)) h.1)
increment-Values f i (suc j) b (c ∷ cs) e lt h =
    (ground arith, increment-Values f (i + 1) j b cs (omega arith) (omega arith) h.1)

count_state-Values :
    (f : ℕ → ℕ) (n : ℕ) (cs : List ℕ) (o : Option ℕ)
    → length cs ≡ n
    → Values f 0 cs
    → Values (λ p. f p + hosts o p) 0 (count_state n cs o)
count_state-Values f n cs none e h = Values-ext f (λ p. f p + 0) 0 cs (λ p. omega arith) h
count_state-Values f n cs (some q) e h = elim (Bool-cases (ltb q n)) [
  | inl inside ↦ rw inside (increment-Values f 0 q q cs (omega arith) (ground arith) h)
  | inr outside ↦ rw outside (Values-outside f 0 q cs (inr (ground arith)) h)
]

count_states-Values :
    (f : ℕ → ℕ) (states : Map (ℕ × ℕ) ℕ) (n : ℕ) (cs : List ℕ) (required : List (ℕ × ℕ))
    → length cs ≡ n
    → Values f 0 cs
    → Values (λ p. f p + hosted states required p) 0 (count_states states n cs required)
unfolding count_states hosted
count_states-Values f states n cs [] e h = Values-ext f (λ p. f p + 0) 0 cs (λ p. omega arith) h
count_states-Values f states n cs (k ∷ required) e h =
    Values-ext (λ p. f p + hosts (get states k) p + hosted states required p) _ 0 _
      (λ p. omega arith)
      (count_states-Values (λ p. f p + hosts (get states k) p) states n
        (count_state n cs (get states k)) required (length-count_state n cs (get states k) ∙ e)
        (count_state-Values f n cs (get states k) e h))

length-count_states :
    (states : Map (ℕ × ℕ) ℕ) (n : ℕ) (cs : List ℕ) (required : List (ℕ × ℕ))
    → length (count_states states n cs required) ≡ length cs
unfolding count_states
length-count_states states n cs [] = refl
length-count_states states n cs (k ∷ required) =
    length-count_states states n (count_state n cs (get states k)) required
    ∙ length-count_state n cs (get states k)

-- Each proxy's count is the number of required versions that it hosts.
pub counts-Values :
    (states : Map (ℕ × ℕ) ℕ) (n : ℕ) (required : List (ℕ × ℕ))
    → Values (hosted states required) 0 (count_states states n (zeros n) required)
      × (length (count_states states n (zeros n) required) ≡ n)
counts-Values states n required = (
  Values-ext _ (hosted states required) 0 _ (λ p. omega arith)
      (count_states-Values (λ p. 0) states n (zeros n) required (length-zeros n)
        (zeros-Values n 0)),
  length-count_states states n (zeros n) required ∙ length-zeros n,
)
