-- ===== src/Schedule/Search/Visited.antt =====
-- What one round of a search does to the set of visited nodes and to the stack.
use remora.Prelude.{
  count, ◌≤◌, ℕ, zero, suc, ◌+◌, ◌<◌, ◌≡◌, refl, List, [], ◌∷◌, true, false, ◌||◌, if◌then◌else◌,
  ltb, contains, nat_eq, ==_iff, arith, length,
}
use remora.Schedule.Search.{Search, push_new}

-- Whether a node is in a set, as a number.
abbrev pub mark : List ℕ → ℕ → ℕ
mark visited w = if contains visited w then 1 else 0

-- The nodes below `n` that are not visited.
abbrev pub unvisited : ℕ → List ℕ → ℕ
unvisited zero visited = 0
unvisited (suc n) visited = unvisited n visited + (if contains visited n then 0 else 1)

pub unvisited-insert :
    (n v : ℕ) (visited : List ℕ)
    → contains visited v ≡ false
    → unvisited n (v ∷ visited) + (if ltb v n then 1 else 0) ≡ unvisited n visited
unfolding contains
unvisited-insert zero v visited h = ground arith
unvisited-insert (suc n) v visited h = ground (arith, unvisited-insert n v visited h, ==_iff v n)

pub unvisited-le : (n : ℕ) (visited : List ℕ) → unvisited n visited ≤ n
unvisited-le zero visited = omega arith
unvisited-le (suc n) visited = ground (arith, unvisited-le n visited)

pub push_new-component :
    (s : Search) (vs : List ℕ) → (push_new s vs).component_nodes ≡ s.component_nodes
unfolding push_new
push_new-component s [] = refl
push_new-component s (v ∷ vs) = ground (
  arith,
  push_new-component s vs,
  push_new-component (record s { visited = v ∷ s.visited; stack = v ∷ s.stack }) vs,
)

pub visited-push_new :
    (s : Search) (vs : List ℕ) (w : ℕ)
    → contains (push_new s vs).visited w ≡ (contains s.visited w || contains vs w)
unfolding push_new contains
visited-push_new s [] w = ground arith
visited-push_new s (v ∷ vs) w = ground (
  arith,
  ==_iff v w,
  visited-push_new s vs w,
  visited-push_new (record s { visited = v ∷ s.visited; stack = v ∷ s.stack }) vs w,
)

-- What becomes visited is what is pushed.
pub stack-push_new :
    (s : Search) (vs : List ℕ) (w : ℕ)
    → count (push_new s vs).stack w + mark s.visited w
      ≡ count s.stack w + mark (push_new s vs).visited w
unfolding push_new contains
stack-push_new s [] w = refl
stack-push_new s (v ∷ vs) w = ground (
  arith,
  ==_iff v w,
  stack-push_new s vs w,
  stack-push_new (record s { visited = v ∷ s.visited; stack = v ∷ s.stack }) vs w,
)

-- The nodes that are not visited or wait on the stack: as many after the `for` loop as before.
abbrev pub work : ℕ → Search → ℕ
work n s = unvisited n s.visited + length s.stack

pub work-push_new :
    (n : ℕ) (s : Search) (vs : List ℕ)
    → ((v : ℕ) → contains vs v ≡ true → v < n)
    → work n (push_new s vs) ≡ work n s
unfolding push_new contains
work-push_new n s [] h = refl
work-push_new n s (v ∷ vs) h = ground (
  arith,
  unvisited-insert n v s.visited,
  h v (ground (arith, ==_iff v v)),
  work-push_new n s vs (λ w m. h w (ground arith)),
  work-push_new n (record s { visited = v ∷ s.visited; stack = v ∷ s.stack }) vs
      (λ w m. h w (ground arith)),
)
