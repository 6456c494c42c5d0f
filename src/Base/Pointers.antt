-- ===== src/Base/Pointers.antt =====
-- Lists of pointers: each into a heap of a given size, and none twice.
use Prim.Native.Nat.{ℕ, zero, suc, ◌+◌, ◌≤◌, ◌<◌}
use mathlib.Core.Path.{◌≡◌, refl, sym, ap, ◌∙◌}
use mathlib.Core.Logic.{inl, inr}
use mathlib.Core.Bool.{Bool, false, ◌||◌}
use mathlib.Core.List.{List, [], ◌∷◌, map}
use mathlib.Core.Option.{none, some}
use native.Mathlib.Omega.{arith}
use microservice_game_servic.Base.Tests.{nat_beq, nat_beq_iff, if◌then◌else◌, Bool-cases}
use microservice_game_servic.Base.Lists.{length}
use microservice_game_servic.Base.Equality.{Comparable, ==_refl}
use microservice_game_servic.Base.Map.{Map, lookup, Distinct, values}

abbrev pub elem : ℕ → List ℕ → Bool
elem a [] = false
elem a (x ∷ xs) = nat_beq x a || elem a xs

-- No pointer stands twice, and each points into the heap.
abbrev pub AllBelow : ℕ → List ℕ → Type 0
AllBelow n [] = Unit {0}
AllBelow n (x ∷ xs) = (x < n) × AllBelow n xs

abbrev pub Unrepeated : List ℕ → Type 0
Unrepeated [] = Unit {0}
Unrepeated (x ∷ xs) = (elem x xs ≡ false) × Unrepeated xs

pub AllBelow-grows : (n n' : ℕ) (rs : List ℕ) → n ≤ n' → AllBelow n rs → AllBelow n' rs
AllBelow-grows n n' [] l b = tt
AllBelow-grows n n' (r ∷ rs) l b = (omega (arith, b.0), AllBelow-grows n n' rs l b.1)

abbrev without : ℕ → List ℕ → List ℕ
without a [] = []
without a (x ∷ xs) = if nat_beq x a then xs else x ∷ without a xs

AllBelow-absent : (n : ℕ) (xs : List ℕ) → AllBelow (suc n) xs → elem n xs ≡ false → AllBelow n xs
AllBelow-absent n [] b a = tt
AllBelow-absent n (x ∷ xs) b a = (ground arith, AllBelow-absent n xs b.1 (ground arith))

elem-without : (a b : ℕ) (xs : List ℕ) → elem a xs ≡ false → elem a (without b xs) ≡ false
elem-without a b [] h = refl
elem-without a b (x ∷ xs) h = ground (arith, elem-without a b xs)

Unrepeated-without : (a : ℕ) (xs : List ℕ) → Unrepeated xs → Unrepeated (without a xs)
Unrepeated-without a [] h = tt
Unrepeated-without a (x ∷ xs) h =
    ground (arith, elem-without x a xs h.0, Unrepeated-without a xs h.1)

AllBelow-without :
    (n : ℕ) (xs : List ℕ) → Unrepeated xs → AllBelow (suc n) xs → AllBelow n (without n xs)
AllBelow-without n [] u b = tt
AllBelow-without n (x ∷ xs) u b = elim (Bool-cases (nat_beq x n)) [
  | inl e ↦
      let same : x ≡ n = (nat_beq_iff x n).0 e in
      rw e (AllBelow-absent n xs b.1 (ap (λ i. elem i xs) (sym same) ∙ u.0))
  | inr e ↦ rw e (ground arith, AllBelow-without n xs u.1 b.1)
]

length-without : (a : ℕ) (xs : List ℕ) → length xs ≤ length (without a xs) + 1
length-without a [] = omega arith
length-without a (x ∷ xs) = ground (arith, length-without a xs)

-- The pigeonhole principle.
pub length-le : (n : ℕ) (xs : List ℕ) → Unrepeated xs → AllBelow n xs → length xs ≤ n
length-le zero [] u b = omega arith
length-le zero (x ∷ xs) u b = absurd (omega (arith, b.0))
length-le (suc n) xs u b = omega (
  arith,
  length-without n xs,
  length-le n (without n xs) (Unrepeated-without n xs u) (AllBelow-without n xs u b),
)

-- A table in which each value points to something below `n` that knows its key has at most `n`
-- entries.
module _ {ℓ κ} {K : Type ℓ} {V : Type κ} ⦃e : Comparable K⦄ (owner : ℕ → K) (pointer : V → ℕ) where
  -- Each value of the table points to something that knows its key.
  abbrev pub Known : Map K V → Type (ℓ ⊔ κ)
  Known m = (j : K) (v : V) → lookup j m ≡ some v → owner (pointer v) ≡ j

  Known-tail : (j : K) (v : V) (m : Map K V) → Distinct ((j, v) ∷ m) → Known ((j, v) ∷ m) → Known m
  unfolding lookup
  Known-tail j v m d known i w here =
      known i w (ground (arith, e.equal_iff j i, ap (λ x. lookup x m), d.0))

  Known-head : (j : K) (v : V) (m : Map K V) → Known ((j, v) ∷ m) → owner (pointer v) ≡ j
  unfolding lookup
  Known-head j v m known = known j v (rw (==_refl j))

  elem-pointers :
      (k : K) (r : ℕ) (m : Map K V)
      → lookup k m ≡ none
      → Distinct m
      → Known m
      → owner r ≡ k
      → elem r (map pointer (values m)) ≡ false
  unfolding lookup
  elem-pointers k r [] fresh d known own = refl
  elem-pointers k r ((j, v) ∷ m) fresh d known own = ground (
    arith,
    nat_beq_iff (pointer v) r,
    e.equal_iff j k,
    Known-head j v m known,
    elem-pointers k r m,
    Known-tail j v m d known,
  )

  pointers-Unrepeated : (m : Map K V) → Distinct m → Known m → Unrepeated (map pointer (values m))
  pointers-Unrepeated [] d known = tt
  pointers-Unrepeated ((j, v) ∷ m) d known =
      let rest : Known m = Known-tail j v m d known in
      (
        elem-pointers j (pointer v) m d.0 d.1 rest (Known-head j v m known),
        pointers-Unrepeated m d.1 rest,
      )

  pointers-AllBelow :
      (n : ℕ) (m : Map K V)
      → Distinct m
      → ((j : K) (v : V) → lookup j m ≡ some v → pointer v < n)
      → AllBelow n (map pointer (values m))
  unfolding lookup
  pointers-AllBelow n [] d below = tt
  pointers-AllBelow n ((j, v) ∷ m) d below = (
    below j v (rw (==_refl j)),
    pointers-AllBelow n m d.1
        (λ i w here. below i w (ground (arith, e.equal_iff j i, ap (λ x. lookup x m), d.0))),
  )

  length-pointers : (m : Map K V) → length (map pointer (values m)) ≡ length m
  length-pointers [] = refl
  length-pointers (x ∷ m) = ap suc (length-pointers m)

  pub length-Known :
      (n : ℕ) (m : Map K V)
      → Distinct m
      → Known m
      → ((j : K) (v : V) → lookup j m ≡ some v → pointer v < n)
      → length m ≤ n
  length-Known n m d known below = omega (
    arith,
    length-pointers m,
    length-le n (map pointer (values m)) (pointers-Unrepeated m d known)
        (pointers-AllBelow n m d below),
  )
