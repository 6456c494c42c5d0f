-- ===== src/Base/Map.antt =====
-- Go's maps as association lists. Go leaves the order of an iteration open; here it is the order
-- of the list.
use mathlib.Core.Path.{◌≡◌, refl, sym, ap, ◌∙◌}
use mathlib.Core.Logic.{inl, inr}
use mathlib.Core.Bool.{Bool, true, false}
use mathlib.Core.List.{List, [], ◌∷◌, map, Memᴰ}
use mathlib.Core.Option.{Option, none, some}
use mathlib.Core.Option
use native.Mathlib.Omega.{arith}
use microservice_game_servic.Base.Tests.{if◌then◌else◌, Bool-cases}
use microservice_game_servic.Base.Lists.{select}
use microservice_game_servic.Base.Equality.{Comparable, ◌==◌}

abbrev pub Map {ℓ κ} : Type ℓ → Type κ → Type (ℓ ⊔ κ)
Map K V = List (K × V)

module _ {ℓ κ} {K : Type ℓ} {V : Type κ} ⦃e : Comparable K⦄ where
  unfoldable pub lookup : K → Map K V → Option V
  lookup k [] = none
  lookup k ((key, value) ∷ rest) = if key == k then some value else lookup k rest

  unfoldable pub insert : K → V → Map K V → Map K V
  insert k v [] = (k, v) ∷ []
  insert k v ((key, old) ∷ rest) = if key == k then (k, v) ∷ rest else (key, old) ∷ insert k v rest

  unfoldable pub erase : K → Map K V → Map K V
  erase k [] = []
  erase k ((j, w) ∷ m) = let rest = erase k m in if j == k then rest else (j, w) ∷ rest

  -- `_, ok := m[k]`
  abbrev pub has_key : K → Map K V → Bool
  has_key k m = elim (lookup k m) [ none ↦ false | some _ ↦ true ]

  abbrev pub Fresh : K → Map K V → Type κ
  Fresh k m = lookup k m ≡ none

  -- No key stands twice.
  abbrev pub Distinct : Map K V → Type κ
  Distinct [] = Unit
  Distinct ((k, v) ∷ m) = Fresh k m × Distinct m

module _ {ℓ κ} {K : Type ℓ} {V : Type κ} ⦃e : Comparable K⦄ where
  pub lookup-insert :
      (k j : K) (v : V) (m : Map K V)
      → lookup j (insert k v m) ≡ (if k == j then some v else lookup j m)
  unfolding lookup insert
  lookup-insert k j v [] = refl
  lookup-insert k j v ((key, old) ∷ rest) =
      ground
        (arith, lookup-insert k j v rest, e.equal_iff key k, e.equal_iff key j, e.equal_iff k j)

  pub lookup-erase :
      (k j : K) (m : Map K V) → lookup j (erase k m) ≡ (if k == j then none else lookup j m)
  unfolding lookup erase
  lookup-erase k j [] = ground arith
  lookup-erase k j ((i, w) ∷ m) =
      ground (arith, e.equal_iff k j, e.equal_iff i k, e.equal_iff i j, lookup-erase k j m)

  pub insert-Distinct : (k : K) (v : V) (m : Map K V) → Distinct m → Distinct (insert k v m)
  unfolding insert lookup
  insert-Distinct k v [] d = (refl, tt)
  insert-Distinct k v ((j, w) ∷ m) d =
      ground
        (arith, e.equal_iff j k, e.equal_iff k j, lookup-insert k j v m, insert-Distinct k v m d.1)

  pub erase-Distinct : (k : K) (m : Map K V) → Distinct m → Distinct (erase k m)
  unfolding erase
  erase-Distinct k [] d = tt
  erase-Distinct k ((j, w) ∷ m) d = ground (arith, lookup-erase k j m, erase-Distinct k m d.1)

module _ {ℓ κ} {K : Type ℓ} {V : Type κ} where
  abbrev pub values : Map K V → List V
  values = map (λ e. e.1)

  -- A change of every value under its key.
  abbrev pub map_values : (V → V) → Map K V → Map K V
  map_values f = map (λ e. (e.0, f e.1))

  pub select-map_values :
      (f : V → V) (test : V → Bool) (m : Map K V)
      → ((v : V) → test (f v) ≡ false)
      → select test (values (map_values f m)) ≡ []
  select-map_values f test [] h = refl
  select-map_values f test ((k, v) ∷ m) h = rw (h v) (select-map_values f test m h)

module _ {ℓ κ} {K : Type ℓ} {V : Type κ} ⦃e : Comparable K⦄ where
  pub lookup-map_values :
      (f : V → V) (k : K) (m : Map K V) → lookup k (map_values f m) ≡ Option.map f (lookup k m)
  unfolding lookup
  lookup-map_values f k [] = refl
  lookup-map_values f k ((j, v) ∷ m) = ground (arith, lookup-map_values f k m)

  pub map_values-Distinct : (f : V → V) (m : Map K V) → Distinct m → Distinct (map_values f m)
  map_values-Distinct f [] d = tt
  map_values-Distinct f ((k, v) ∷ m) d =
      (rw (lookup-map_values f k m, d.0), map_values-Distinct f m d.1)

  -- A value that a key holds is selected if it passes the test.
  pub select-lookup :
      (test : V → Bool) (k : K) (v : V) (m : Map K V)
      → lookup k m ≡ some v
      → test v ≡ true
      → Memᴰ v (select test (values m))
  unfolding lookup
  select-lookup test k v [] h t = cc
  select-lookup test k v ((j, w) ∷ m) h t = elim (Bool-cases (j == k)) [
    | inl here ↦
        let found : some w ≡ some v = rw here at h in
        let same : v ≡ w = cc in rw (ap test (sym same) ∙ t) (Memᴰ.head same)
    | inr there ↦ elim (Bool-cases (test w)) [
      | inl y ↦ rw y (Memᴰ.tail (select-lookup test k v m (rw there at h) t))
      | inr n ↦ rw n (select-lookup test k v m (rw there at h) t)
    ]
  ]

pub Memᴰ-map {ℓ κ} :
    {A : Type ℓ} {B : Type κ} (f : A → B) {a : A} {xs : List A} → Memᴰ a xs → Memᴰ (f a) (map f xs)
Memᴰ-map f (Memᴰ.head e) = Memᴰ.head (ap f e)
Memᴰ-map f (Memᴰ.tail m) = Memᴰ.tail (Memᴰ-map f m)
