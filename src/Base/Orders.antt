-- ===== src/Base/Orders.antt =====
-- Lists up to order: what a permutation of a list does to a selection.
use mathlib.Core.List.{Permᴰ}
use mathlib.Core.List.Permᴰ as Permᴰ
use mathlib.Core.Path.{refl}
use mathlib.Core.Logic.{inl, inr}
use mathlib.Core.Bool.{Bool}
use mathlib.Core.List.{List, ◌∷◌}
use microservice_game_servic.Base.Tests.{Bool-cases}
use microservice_game_servic.Base.Lists.{select}

pub select-Permᴰ {ℓ} :
    {A : Type ℓ} (test : A → Bool) {xs ys : List A}
    → Permᴰ xs ys
    → Permᴰ (select test xs) (select test ys)
select-Permᴰ test Permᴰ.nil = Permᴰ.nil
select-Permᴰ test (Permᴰ.cons {a} {b} {l₁} {l₂} e p) = rw e (elim (Bool-cases (test b)) [
  | inl kept ↦ rw kept (Permᴰ.cons refl (select-Permᴰ test p))
  | inr dropped ↦ rw dropped (select-Permᴰ test p)
])
select-Permᴰ test (Permᴰ.swap {a} {b} {a'} {b'} {l} e f) =
    rw (e, f)
      (elim (Bool-cases (test a')) [
        | inl kept ↦ elim (Bool-cases (test b')) [
          | inl too ↦ rw (kept, too) (Permᴰ.swap refl refl)
          | inr dropped ↦ rw (kept, dropped) (Permᴰ.refl (a' ∷ select test l))
        ]
        | inr dropped ↦ elim (Bool-cases (test b')) [
          | inl kept ↦ rw (dropped, kept) (Permᴰ.refl (b' ∷ select test l))
          | inr too ↦ rw (dropped, too) (Permᴰ.refl (select test l))
        ]
      ])
select-Permᴰ test (Permᴰ.trans p q) = Permᴰ.trans (select-Permᴰ test p) (select-Permᴰ test q)
