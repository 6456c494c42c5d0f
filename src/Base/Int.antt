-- ===== src/Base/Int.antt =====
-- Go's int32 as an integer, and its conversion to and from uint32.
use Prim.Native.Nat.{ℕ, suc, ◌-◌, ◌^◌, ◌<◌}
use mathlib.Core.Path.{◌≡◌}
use mathlib.Core.Logic.{◌↔◌}
use mathlib.Core.Bool.{Bool, true, false}
use native.Mathlib.Omega.{arith}
use microservice_game_servic.Base.Tests.{ltb, nat_beq, if◌then◌else◌}
use microservice_game_servic.Base.Equality.{Comparable}

-- `negsuc n` is -(n + 1).
pub data ℤ : Type 0 where
  pos : ℕ → ℤ
  negsuc : ℕ → ℤ

abbrev pub int_beq : ℤ → ℤ → Bool
int_beq (pos a) (pos b) = nat_beq a b
int_beq (pos a) (negsuc b) = false
int_beq (negsuc a) (pos b) = false
int_beq (negsuc a) (negsuc b) = nat_beq a b

pub int_beq_iff : (a b : ℤ) → (int_beq a b ≡ true) ↔ (a ≡ b)
int_beq_iff (pos a) (pos b) = ground arith
int_beq_iff (pos a) (negsuc b) = ground arith
int_beq_iff (negsuc a) (pos b) = ground arith
int_beq_iff (negsuc a) (negsuc b) = ground arith

instance abbrev pub int_comparable : Comparable ℤ
int_comparable = record { equal = int_beq; equal_iff = int_beq_iff }

-- The values of an int32.
abbrev pub IsInt32 : ℤ → Type 0
IsInt32 (pos n) = n < 2 ^ 31
IsInt32 (negsuc n) = n < 2 ^ 31

-- Go's `uint32(v)` and `int32(w)`: the same 32 bits.
abbrev pub to_uint32 : ℤ → ℕ
to_uint32 (pos n) = n
to_uint32 (negsuc n) = 2 ^ 32 - suc n

abbrev pub of_uint32 : ℕ → ℤ
of_uint32 w = if ltb w (2 ^ 31) then pos w else negsuc (2 ^ 32 - w - 1)

pub to_uint32-lt : (v : ℤ) → IsInt32 v → to_uint32 v < 2 ^ 32
to_uint32-lt (pos n) h = omega arith
to_uint32-lt (negsuc n) h = omega arith

pub of_uint32-to_uint32 : (v : ℤ) → IsInt32 v → of_uint32 (to_uint32 v) ≡ v
of_uint32-to_uint32 (pos n) h = ground arith
of_uint32-to_uint32 (negsuc n) h = ground arith
