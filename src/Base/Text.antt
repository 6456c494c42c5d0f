-- ===== src/Base/Text.antt =====
-- Quoted text as the bytes of a Go string. The program's own texts are ASCII.
use Prim.Native.Char.{code}
use Prim.Native.String.{String}
use mathlib.Core.List.{[], ◌∷◌}
use microservice_game_servic.Base.Equality.{Bytes}

abbrev pub ascii : String → Bytes
ascii String.[] = []
ascii (String.◌∷◌ letter rest) = code letter ∷ ascii rest
