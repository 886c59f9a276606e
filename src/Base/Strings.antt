-- ===== src/Base/Strings.antt =====
-- Go strings, as the lists of their bytes.
use df_ai.Base.Tests.{◌==◌}
use Prim.Native.Nat.{ℕ}
use mathlib.Core.Path.{◌≡◌, refl}
use mathlib.Core.Bool.{Bool, true, false, ◌&&◌, ◌||◌}
use mathlib.Core.List.{List, [], ◌∷◌}
use native.Mathlib.Omega.{arith}

abbrev pub String : Type 0
String = List ℕ

abbrev pub same : String → String → Bool
same [] [] = true
same (a ∷ s) (b ∷ t) = a == b && same s t
same s t = false

pub same_refl : (s : String) → same s s ≡ true
same_refl [] = refl
same_refl (a ∷ s) = ground (arith, same_refl s)

pub same_sound : (s t : String) → same s t ≡ true → s ≡ t
same_sound [] [] h = refl
same_sound (a ∷ s) (b ∷ t) h = grind (arith, same_sound s t)
same_sound [] (b ∷ t) h = cc
same_sound (a ∷ s) [] h = cc

abbrev pub is_listed : String → List String → Bool
is_listed s [] = false
is_listed s (t ∷ ts) = same s t || is_listed s ts
