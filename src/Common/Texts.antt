-- ===== src/Common/Texts.antt =====
-- Texts as UTF-16 code units: equality, literals, and the parts of the language's string methods that the
-- program uses. Letters are changed in case as in ASCII.
use Prim.Native.Char.{code}
use Prim.Native.String.{String}
use Prim.Native.Nat.{ℕ, ◌+◌, ◌-◌}
use mathlib.Core.Path.{◌≡◌, refl}
use mathlib.Core.Bool.{Bool, true, false, ◌&&◌, ◌||◌}
use mathlib.Core.List.{List, [], ◌∷◌, map}
use native.Mathlib.Omega.{arith}
use v2_backend.Common.Tests.{leb, ◌==◌, any, if◌then◌else◌, includes}

abbrev pub Text : Type 0
Text = List ℕ

-- A text literal.
abbrev pub codes : String → Text
codes String.[] = []
codes (String.◌∷◌ c s) = code c ∷ codes s

abbrev pub same_text : Text → Text → Bool
same_text [] [] = true
same_text (c ∷ s) (d ∷ t) = (c == d) && same_text s t
same_text _ _ = false

pub same_text-eq : (s t : Text) → same_text s t ≡ true → s ≡ t
same_text-eq [] [] h = refl
same_text-eq [] (d ∷ t) h = ground arith
same_text-eq (c ∷ s) [] h = ground arith
same_text-eq (c ∷ s) (d ∷ t) h = ground (arith, same_text-eq s t)

pub same_text_refl : (s : Text) → same_text s s ≡ true
same_text_refl [] = refl
same_text_refl (c ∷ s) = ground (arith, same_text_refl s)

abbrev pub has_text : Text → List Text → Bool
has_text t l = any (same_text t) l

abbrev pub is_digit : ℕ → Bool
is_digit c = leb b'0' c && leb c b'9'

-- What `trim` removes.
abbrev pub is_space : ℕ → Bool
is_space c =
    (leb 9 c && leb c 13)
    || includes c (32 ∷ 160 ∷ 5760 ∷ 8232 ∷ 8233 ∷ 8239 ∷ 8287 ∷ 12288 ∷ 65279 ∷ [])
    || (leb 8192 c && leb c 8202)

-- `trimStart`, and `trim` by it at both ends.
unfoldable pub trim_start : Text → Text
trim_start [] = []
trim_start (c ∷ t) = let shorter = trim_start t in if is_space c then shorter else c ∷ t

unfoldable pub reversed : Text → Text → Text
reversed [] acc = acc
reversed (c ∷ t) acc = reversed t (c ∷ acc)

unfoldable pub trim : Text → Text
unfolding trim_start reversed
trim t = reversed (trim_start (reversed (trim_start t) [])) []

abbrev pub upper_code : ℕ → ℕ
upper_code c = if leb b'a' c && leb c b'z' then c - 32 else c

abbrev pub lower_code : ℕ → ℕ
lower_code c = if leb b'A' c && leb c b'Z' then c + 32 else c

unfoldable pub upper : Text → Text
upper t = map upper_code t

unfoldable pub lower : Text → Text
lower t = map lower_code t
