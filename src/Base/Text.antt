-- ===== src/Base/Text.antt =====
-- Texts as lists of code points: the searches of the source, `/word/i.test(s)` and `startsWith`.
use Prim.Native.Char.{code}
use Prim.Native.String.{String}
use Prim.Native.Nat.{ℕ, zero, suc, ◌+◌}
use mathlib.Core.Bool.{Bool, true, false, ◌&&◌, ◌||◌}
use mathlib.Core.List.{List, [], ◌∷◌, map}
use sentinel_soroban_v.Base.Tests.{leb, ◌==◌, if◌then◌else◌}

abbrev pub codes : String → List ℕ
codes String.[] = []
codes (String.◌∷◌ c s) = code c ∷ codes s

unfoldable pub to_lower : ℕ → ℕ
to_lower c = if leb b'A' c && leb c b'Z' then c + 32 else c

unfoldable pub is_prefix : List ℕ → List ℕ → Bool
is_prefix [] ys = true
is_prefix (x ∷ xs) [] = false
is_prefix (x ∷ xs) (y ∷ ys) = x == y && is_prefix xs ys

unfoldable pub occurs : List ℕ → List ℕ → Bool
unfolding is_prefix
occurs word [] = is_prefix word []
occurs word (y ∷ ys) = is_prefix word (y ∷ ys) || occurs word ys

-- `/word/i.test(s)`, for a `word` in lower case
unfoldable pub mentions : String → String → Bool
unfolding occurs to_lower
mentions word s = occurs (codes word) (map to_lower (codes s))

unfoldable pub starts_with : String → String → Bool
unfolding is_prefix
starts_with s head = is_prefix (codes head) (codes s)

-- `s.slice(n)`
unfoldable pub drop_text : ℕ → String → String
drop_text zero s = s
drop_text (suc n) String.[] = String.[]
drop_text (suc n) (String.◌∷◌ c s) = drop_text n s
