-- ===== src/Common/Text.antt =====
-- Python's `str.strip` and `str.lower`. White space is the set of `str.isspace`. Lower case is exact
-- on ASCII and on U+212A, the one other character whose lower case is an ASCII letter; any other
-- character stands for itself, which no comparison with an ASCII word can tell apart.
use Prim.Native.Nat.{ℕ, zero, suc, ◌-◌}
use Prim.Native.Char.{Char, code}
use Prim.Native.String.{String, [], ◌∷◌, char_at}
use mathlib.Core.Bool.{Bool, true, false, ◌&&◌, ◌||◌}
use mathlib.Core.Path.{◌≡◌, refl}
use native.Mathlib.Decide.{ℕ_discrete}
use teleagent_collab.Common.Equality.{leb, ◌==◌, nat_eq, if◌then◌else◌}

unfoldable pub is_space : Char → Bool
is_space c =
    let n = code c in
    (leb 9 n && leb n 13)
    || (leb 28 n && leb n 32)
    || n == 133
    || n == 160
    || n == 5760
    || (leb 8192 n && leb n 8202)
    || n == 8232
    || n == 8233
    || n == 8239
    || n == 8287
    || n == 12288

strip_left : String → String
unfolding is_space ℕ_discrete
strip_left [] = []
strip_left (c ∷ s) = let rest = strip_left s in if is_space c then rest else c ∷ s

abbrev is_empty : String → Bool
is_empty [] = true
is_empty (_ ∷ _) = false

unfoldable pub strip_right : String → String
unfolding is_space ℕ_discrete
strip_right [] = []
strip_right (c ∷ s) =
    let rest = strip_right s in if is_space c && is_empty rest then [] else c ∷ rest

unfoldable pub strip : String → String
unfolding strip_left strip_right
strip s = strip_right (strip_left s)

lower_char : Char → Char
lower_char c =
    let n = code c in
    if leb 65 n && leb n 90
    then char_at "abcdefghijklmnopqrstuvwxyz" (n - 65)
    else if n == 8490
    then "k"
    else c

unfoldable pub lower : String → String
unfolding lower_char ℕ_discrete
lower [] = []
lower (c ∷ s) = lower_char c ∷ lower s

-- `bool(s)`
abbrev pub non_empty : String → Bool
non_empty [] = false
non_empty (_ ∷ _) = true

-- `s or t`
abbrev pub str_or : String → String → String
str_or [] t = t
str_or (c ∷ s) t = c ∷ s

-- `s[:n]`
unfoldable pub str_take : ℕ → String → String
str_take zero s = []
str_take (suc n) [] = []
str_take (suc n) (c ∷ s) = c ∷ str_take n s

-- `s + t` on texts; `++` is that of lists.
unfoldable pub append : String → String → String
append [] t = t
append (c ∷ s) t = c ∷ append s t

pub str_or_idem : (s t : String) → str_or (str_or s t) t ≡ str_or s t
str_or_idem [] [] = refl
str_or_idem [] (c ∷ t) = refl
str_or_idem (c ∷ s) t = refl
