-- ===== src/Common/Words.antt =====
-- Python's `split` and `join`, `in`, `startswith` and `len` on texts.
use Prim.Native.Nat.{ℕ, zero, suc, ◌+◌, ◌≤◌}
use Prim.Native.Char.{code}
use Prim.Native.String.{String, [], ◌∷◌}
use mathlib.Core.Bool.{Bool, true, false, ◌&&◌, ◌||◌}
use mathlib.Core.Path.{◌≡◌}
use mathlib.Core.List.{List, [], ◌∷◌}
use native.Mathlib.Omega.{arith}
use teleagent_collab.Common.Equality.{◌==◌, nat_eq, if◌then◌else◌}
use teleagent_collab.Common.Text.{is_space, strip_right, str_take, append}

-- `len(s)`
unfoldable pub str_length : String → ℕ
str_length [] = 0
str_length (c ∷ s) = suc (str_length s)

-- `s.startswith(t)`
unfoldable pub has_prefix : String → String → Bool
has_prefix s [] = true
has_prefix [] (d ∷ t) = false
has_prefix (c ∷ s) (d ∷ t) = code c == code d && has_prefix s t

abbrev is_blank : String → Bool
is_blank [] = true
is_blank (_ ∷ _) = false

same_text : String → String → Bool
unfolding has_prefix
same_text s t = has_prefix s t && has_prefix t s

-- `t in s`
unfoldable pub occurs : String → String → Bool
unfolding has_prefix
occurs t [] = has_prefix [] t
occurs t (c ∷ s) = has_prefix (c ∷ s) t || occurs t s

-- The rest of a text, after a word or at the start, and after a gap or not
collapse_from : (started gap : Bool) → String → String
collapse_from started gap [] = []
collapse_from started gap (c ∷ s) =
    let skip = collapse_from started true s in
    let taken : String = c ∷ collapse_from true false s in
    let apart : String = " " in
    if is_space c then skip else if started && gap then append apart taken else taken

-- `" ".join(s.split())`
unfoldable pub collapse : String → String
unfolding collapse_from
collapse s = collapse_from false false s

-- `sep.join(texts)`
unfoldable pub join : String → List String → String
join sep [] = ""
join sep (s ∷ rest) =
    let more = join sep rest in elim rest [ [] ↦ s | _ ↦ append s (append sep more) ]

-- `s[n:]`
unfoldable pub str_drop : ℕ → String → String
str_drop zero s = s
str_drop (suc n) [] = []
str_drop (suc n) (c ∷ s) = str_drop n s

-- `s.endswith(t)`
unfoldable pub ends_with : String → String → Bool
unfolding same_text
ends_with [] t = is_blank t
ends_with (c ∷ s) t = same_text (c ∷ s) t || ends_with s t

-- `s.rstrip(".")`
unfoldable pub strip_dots : String → String
strip_dots [] = []
strip_dots (c ∷ s) =
    let rest = strip_dots s in if code c == 46 && is_blank rest then [] else c ∷ rest

pub str_length-append : (s t : String) → str_length (append s t) ≡ str_length s + str_length t
unfolding str_length append
str_length-append [] t = omega arith
str_length-append (c ∷ s) t = ground (arith, str_length-append s t)

pub str_length-take_le : (n : ℕ) (s : String) → str_length (str_take n s) ≤ n
unfolding str_length str_take
str_length-take_le zero s = omega arith
str_length-take_le (suc n) [] = omega arith
str_length-take_le (suc n) (c ∷ s) = omega (arith, str_length-take_le n s)

pub str_length-strip_le : (s : String) → str_length (strip_right s) ≤ str_length s
unfolding str_length strip_right
str_length-strip_le [] = omega arith
str_length-strip_le (c ∷ s) = ground (arith, str_length-strip_le s)
