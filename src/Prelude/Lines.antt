-- ===== src/Prelude/Lines.antt =====
-- Python's texts by lines and words: `readlines`, `split`, `join_words`, and the digits of a pattern.
use Prim.Native.Char.{Char, code}
use Prim.Native.String
use Prim.Native.String.{String, [], ◌∷◌}
use mathlib.Core.List.{List}
use text.Mathlib.Text.{◌==◌}
use mathlib.Core.Path.{◌≡◌, refl, sym, ap, ◌∙◌}
use mathlib.Core.Bool.{Bool, true, false, cond, ◌||◌}
use mathlib.Core.Logic.{inl, inr}
use text.Mathlib.TextEquality.{eq_iff}
use mathlib.Core.Option.{Option, none, some}
use text.Mathlib.TextLemmas.{nil-append, append-nil, cons-append}
use native.Mathlib.Omega.{arith}
use aws_iprotate_python.Prelude.{Bool-cases}
use aws_iprotate_python.Prelude.Text.Split.{push-append}
use aws_iprotate_python.Prelude.Text.{is_space, is, push, strip, lstrip, rstrip, digit_value}

abbrev pub space : Char
space = " "

abbrev newline : Char
newline = "\n"

lines_from : String → String → List String
lines_from cur [] = cond (cur == "") List.[] (List.◌∷◌ cur List.[])
lines_from cur (c ∷ s) = elim (is (code c) 10) [
  | true ↦ List.◌∷◌ (push cur c) (lines_from "" s)
  | false ↦ lines_from (push cur c) s
]

-- `file.readlines()`, of a text whose lines end in line feeds
unfoldable pub readlines : String → List String
unfolding lines_from
readlines s = lines_from "" s

-- what `file.writelines(lines)` leaves in the file
unfoldable pub writelines : List String → String
writelines List.[] = ""
writelines (List.◌∷◌ l ls) = String.◌++◌ l (writelines ls)

writelines-lines_from : (s cur : String) → writelines (lines_from cur s) ≡ String.◌++◌ cur s
unfolding writelines lines_from
writelines-lines_from [] cur = rw append-nil (elim (Bool-cases (cur == "")) [
  | inl e ↦ rw e (sym ((eq_iff cur "").0 e))
  | inr e ↦ rw e (append-nil cur)
])
writelines-lines_from (c ∷ s) cur = elim (Bool-cases (is (code c) 10)) [
  | inl e ↦
      rw (e, lines_from, writelines)
        (ap (String.◌++◌ (push cur c)) (writelines-lines_from s "" ∙ nil-append s)
          ∙ push-append cur s c)
  | inr e ↦ rw (e, lines_from) (writelines-lines_from s (push cur c) ∙ push-append cur s c)
]

pub writelines-readlines : (s : String) → writelines (readlines s) ≡ s
unfolding readlines
writelines-readlines s = writelines-lines_from s "" ∙ nil-append s

-- `s.split(' ', 1)[1]`, if there is a space
unfoldable pub after_space : String → Option String
after_space [] = none
after_space (c ∷ s) = elim (is (code c) 32) [ true ↦ some s | false ↦ after_space s ]

-- a text without a space
unfoldable pub has_space : String → Bool
has_space [] = false
has_space (c ∷ s) = is (code c) 32 || has_space s

pub after_space-append :
    (key s : String)
    → has_space key ≡ false
    → after_space (String.◌++◌ key (String.◌++◌ " " s)) ≡ some s
unfolding after_space has_space
after_space-append [] s h = rw nil-append (rw cons-append (rw nil-append refl))
after_space-append (c ∷ key) s h =
    rw (cons-append c key (String.◌++◌ " " s)) (ground (arith, after_space-append key s))

words_from : String → String → List String
words_from cur [] = cond (cur == "") List.[] (List.◌∷◌ cur List.[])
words_from cur (c ∷ s) = elim (is_space c) [
  | true ↦ let rest = words_from "" s in cond (cur == "") rest (List.◌∷◌ cur rest)
  | false ↦ words_from (push cur c) s
]

-- `s.split()`
unfoldable pub words : String → List String
unfolding words_from
words s = words_from "" s

-- `' '.join(parts)`
unfoldable pub join_words : List String → String
join_words List.[] = ""
join_words (List.◌∷◌ w List.[]) = w
join_words (List.◌∷◌ w (List.◌∷◌ v vs)) = String.◌++◌ w (space ∷ join_words (List.◌∷◌ v vs))

-- `strip` takes the end of a line off.
rstrip-newline : (s : String) → rstrip (String.◌++◌ s "\n") ≡ rstrip s
unfolding rstrip
rstrip-newline [] = refl
rstrip-newline (c ∷ s) = rw cons-append (rw (rstrip-newline s) refl)

lstrip-newline : (s : String) → rstrip (lstrip (String.◌++◌ s "\n")) ≡ rstrip (lstrip s)
unfolding lstrip rstrip
lstrip-newline [] = refl
lstrip-newline (c ∷ s) = rw cons-append (elim (Bool-cases (is_space c)) [
  | inl e ↦ rw e (lstrip-newline s)
  | inr e ↦ rw e (ap rstrip (sym (cons-append c s "\n")) ∙ rstrip-newline (c ∷ s))
])

pub strip-newline : (s : String) → strip (String.◌++◌ s "\n") ≡ strip s
unfolding strip
strip-newline s = lstrip-newline s

-- the digits that a text starts with, and the rest
digits_from : String → String → String × String
digits_from cur [] = (cur, "")
digits_from cur (c ∷ s) = elim (digit_value c) [
  | none ↦ (cur, c ∷ s)
  | some _ ↦ digits_from (push cur c) s
]

-- `\d+` at the start of a text, as many as there are: the patterns of the program go on with another
-- character, so no shorter match can serve
unfoldable pub digits : String → Option (String × String)
unfolding digits_from
digits s = let x = digits_from "" s in cond (x.0 == "") none (some x)

-- the text that a text starts with, taken off
unfoldable pub literal : String → String → Option String
literal [] s = some s
literal (c ∷ t) [] = none
literal (c ∷ t) (d ∷ s) = elim (is (code c) (code d)) [ true ↦ literal t s | false ↦ none ]
