-- ===== src/Prelude/Text.antt =====
-- Decimal texts: Python's `str(n)` and `int(s)` on natural numbers. `int` reads digits only, the
-- one form that the program writes; any other text is a ValueError.
pub mod Split
pub mod Digits
use Prim.Native.Nat.{ℕ, zero, suc, ◌+◌, ◌-◌, ◌*◌, ◌/◌, ◌%◌, ◌<◌, compare, Ordering}
use Prim.Native.Char.{Char, code}
use Prim.Native.String
use Prim.Native.String.{String, [], ◌∷◌}
use mathlib.Core.List
use mathlib.Core.List.{List}
use text.Mathlib.Text.{◌==◌}
use mathlib.Core.Path.{◌≡◌, refl, ◌∙◌}
use mathlib.Core.Bool.{Bool, true, false, cond, not, ◌&&◌, ◌||◌}
use mathlib.Core.Option.{Option, none, some}
use native.Mathlib.Omega.{arith}

abbrev below : ℕ → ℕ → Bool
below a b = elim (compare a b) [ Ordering.lt ↦ true | _ ↦ false ]

abbrev pub is : ℕ → ℕ → Bool
is a b = elim (compare a b) [ Ordering.eq ↦ true | _ ↦ false ]

digit : ℕ → Char
digit zero = "0"
digit (suc zero) = "1"
digit (suc (suc zero)) = "2"
digit (suc (suc (suc zero))) = "3"
digit (suc (suc (suc (suc zero)))) = "4"
digit (suc (suc (suc (suc (suc zero))))) = "5"
digit (suc (suc (suc (suc (suc (suc zero)))))) = "6"
digit (suc (suc (suc (suc (suc (suc (suc zero))))))) = "7"
digit (suc (suc (suc (suc (suc (suc (suc (suc zero)))))))) = "8"
digit _ = "9"

abbrev pub digit_value : Char → Option ℕ
digit_value c = cond (below (code c) 48) none (cond (below 57 (code c)) none (some (code c - 48)))

digit_value-digit : (n : ℕ) → n < 10 → digit_value (digit n) ≡ some n
unfolding digit
digit_value-digit zero h = refl
digit_value-digit (suc zero) h = refl
digit_value-digit (suc (suc zero)) h = refl
digit_value-digit (suc (suc (suc zero))) h = refl
digit_value-digit (suc (suc (suc (suc zero)))) h = refl
digit_value-digit (suc (suc (suc (suc (suc zero))))) h = refl
digit_value-digit (suc (suc (suc (suc (suc (suc zero)))))) h = refl
digit_value-digit (suc (suc (suc (suc (suc (suc (suc zero))))))) h = refl
digit_value-digit (suc (suc (suc (suc (suc (suc (suc (suc zero)))))))) h = refl
digit_value-digit (suc (suc (suc (suc (suc (suc (suc (suc (suc zero))))))))) h = refl
digit_value-digit (suc (suc (suc (suc (suc (suc (suc (suc (suc (suc n)))))))))) h =
    absurd (omega arith)

-- the digits of `n` before `out`; a round for each digit, with fuel
emit : ℕ → ℕ → String → String
emit zero n out = out
emit (suc f) n out =
    let more = emit f (n / 10) (digit (n % 10) ∷ out) in
    cond (is (n / 10) 0) (digit (n % 10) ∷ out) more

-- `str(n)`
unfoldable pub str : ℕ → String
unfolding emit digit
str n = emit (suc n) n []

read : ℕ → String → Option ℕ
read n [] = some n
read n (c ∷ s) = elim (digit_value c) [ none ↦ none | some d ↦ read (n * 10 + d) s ]

-- `int(s)`
unfoldable pub int : String → Option ℕ
unfolding read
int [] = none
int (c ∷ s) = read 0 (c ∷ s)

read-digit : (n d : ℕ) (s : String) → d < 10 → read n (digit d ∷ s) ≡ read (n * 10 + d) s
unfolding read
read-digit n d s h = ground (arith, digit_value-digit d h)

read-emit : (f n : ℕ) (out : String) → n < f → read 0 (emit f n out) ≡ read n out
unfolding emit
read-emit zero n out h = elim h [ ]
read-emit (suc f) n out h = ground (
  arith,
  read-emit f (n / 10) (digit (n % 10) ∷ out),
  read-digit (n / 10) (n % 10) out,
  read-digit 0 (n % 10) out,
)

emit_cons : (f n : ℕ) (c : Char) (s : String) → int (emit f n (c ∷ s)) ≡ read 0 (emit f n (c ∷ s))
unfolding emit int
emit_cons zero n c s = refl
emit_cons (suc f) n c s = ground (arith, emit_cons f (n / 10) (digit (n % 10)) (c ∷ s))

int-emit : (f n : ℕ) → int (emit (suc f) n []) ≡ read 0 (emit (suc f) n [])
unfolding emit int
int-emit f n = ground (arith, emit_cons f (n / 10) (digit (n % 10)) [])

-- Reading back a printed number gives the number.
pub int-str : (n : ℕ) → int (str n) ≡ some n
unfolding str read
int-str n = int-emit n n ∙ read-emit (suc n) n [] (omega arith)

-- Distinct numbers have distinct texts.
pub str_injective : (m n : ℕ) → str m ≡ str n → m ≡ n
str_injective m n h = ground (arith, int-str m, int-str n)

str_4096 : str 4096 ≡ "4096"
unfolding str
str_4096 = refl

abbrev pub push : String → Char → String
push s c = String.◌++◌ s (c ∷ [])

split_from : ℕ → List String → String → String → List String
split_from sep parts cur [] = List.◌++◌ parts (List.◌∷◌ cur List.[])
split_from sep parts cur (c ∷ s) = elim (is (code c) sep) [
  | true ↦ split_from sep (List.◌++◌ parts (List.◌∷◌ cur List.[])) "" s
  | false ↦ split_from sep parts (push cur c) s
]

-- `s.split(sep)`, for a separator of one character, given by its code
unfoldable pub split : ℕ → String → List String
unfolding split_from
split sep s = split_from sep List.[] "" s

abbrev within : ℕ → ℕ → ℕ → Bool
within a b n = not (below n a) && not (below b n)

-- the whitespace of `str.strip`
abbrev pub is_space : Char → Bool
is_space c =
    let n = code c in
    within 9 13 n
    || within 28 32 n
    || is n 133
    || is n 160
    || is n 5760
    || within 8192 8202 n
    || is n 8232
    || is n 8233
    || is n 8239
    || is n 8287
    || is n 12288

unfoldable pub lstrip : String → String
lstrip [] = []
lstrip (c ∷ s) = let rest = lstrip s in cond (is_space c) rest (c ∷ s)

unfoldable pub rstrip : String → String
rstrip [] = []
rstrip (c ∷ s) = let rest = rstrip s in cond (rest == "" && is_space c) "" (c ∷ rest)

-- `s.strip()`
unfoldable pub strip : String → String
unfolding lstrip rstrip
strip s = rstrip (lstrip s)

-- `s.endswith(t)`
unfoldable pub ends_with : String → String → Bool
ends_with [] t = [] == t
ends_with (c ∷ s) t = (c ∷ s) == t || ends_with s t

strip_test : strip " 10.0.0.0/8\n" ≡ "10.0.0.0/8"
unfolding strip
strip_test = refl

split_test :
    ◌≡◌ {A = List String} (split b',' "a,,b") (List.◌∷◌ "a" (List.◌∷◌ "" (List.◌∷◌ "b" List.[])))
unfolding split
split_test = refl

ends_with_test : (ends_with "ab c" " c" ≡ true) × (ends_with "ab c\n" " c" ≡ false)
unfolding ends_with
ends_with_test = (refl, refl)
