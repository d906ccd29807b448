-- ===== src/Prelude/Text/Digits.antt =====
-- The texts that `str` prints hold digits only, and a text that ends in such a word determines it.
use Prim.Native.Nat.{ℕ, zero, suc, ◌/◌, ◌%◌, ◌<◌}
use Prim.Native.String
use Prim.Native.String.{String, [], ◌∷◌}
use Prim.Native.Char.{Char, code}
use text.Mathlib.Text.{◌==◌}
use text.Mathlib.TextEquality.{eq_iff}
use text.Mathlib.TextPositions.{eq_refl}
use text.Mathlib.TextLemmas.{nil-append, append-nil, cons-append}
use mathlib.Core.Path.{◌≡◌, refl, sym, ap, ◌∙◌}
use mathlib.Core.Bool.{Bool, true, false}
use mathlib.Core.Option.{none, some}
use mathlib.Core.Logic.{inl, inr}
use native.Mathlib.Omega.{arith}
use aws_iprotate_python.Prelude.{Bool-cases, Option-cases}
use aws_iprotate_python.Prelude.Text.{
  is, push, digit, digit_value, digit_value-digit, emit, str, ends_with,
}
use aws_iprotate_python.Prelude.Text.Split.{push-append, lacks}

unfoldable pub all_digits : String → Bool
all_digits [] = true
all_digits (c ∷ s) = elim (digit_value c) [ none ↦ false | some _ ↦ all_digits s ]

all_digits-digit : (n : ℕ) (s : String) → n < 10 → all_digits (digit n ∷ s) ≡ all_digits s
unfolding all_digits
all_digits-digit n s h = ground (arith, digit_value-digit n h)

all_digits-emit : (f n : ℕ) (out : String) → all_digits (emit f n out) ≡ all_digits out
unfolding emit
all_digits-emit zero n out = refl
all_digits-emit (suc f) n out =
    ground (arith, all_digits-emit f (n / 10) (digit (n % 10) ∷ out), all_digits-digit (n % 10) out)

pub all_digits-str : (n : ℕ) → all_digits (str n) ≡ true
unfolding str all_digits
all_digits-str n = all_digits-emit (suc n) n []

-- the word behind the last space
word_from : String → String → String
word_from cur [] = cur
word_from cur (c ∷ s) = elim (is (code c) 32) [
  | true ↦ word_from "" s
  | false ↦ word_from (push cur c) s
]

unfoldable pub last_word : String → String
unfolding word_from
last_word s = word_from "" s

word_from-append : (x y cur : String) → word_from cur (String.◌++◌ x (" " ∷ y)) ≡ word_from "" y
unfolding word_from
word_from-append [] y cur = rw nil-append refl
word_from-append (c ∷ x) y cur = elim (Bool-cases (is (code c) 32)) [
  | inl e ↦ rw cons-append (rw (e, word_from) (word_from-append x y ""))
  | inr e ↦ rw cons-append (rw (e, word_from) (word_from-append x y (push cur c)))
]

not_space : (c : Char) (n : ℕ) → digit_value c ≡ some n → is (code c) 32 ≡ false
not_space c n h = ground arith

word_from-lacks :
    (a s cur : String)
    → lacks 32 a ≡ true
    → word_from cur (String.◌++◌ a s) ≡ word_from (String.◌++◌ cur a) s
unfolding word_from lacks
word_from-lacks [] s cur h = rw nil-append (rw append-nil refl)
word_from-lacks (c ∷ a) s cur h = elim (Bool-cases (is (code c) 32)) [
  | inl e ↦ absurd (ground (arith, e, h))
  | inr e ↦ rw cons-append (
      rw (e, word_from)
        (word_from-lacks a s (push cur c) (ground (arith, e, h))
          ∙ ap (λ x. word_from x s) (push-append cur a c)))
]

pub ends_with-append : (s t : String) → ends_with s t ≡ true → (x : String) × (s ≡ String.◌++◌ x t)
unfolding ends_with
ends_with-append [] t h = ("", (eq_iff "" t).0 h ∙ sym (nil-append t))
ends_with-append (c ∷ s) t h = elim (Bool-cases ((c ∷ s) == t)) [
  | inl e ↦ ("", (eq_iff (c ∷ s) t).0 e ∙ sym (nil-append t))
  | inr e ↦
      let (x, p) = ends_with-append s t (ground (arith, e, h)) in
      (c ∷ x, ap (λ r. c ∷ r) p ∙ sym (cons-append c x t))
]

pub ends_with_self : (t : String) → ends_with t t ≡ true
unfolding ends_with
ends_with_self [] = eq_refl ""
ends_with_self (c ∷ t) = rw (eq_refl (c ∷ t)) refl

ends_with-cons : (c : Char) (s t : String) → ends_with s t ≡ true → ends_with (c ∷ s) t ≡ true
unfolding ends_with
ends_with-cons c s t h = ground arith

pub ends_with_of_append : (x t : String) → ends_with (String.◌++◌ x t) t ≡ true
ends_with_of_append [] t = rw nil-append (ends_with_self t)
ends_with_of_append (c ∷ x) t =
    rw cons-append (ends_with-cons c (String.◌++◌ x t) t (ends_with_of_append x t))

-- the last word of a text that ends in a space and a word
pub last_word_lem : (x w : String) → lacks 32 w ≡ true → last_word (String.◌++◌ x (" " ∷ w)) ≡ w
unfolding last_word word_from
last_word_lem x w plain =
    word_from-append x w ""
    ∙ ap (word_from "") (sym (append-nil w))
    ∙ word_from-lacks w "" "" plain
    ∙ nil-append w

digits-lacks : (s : String) → all_digits s ≡ true → lacks 32 s ≡ true
unfolding all_digits lacks
digits-lacks [] h = refl
digits-lacks (c ∷ s) h = elim (Option-cases (digit_value c)) [
  | inl e ↦ absurd (ground (arith, e, h))
  | inr (n, e) ↦ ground (arith, not_space c n e, digits-lacks s, e, h)
]

pub lacks-str : (n : ℕ) → lacks 32 (str n) ≡ true
lacks-str n = digits-lacks (str n) (all_digits-str n)

pub lacks-append :
    (a b : String) → lacks 32 a ≡ true → lacks 32 b ≡ true → lacks 32 (String.◌++◌ a b) ≡ true
unfolding lacks
lacks-append [] b h k = rw nil-append k
lacks-append (c ∷ a) b h k = rw cons-append (ground (arith, lacks-append a b))

-- no number ends its line
digits-newline : (s : String) → all_digits (String.◌++◌ s "\n") ≡ false
unfolding all_digits
digits-newline [] = refl
digits-newline (c ∷ s) = rw cons-append (ground (arith, digits-newline s))

pub str-ne-newline : (m n : ℕ) → str m ≡ String.◌++◌ (str n) "\n" → ⊥
str-ne-newline m n e =
    let no : all_digits (str m) ≡ false = ap all_digits e ∙ digits-newline (str n) in
    absurd (ground (arith, all_digits-str m, no))
