-- ===== src/Prelude/Prefix.antt =====
-- Two texts that one text starts with: one of them starts with the other.
use Prim.Native.String
use Prim.Native.String.{String, [], ◌∷◌}
use text.Mathlib.Text.{starts_with, ◌==◌}
use text.Mathlib.TextBridge.{IsPrefix}
use text.Mathlib.TextEquality.{starts_with_iff, eq_iff}
use text.Mathlib.TextLemmas.{
  nil-append, cons-append, head-eq_of_cons-eq, tail-eq_of_cons-eq, append_cancel_left,
}
use mathlib.Core.Path.{◌≡◌, sym, ap, ◌∙◌}
use mathlib.Core.Bool.{Bool, true, false}
use mathlib.Core.Logic.{◌⊎◌, inl, inr}
use Prim.Native.Char.{Char}
use aws_iprotate_python.Prelude.{Bool-cases, ne→eq_false}

prefix-cons : {c d : Char} (a b : String) → c ≡ d → IsPrefix a b → IsPrefix (c ∷ a) (d ∷ b)
prefix-cons {c} {d} a b e (t, f) =
    (t, cons-append c a t ∙ ap (λ x. x ∷ (String.◌++◌ a t)) e ∙ ap (λ r. d ∷ r) f)

prefixes : (a b u v : String) → String.◌++◌ a u ≡ String.◌++◌ b v → IsPrefix a b ⊎ IsPrefix b a
prefixes [] b u v e = inl (b, nil-append b)
prefixes (c ∷ a) [] u v e = inr (c ∷ a, nil-append (c ∷ a))
prefixes (c ∷ a) (d ∷ b) u v e =
    let whole = sym (cons-append c a u) ∙ e ∙ cons-append d b v in
    elim (prefixes a b u v (tail-eq_of_cons-eq whole)) [
      | inl p ↦ inl (prefix-cons a b (head-eq_of_cons-eq whole) p)
      | inr p ↦ inr (prefix-cons b a (sym (head-eq_of_cons-eq whole)) p)
    ]

true-false : {b : Bool} → b ≡ true → b ≡ false → ⊥
true-false e f = cc

pub starts_with_both :
    (s a b : String)
    → starts_with s a ≡ true
    → starts_with a b ≡ false
    → starts_with b a ≡ false
    → starts_with s b ≡ false
starts_with_both s a b h n m = elim (Bool-cases (starts_with s b)) [
  | inl e ↦
      let (u, p) = (starts_with_iff s a).0 h in
      let (v, q) = (starts_with_iff s b).0 e in
      elim (prefixes a b u v (p ∙ sym q)) [
        | inl r ↦ absurd (true-false ((starts_with_iff b a).1 r) m)
        | inr r ↦ absurd (true-false ((starts_with_iff a b).1 r) n)
      ]
  | inr e ↦ e
]

-- Two texts that start differently differ.
pub starts_apart :
    (a b u v : String)
    → starts_with a b ≡ false
    → starts_with b a ≡ false
    → (String.◌++◌ a u == String.◌++◌ b v) ≡ false
starts_apart a b u v n m = ne→eq_false _ _ λ e. elim (prefixes a b u v e) [
  | inl p ↦ true-false ((starts_with_iff b a).1 p) m
  | inr p ↦ true-false ((starts_with_iff a b).1 p) n
]

-- as do two texts whose ends do, behind the same start
pub ends_apart : (a u v : String) → (u == v) ≡ false → (String.◌++◌ a u == String.◌++◌ a v) ≡ false
ends_apart a u v n = ne→eq_false _ _ λ e. true-false ((eq_iff u v).1 (append_cancel_left a u v e)) n
