-- ===== src/Connection/Exact.antt =====
-- Which rules `delete_rules` of functions/connection.py takes for those of a profile.
use Prim.Native.String.{◌∷◌ as ◌∷ₛ◌}
use text.Mathlib.TextLemmas.{append_assoc, append_cancel_left, cons-append, nil-append}
use aws_iprotate_python.Prelude.{
  ℕ, String, ◌<>◌, ◌≡◌, refl, sym, ap, ◌∙◌, ◌↔◌, true, Bool-cases, inl, inr, arith,
}
use aws_iprotate_python.Prelude.Text.{str, str_injective, ends_with}
use aws_iprotate_python.Prelude.Text.Split.{lacks}
use aws_iprotate_python.Prelude.Text.Digits.{
  last_word, last_word_lem, lacks-str, lacks-append, ends_with-append, ends_with_of_append,
  str-ne-newline,
}
use aws_iprotate_python.Connection.{app_of, rule_matches}

-- two texts whose last words are `v` and `w`
same_words :
    (x y v w : String)
    → lacks 32 v ≡ true
    → lacks 32 w ≡ true
    → x <> (" " <> v) ≡ y <> (" " <> w)
    → v ≡ w
same_words x y v w plain_v plain_w e = sym (last x v plain_v) ∙ ap last_word e ∙ last y w plain_w
  where
    last : (z u : String) → lacks 32 u ≡ true → last_word (z <> (" " <> u)) ≡ u
    last z u plain =
        ap (λ s. last_word (z <> s)) (cons-append " " "" u ∙ ap (λ s. " " ∷ₛ s) (nil-append u))
        ∙ last_word_lem z u plain

lacks-app_of : (n : ℕ) → lacks 32 (app_of n) ≡ true
lacks-app_of n = lacks-append "iprotate_" (str n) (unfold lacks in refl) (lacks-str n)

matches_same :
    (m n : ℕ) (rule : String) → rule_matches (app_of n) (rule <> (" " <> app_of m)) ≡ true → m ≡ n
unfolding rule_matches
matches_same m n rule h =
    elim (Bool-cases (ends_with (rule <> (" " <> app_of m)) (" " <> app_of n))) [
      | inl e ↦
          let (x, p) = ends_with-append (rule <> (" " <> app_of m)) (" " <> app_of n) e in
          str_injective m n (
            append_cancel_left "iprotate_" (str m) (str n)
              (same_words rule x (app_of m) (app_of n) (lacks-app_of m) (lacks-app_of n) p))
      | inr e ↦
          let (x, p) =
            ends_with-append (rule <> (" " <> app_of m)) (" " <> app_of n <> "\n")
              (ground (arith, h, e)) in
          absurd (
            str-ne-newline m n (
              append_cancel_left "iprotate_" (str m) (str n <> "\n") (
                same_words rule x (app_of m) (app_of n <> "\n") (lacks-app_of m)
                  (lacks-append (app_of n) "\n" (lacks-app_of n) (unfold lacks in refl)) p
                ∙ append_assoc "iprotate_" (str n) "\n")))
    ]

-- A rule that ends in the application of order m matches the profile of order n exactly if m is n:
-- the rules of `iprotate_11` are not those of `iprotate_1`.
pub rule_matches_iff :
    (m n : ℕ) (rule : String)
    → (rule_matches (app_of n) (rule <> (" " <> app_of m)) ≡ true) ↔ (m ≡ n)
unfolding rule_matches
rule_matches_iff m n rule =
    (matches_same m n rule, λ e. rw e (rw (ends_with_of_append rule (" " <> app_of n)) refl))
