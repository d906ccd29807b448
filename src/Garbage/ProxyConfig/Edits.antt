-- ===== src/Garbage/ProxyConfig/Edits.antt =====
-- What the edits of a `ProxyConfig` leave in its lines.
use text.Mathlib.Text.{starts_with}
use text.Mathlib.TextPositions.{starts_with-append}
use text.Mathlib.TextLemmas.{append_assoc}
use aws_iprotate_python.Prelude.{
  String, ◌<>◌, ◌≡◌, refl, sym, subst, ap, ◌∙◌, inl, inr, ◌≢◌, true, false, Bool-cases, some,
  if◌then◌else◌, List, [], ◌∷◌, arith, ne→eq_false,
}
use aws_iprotate_python.Prelude.Lines.{
  writelines-readlines, after_space-append, has_space, words, join_words, strip-newline,
}
use aws_iprotate_python.Prelude.Text.{strip}
use aws_iprotate_python.Prelude.Prefix.{starts_with_both}
use aws_iprotate_python.Py.{ok, pure}
use aws_iprotate_python.Py.Keeps.{bind_ok}
use aws_iprotate_python.Garbage.ProxyConfig.{
  read_config, write_config, value_of, find_value, get_value, line_of, replace_value, set_value,
  without_start, remove_value, entry, remove_user, remove_from,
}

-- A file that is read and written again is the same.
pub read-write : (file : String) → (write_config (read_config file)).file ≡ file
unfolding read_config write_config
read-write file = writelines-readlines file

value_of-line_of :
    (key value : String)
    → has_space key ≡ false
    → value_of (line_of key value) ≡ ok (some (strip value))
value_of-line_of key value h =
    rw (after_space-append key (value <> "\n") h, value_of) (rw (strip-newline value) refl)

find_value-first :
    (key value : String) (lines : List String)
    → has_space key ≡ false
    → find_value key (line_of key value ∷ lines) ≡ ok (some (strip value))
unfolding find_value
find_value-first key value lines h =
    rw (starts_with-append key (" " <> (value <> "\n"))) (value_of-line_of key value h)

find_value-replace_value :
    (key value : String) (lines : List String)
    → has_space key ≡ false
    → find_value key (replace_value key value lines) ≡ ok (some (strip value))
unfolding replace_value find_value
find_value-replace_value key value [] h = find_value-first key value [] h
find_value-replace_value key value (line ∷ lines) h = elim (Bool-cases (starts_with line key)) [
  | inl e ↦ rw e (find_value-first key value lines h)
  | inr e ↦ rw e (rw (e, find_value) (find_value-replace_value key value lines h))
]

-- A value that is set is the one that is read, without the blanks around it, if the key has no space.
pub get_value-set_value :
    (key value : String) (lines : List String)
    → has_space key ≡ false
    → (get_value key (set_value key value lines).1).0 ≡ ok (some (strip value))
unfolding get_value set_value
get_value-set_value key value lines h = find_value-replace_value key value lines h

module _ (key other : String) (apart : starts_with key other ≡ false)
    (apart' : starts_with other key ≡ false) where
  find_value-line_of :
      (value : String) (lines : List String)
      → find_value other (line_of key value ∷ lines) ≡ find_value other lines
  unfolding find_value
  find_value-line_of value lines =
      rw
        (starts_with_both (line_of key value) key other
          (starts_with-append key (" " <> (value <> "\n"))) apart apart')
        refl

  find_value-skip :
      (line : String) (lines : List String)
      → starts_with line key ≡ true
      → find_value other (line ∷ lines) ≡ find_value other lines
  unfolding find_value
  find_value-skip line lines e = rw (starts_with_both line key other e apart apart') refl

  find_value-same :
      (line : String) (xs ys : List String)
      → find_value other xs ≡ find_value other ys
      → find_value other (line ∷ xs) ≡ find_value other (line ∷ ys)
  unfolding find_value
  find_value-same line xs ys e = rw e refl

  find_value-replace_other :
      (value : String) (lines : List String)
      → find_value other (replace_value key value lines) ≡ find_value other lines
  unfolding replace_value
  find_value-replace_other value [] = find_value-line_of value []
  find_value-replace_other value (line ∷ lines) = elim (Bool-cases (starts_with line key)) [
    | inl e ↦ rw e (find_value-line_of value lines ∙ sym (find_value-skip line lines e))
    | inr e ↦ rw e (find_value-same line _ lines (find_value-replace_other value lines))
  ]

  find_value-without_other :
      (lines : List String) → find_value other (without_start key lines) ≡ find_value other lines
  unfolding without_start
  find_value-without_other [] = refl
  find_value-without_other (line ∷ lines) = elim (Bool-cases (starts_with line key)) [
    | inl e ↦ rw e (find_value-without_other lines ∙ sym (find_value-skip line lines e))
    | inr e ↦ rw e (find_value-same line _ lines (find_value-without_other lines))
  ]

  -- An edit of one key changes no other, if neither of the two begins with the other.
  pub edits_of_other :
      (value : String) (lines : List String)
      → ((get_value other (set_value key value lines).1).0 ≡ (get_value other lines).0)
        × ((get_value other (remove_value key lines).1).0 ≡ (get_value other lines).0)
  unfolding get_value set_value remove_value
  edits_of_other value lines =
      (find_value-replace_other value lines, find_value-without_other lines)

-- the users after a removal
pub remove_user_lem :
    (username line : String) (lines : List String)
    → (get_value "users" lines).0 ≡ ok (some line)
    → line ≢ ""
    → (get_value "users" (remove_user username lines).1).0
      ≡ ok (some (strip (join_words (without_start username (words line)))))
unfolding remove_user get_value has_space
remove_user_lem username line lines h n =
    ap (λ r. (get_value "users" r.1).0)
      (bind_ok (get_value "users") (remove_from username) lines (ap (λ r. (r, lines)) h)
        ∙ ap
            (λ b.
              (if b
                  then pure tt
                  else set_value "users" (join_words (without_start username (words line))))
                lines)
            (ne→eq_false line "" n))
    ∙ get_value-set_value "users" (join_words (without_start username (words line))) lines refl

no_words : (line : String) {w : String} {ws : List String} → words line ≡ w ∷ ws → line ≢ ""
unfolding words
no_words line {w} {ws} h e =
    let none_there : words "" ≡ w ∷ ws = subst (λ l. words l ≡ w ∷ ws) e h in absurd (ground arith)

-- Where the line of the users holds two, and the name of the second begins with that of the first,
-- `remove_user` of the first leaves no user.
pub remove_user_prefix :
    (username more p q line : String) (lines : List String)
    → (get_value "users" lines).0 ≡ ok (some line)
    → words line ≡ entry username p ∷ entry (username <> more) q ∷ []
    → (get_value "users" (remove_user username lines).1).0 ≡ ok (some "")
unfolding without_start join_words strip
remove_user_prefix username more p q line lines h w =
    remove_user_lem username line lines h (no_words line w)
    ∙ rw w (
        rw (starts_with-append username (":CL:" <> p)) (
          rw (append_assoc username more (":CL:" <> q))
            (rw (starts_with-append username (more <> (":CL:" <> q))) refl)))
