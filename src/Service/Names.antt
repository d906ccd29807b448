-- ===== src/Service/Names.antt =====
-- The names that `reset_all` of functions/service.py reads off the units.
use Prim.Native.String.{String, ◌∷◌}
use Prim.Native.Char.{Char}
use text.Mathlib.TextPositions.{starts_with-append}
use text.Mathlib.TextLemmas.{nil-append, append_assoc, cons-append}
use aws_iprotate_python.Prelude.{◌<>◌, ◌≡◌, refl, ap, ◌∙◌, true}
use aws_iprotate_python.Prelude.Text.Split.{
  until, lacks, split_head, split_second, until-append, until-skip,
}
use aws_iprotate_python.Py.{ok, ◌>>◌}
use aws_iprotate_python.Py.Keeps.{bind_ok}
use aws_iprotate_python.Outside.{Systemd}
use aws_iprotate_python.Service.{unit_of, name_of, reset_one}

abbrev at_sign : Char
at_sign = "@"

abbrev dot : Char
dot = "."

before_at : (x : String) → "iprotate@" <> x ≡ "iprotate" <> (at_sign ∷ x)
before_at x =
    append_assoc "iprotate" "@" x
    ∙ ap (λ s. "iprotate" <> s) (cons-append at_sign "" x ∙ ap (λ s. at_sign ∷ s) (nil-append x))

-- the name is the text between the first `@` and the next dot or `@`
name_of_lem :
    {S : Type 0} (x : String) (s : S)
    → name_of ("iprotate@" <> x) s ≡ (ok (until b'.' (until b'@' x)), s)
unfolding name_of
name_of_lem x s =
    let (rest, p) = split_second b'@' "iprotate" at_sign x (unfold lacks in refl) refl in
    let (rest', q) = split_head b'.' (until b'@' x) in rw (before_at x) (rw p (rw q refl))

until_dot :
    (a rest : String)
    → lacks b'@' a ≡ true
    → lacks b'.' a ≡ true
    → until b'.' (until b'@' (a <> ("." <> rest))) ≡ a
until_dot a rest no_at no_dot =
    ap (until b'.') (
      until-skip b'@' a ("." <> rest) no_at
      ∙ ap (λ x. a <> x) (until-skip b'@' "." rest (unfold lacks in refl))
      ∙ ap (λ x. a <> x)
          (cons-append dot "" (until b'@' rest) ∙ ap (λ x. dot ∷ x) (nil-append (until b'@' rest))))
    ∙ until-append b'.' a dot (until b'@' rest) no_dot refl

-- Where the name of a unit has a text without `@` before its first dot, `reset_all` stops the unit
-- of that text: for the unit of a profile this is the unit itself, and for the unit of a profile
-- whose name has a dot it is another one.
pub reset_one_lem :
    {W : Type 0} (systemd : Systemd W) (a rest : String) (w : W)
    → lacks b'@' a ≡ true
    → lacks b'.' a ≡ true
    → reset_one systemd (unit_of (a <> ("." <> rest))) w
      ≡ (do systemd.service (unit_of a); systemd.stop (unit_of a)) w
unfolding reset_one
reset_one_lem systemd a rest w no_at no_dot =
    rw (starts_with-append "iprotate@" (a <> ("." <> rest))) (
      bind_ok (name_of (unit_of (a <> ("." <> rest))))
        (λ name. systemd.service (unit_of name) >> systemd.stop (unit_of name)) w
        (name_of_lem (a <> ("." <> rest)) w ∙ ap (λ x. (ok x, w)) (until_dot a rest no_at no_dot)))
