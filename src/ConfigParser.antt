-- ===== src/ConfigParser.antt =====
-- The part of the standard library's `configparser` that functions/main.py uses, on the parsed form
-- of the file: sections by name, options by name, both in order. Option names are lower case, as
-- the parser makes them, so `accessKey` and `accesskey` are one option. Values hold no `%`.
pub mod Laws
use aws_iprotate_python.Prelude.Text.{strip}
use aws_iprotate_python.Prelude.{String, Bool, Option, none, some, List, [], ◌∷◌, is_some}
use aws_iprotate_python.Prelude.Dict.{Dict, lookup, insert, keys, IsDistinct}
use aws_iprotate_python.Py.{
  Error, no_section, no_option, key_error, type_error, Result, ok, err, Exec, pure, raise,
}

abbrev pub Section : Type 0
Section = Dict String

abbrev pub Conf : Type 0
Conf = Dict Section

-- `config.sections()`
abbrev pub sections : Conf → List String
sections = keys

-- the value of an option, if its section is there and has it
unfoldable pub option : Conf → String → String → Option String
option c s k = elim (lookup s c) [ none ↦ none | some sec ↦ lookup k sec ]

-- `config.has_option(section, option)`
unfoldable pub has_option : String → String → Conf → Bool
unfolding option
has_option s k c = is_some (option c s k)

unfoldable pub get_option : String → Section → String → Result String
get_option k sec s = elim (lookup k sec) [ none ↦ err (no_option k s) | some v ↦ ok v ]

-- `config.get(section, option)`
unfoldable pub get : String → String → Exec Conf String
unfolding get_option
get s k c = elim (lookup s c) [
  | none ↦ (err (no_section s), c)
  | some sec ↦ (get_option k sec s, c)
]

-- `config.set(section, option, value)`
unfoldable pub set : String → String → String → Exec Conf (Unit {0})
set s k v c = elim (lookup s c) [
  | none ↦ (err (no_section s), c)
  | some sec ↦ (ok tt, insert s (insert k v sec) c)
]

-- A value that was written to the file, as the parser reads it back: without the blanks at its ends.
abbrev pub as_read : Option String → Option String
as_read none = none
as_read (some value) = some (strip value)

-- The same where the value may be None: the parser takes texts only.
unfoldable pub set_value : String → String → Option String → Exec Conf (Unit {0})
unfolding set
set_value s k none = raise (type_error "option values must be strings")
set_value s k (some v) = set s k v

-- `config[section]`
unfoldable pub section : String → Exec Conf Section
section s c = elim (lookup s c) [ none ↦ (err (key_error s), c) | some sec ↦ (ok sec, c) ]

-- Every section, and every option of it, stands once.
abbrev pub AllDistinct : Conf → Type 0
AllDistinct [] = Unit
AllDistinct ((_, sec) ∷ c) = IsDistinct sec × AllDistinct c

pub record IsValid (c : Conf) : Type 0 where
  pub names : IsDistinct c
  pub options : AllDistinct c
