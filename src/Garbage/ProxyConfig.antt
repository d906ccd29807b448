-- ===== src/Garbage/ProxyConfig.antt =====
-- `class ServiceConfig` and `class ProxyConfig` of garbage/config.py. The first hands its calls to
-- `configparser`. The second edits the lines of a file of 3proxy; the state is `self.lines`.
pub mod Edits
use text.Mathlib.Text.{starts_with}
use aws_iprotate_python.Prelude.{
  String, ◌<>◌, ◌==◌, Bool, true, false, not, Option, none, some, List, [], ◌∷◌, if◌then◌else◌,
}
use aws_iprotate_python.Prelude.Lines.{
  readlines, writelines, after_space, words, join_words, digits, literal,
}
use aws_iprotate_python.Prelude.Text.{strip}
use aws_iprotate_python.Py.{
  Error, index_error, raised, Result, ok, err, Exec, pure, lift, gets, modify, ◌>>=◌, ◌>>◌,
}
use aws_iprotate_python.ConfigParser.{Conf, get, set}

-- `ServiceConfig.get_value` and `ServiceConfig.set_value`
abbrev pub get_service_value : String → String → Exec Conf String
get_service_value = get

abbrev pub set_service_value : String → String → String → Exec Conf Unit
set_service_value = set

-- the file and the lines of a `ProxyConfig`
pub record ProxyConfig : Type 0 where
  pub file : String
  pub lines : List String

-- `ProxyConfig(file_path)` of a file that is there
unfoldable pub read_config : String → ProxyConfig
read_config file = record { file = file; lines = readlines file }

unfoldable pub write_config : ProxyConfig → ProxyConfig
write_config p = record p { file = writelines p.lines }

-- `line.split(' ', 1)[1].strip()`
abbrev pub value_of : String → Result (Option String)
value_of line = elim (after_space line) [ none ↦ err index_error | some v ↦ ok (some (strip v)) ]

-- the loop of `get_value`
unfoldable pub find_value : String → List String → Result (Option String)
find_value key [] = ok none
find_value key (line ∷ lines) =
    let rest = find_value key lines in if starts_with line key then value_of line else rest

unfoldable pub get_value : String → Exec (List String) (Option String)
get_value key lines = (find_value key lines, lines)

-- `f"{key} {value}\n"`
abbrev pub line_of : String → String → String
line_of key value = key <> (" " <> (value <> "\n"))

-- the loop of `set_value`, and the append behind it
unfoldable pub replace_value : String → String → List String → List String
replace_value key value [] = line_of key value ∷ []
replace_value key value (line ∷ lines) =
    let rest = line ∷ replace_value key value lines in
    if starts_with line key then line_of key value ∷ lines else rest

unfoldable pub set_value : String → String → Exec (List String) Unit
set_value key value = modify (replace_value key value)

-- `[x for x in xs if not x.startswith(start)]`
unfoldable pub without_start : String → List String → List String
without_start start [] = []
without_start start (x ∷ xs) =
    if starts_with x start then without_start start xs else x ∷ without_start start xs

unfoldable pub remove_value : String → Exec (List String) Unit
remove_value key = modify (without_start key)

-- `f"{username}:CL:{password}"`
abbrev pub entry : String → String → String
entry username password = username <> (":CL:" <> password)

-- the two branches of `add_user`, by the line of the users
abbrev pub add_to : String → String → Option String → Exec (List String) Unit
add_to username password none = set_value "users" (entry username password)
add_to username password (some line) =
    if line == ""
    then set_value "users" (entry username password)
    else set_value "users" (line <> (" " <> entry username password))

unfoldable pub add_user : String → String → Exec (List String) Unit
add_user username password = do line ← get_value "users"; add_to username password line

abbrev pub remove_from : String → Option String → Exec (List String) Unit
remove_from username none = pure tt
remove_from username (some line) =
    if line == ""
    then pure tt
    else set_value "users" (join_words (without_start username (words line)))

unfoldable pub remove_user : String → Exec (List String) Unit
remove_user username = do line ← get_value "users"; remove_from username line

abbrev pub remove_all_users : Exec (List String) Unit
remove_all_users = remove_value "users"

-- a pattern that does not match
abbrev pub no_match : Error
no_match = raised ""

-- the patterns, on what is left of a text: `\d+`, a text, and `\d+\.\d+\.\d+\.\d+`
abbrev pub match_digits : Exec String String
match_digits s = elim (digits s) [ none ↦ (err no_match, s) | some (d, rest) ↦ (ok d, rest) ]

abbrev pub match_text : String → Exec String Unit
match_text t s = elim (literal t s) [ none ↦ (err no_match, s) | some rest ↦ (ok tt, rest) ]

abbrev pub match_address : Exec String String
match_address = do
  a ← match_digits
  match_text "."
  b ← match_digits
  match_text "."
  c ← match_digits
  match_text "."
  d ← match_digits
  pure (a <> ("." <> (b <> ("." <> (c <> ("." <> d))))))

-- `re.match(r'\d+ socks5\+ (\d+\.\d+\.\d+\.\d+) (\d+)', line)`, and its two groups
unfoldable pub match_parent : Exec String (String × String)
match_parent = do
  match_digits
  match_text " socks5+ "
  chain_address ← match_address
  match_text " "
  chain_port ← match_digits
  pure (chain_address, chain_port)

abbrev pub groups : Result (String × String) → Option (String × String)
groups (ok found) = some found
groups (err e) = none

-- `(None, None)` is none
abbrev pub parent_of : Option String → Option (String × String)
parent_of none = none
parent_of (some line) = if line == "" then none else groups (match_parent line).0

unfoldable pub parse_parent_proxy : Exec (List String) (Option (String × String))
parse_parent_proxy = do line ← get_value "parent"; pure (parent_of line)

-- `parts[-2] = chain_address; parts[-1] = chain_port`
unfoldable pub set_last_two : String → String → List String → Result (List String)
set_last_two a b [] = err index_error
set_last_two a b (x ∷ []) = err index_error
set_last_two a b (x ∷ y ∷ []) = ok (a ∷ b ∷ [])
set_last_two a b (x ∷ y ∷ z ∷ rest) = elim (set_last_two a b (y ∷ z ∷ rest)) [
  | ok parts ↦ ok (x ∷ parts)
  | err e ↦ err e
]

abbrev pub with_parent : String → String → String → Result String
with_parent chain_address chain_port line =
    elim (set_last_two chain_address chain_port (words line)) [
      | ok parts ↦ ok (join_words parts <> "\n")
      | err e ↦ err e
    ]

-- the loop of `set_parent_proxy`
unfoldable pub replace_parent : String → String → List String → Result (List String)
replace_parent a b [] = ok []
replace_parent a b (line ∷ lines) =
    let rest : Result (List String) = elim (replace_parent a b lines) [
      | ok ls ↦ ok (line ∷ ls)
      | err e ↦ err e
    ] in
    let here : Result (List String) = elim (with_parent a b line) [
      | ok l ↦ ok (l ∷ lines)
      | err e ↦ err e
    ] in
    if starts_with line "parent" then here else rest

unfoldable pub set_parent_proxy : String → String → Exec (List String) Unit
set_parent_proxy a b lines = elim (replace_parent a b lines) [
  | ok lines' ↦ (ok tt, lines')
  | err e ↦ (err e, lines)
]
