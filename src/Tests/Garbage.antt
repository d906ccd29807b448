-- ===== src/Tests/Garbage.antt =====
-- The theorems on the directory garbage, each on a concrete run.
use aws_iprotate_python.Prelude.{String, ◌<>◌, ◌≡◌}
use aws_iprotate_python.Garbage.ProxyConfig.{get_value, find_value, set_value, remove_user}
use aws_iprotate_python.Garbage.ProxyConfig.Edits.{get_value-set_value, remove_user_prefix}
use aws_iprotate_python.Prelude.{refl, some, List, [], ◌∷◌}
use aws_iprotate_python.Prelude.Text.{strip}
use aws_iprotate_python.Prelude.Lines.{has_space, words, after_space}
use aws_iprotate_python.Py.{ok}

abbrev url : String → String → String → String → String
url host port path name = "http://" <> host <> ":" <> port <> path <> "?configName=" <> name

abbrev template : List String
template = "nserver 8.8.4.4\n" ∷ "users bob:CL:a bobby:CL:b\n" ∷ "allow *\n" ∷ []

get_value-set_value_example :
    (get_value "nserver" (set_value "nserver" "1.1.1.1" template).1).0 ≡ ok (some (strip "1.1.1.1"))
unfolding has_space
get_value-set_value_example = get_value-set_value "nserver" "1.1.1.1" template refl

remove_user_prefix_example : (get_value "users" (remove_user "bob" template).1).0 ≡ ok (some "")
unfolding words get_value find_value after_space strip
remove_user_prefix_example =
    remove_user_prefix "bob" "by" "a" "b" "bob:CL:a bobby:CL:b" template refl refl
