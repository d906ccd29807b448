-- ===== src/Config/Defaults.antt =====
-- What `load_aws_config` of functions/main.py returns, and what it does to the parser.
use aws_iprotate_python.Prelude.{
  String, ◌≡◌, Option, none, some, arith, ◌==◌, eq_iff, eq_refl, is_some, get_or, cond,
  if◌then◌else◌,
}
use aws_iprotate_python.Prelude.Dict.{
  lookup, insert, or_else, lookup-insert, insert-insert, insert-lookup, IsDistinct,
  insert-IsDistinct,
}
use aws_iprotate_python.Py.{Result, ok, err, no_section, no_option}
use aws_iprotate_python.ConfigParser.{Section, Conf, option, has_option, get_option, get, set}
use aws_iprotate_python.ConfigParser.Laws.{option-insert, option-there}
use aws_iprotate_python.Config.{
  AwsConfig, default_option, read_aws_config, load_aws_config, load_api_config,
}

pub add_default : String → String → Section → Section
add_default k v sec = cond (is_some (lookup k sec)) sec (insert k v sec)

default_option_lem :
    (s k v : String) (sec : Section) (c : Conf)
    → lookup s c ≡ some sec
    → default_option s k v c ≡ (ok tt, insert s (add_default k v sec) c)
unfolding default_option has_option set add_default
default_option_lem s k v sec c h = ground (arith, insert-lookup s sec c h)

default_option_again :
    (s k v : String) (sec : Section) (c : Conf)
    → default_option s k v (insert s sec c) ≡ (ok tt, insert s (add_default k v sec) c)
default_option_again s k v sec c = ground (
  arith,
  default_option_lem s k v sec (insert s sec c),
  lookup-insert s s sec c,
  eq_refl s,
  insert-insert s sec (add_default k v sec) c,
)

pub with_defaults : Section → Section
with_defaults sec = add_default "instanceid" "" (
    add_default "region" "us-east-1" (
      add_default "whitelist" ""
        (add_default "apikey" "" (add_default "pass" "" (add_default "user" "" sec)))))

-- A section that has the defaults is left as it is.
pub add_default-there :
    (k v w : String) (sec : Section) → lookup k sec ≡ some w → add_default k v sec ≡ sec
unfolding add_default
add_default-there k v w sec h = ground arith

pub with_defaults_fixed :
    (sec : Section)
    → add_default "user" "" sec ≡ sec
    → add_default "pass" "" sec ≡ sec
    → add_default "apikey" "" sec ≡ sec
    → add_default "whitelist" "" sec ≡ sec
    → add_default "region" "us-east-1" sec ≡ sec
    → add_default "instanceid" "" sec ≡ sec
    → with_defaults sec ≡ sec
unfolding with_defaults
with_defaults_fixed sec user pass apikey whitelist region instance = cc

module _ (name : String) (c : Conf) {sec : Section} (there : lookup name c ≡ some sec) where
  defaults_lem : load_aws_config name c ≡ read_aws_config name (insert name (with_defaults sec) c)
  unfolding load_aws_config with_defaults
  defaults_lem =
      let s₁ = add_default "user" "" sec in
      let s₂ = add_default "pass" "" s₁ in
      let s₃ = add_default "apikey" "" s₂ in
      let s₄ = add_default "whitelist" "" s₃ in
      let s₅ = add_default "region" "us-east-1" s₄ in
      ground (
        arith,
        default_option_lem name "user" "" sec c there,
        default_option_again name "pass" "" s₁ c,
        default_option_again name "apikey" "" s₂ c,
        default_option_again name "whitelist" "" s₃ c,
        default_option_again name "region" "us-east-1" s₄ c,
        default_option_again name "instanceid" "" s₅ c,
      )

-- The specification: the option's value in the file, or the default of functions/main.py.
abbrev pub value_or : String → String → Section → String
value_or k d sec = get_or (lookup k sec) d

abbrev pub required : {A : Type 0} → String → String → Section → (String → Result A) → Result A
required name k sec f = elim (lookup k sec) [ none ↦ err (no_option k name) | some v ↦ f v ]

abbrev pub aws_config : String → Section → String → String → String → AwsConfig
aws_config name sec order access_key secret_key = record {
  config_name = name;
  order = order;
  access_key = access_key;
  secret_key = secret_key;
  instance_id = value_or "instanceid" "" sec;
  region = value_or "region" "us-east-1" sec;
  apikey = value_or "apikey" "" sec;
  whitelist = value_or "whitelist" "" sec;
  user = value_or "user" "" sec;
  pass = value_or "pass" "" sec;
}

abbrev pub described : String → Section → Result AwsConfig
described name sec = required name "order" sec λ order. required name "accesskey" sec λ access_key.
    required name "secretkey" sec λ secret_key. ok (aws_config name sec order access_key secret_key)

abbrev pub default_of : String → Option String
default_of k =
    if "user" == k
    then some ""
    else if "pass" == k
    then some ""
    else if "apikey" == k
    then some ""
    else if "whitelist" == k
    then some ""
    else if "region" == k
    then some "us-east-1"
    else if "instanceid" == k
    then some ""
    else none

-- one option of the section, seen through one default
lookup-add_default :
    (k v j : String) (sec : Section)
    → lookup j (add_default k v sec) ≡ or_else (lookup j sec) (cond (k == j) (some v) none)
unfolding add_default
lookup-add_default k v j sec = ground (arith, lookup-insert k j v sec, eq_iff k j)

pub lookup-with_defaults :
    (j : String) (sec : Section)
    → lookup j (with_defaults sec) ≡ or_else (lookup j sec) (default_of j)
unfolding with_defaults
lookup-with_defaults j sec = simp lookup-add_default (ground arith)

-- the nine reads, from a section that is there
read_there :
    (name : String) (sec : Section) (c : Conf)
    → lookup name c ≡ some sec
    → (read_aws_config name c).1 ≡ c
unfolding read_aws_config get get_option
read_there name sec c h = ground arith

read_described :
    (name : String) (sec : Section) (c : Conf)
    → (read_aws_config name (insert name (with_defaults sec) c)).0 ≡ described name sec
unfolding read_aws_config get get_option
read_described name sec c = ground (
  arith,
  lookup-insert name name (with_defaults sec) c,
  eq_refl name,
  lookup-with_defaults "order" sec,
  lookup-with_defaults "accesskey" sec,
  lookup-with_defaults "secretkey" sec,
  lookup-with_defaults "instanceid" sec,
  lookup-with_defaults "region" sec,
  lookup-with_defaults "apikey" sec,
  lookup-with_defaults "whitelist" sec,
  lookup-with_defaults "user" sec,
  lookup-with_defaults "pass" sec,
)

module _ (name : String) (c : Conf) {sec : Section} (there : lookup name c ≡ some sec) where
  -- what is left in the parser, whatever the reads return
  pub parser-load_aws_config : (load_aws_config name c).1 ≡ insert name (with_defaults sec) c
  parser-load_aws_config = ground (
    arith,
    defaults_lem name c there,
    read_there name (with_defaults sec) (insert name (with_defaults sec) c),
    lookup-insert name name (with_defaults sec) c,
    eq_refl name,
  )

  pub result-load_aws_config : (load_aws_config name c).0 ≡ described name sec
  result-load_aws_config = ground (arith, defaults_lem name c there, read_described name sec c)

options_after :
    (name : String) (sec : Section) (c : Conf)
    → lookup name c ≡ some sec
    → (s k : String)
    → option (insert name (with_defaults sec) c) s k
      ≡ or_else (option c s k) (cond (name == s) (default_of k) none)
options_after name sec c h s k = ground (
  arith,
  option-insert name (with_defaults sec) c s k,
  option-there name c sec h k,
  eq_iff name s,
  lookup-with_defaults k sec,
)

-- `load_aws_config` of a section that is there returns the options of the file, a default for each
-- of the six optional ones that is missing, and raises NoOptionError for the first required one
-- that is missing. In the parser every option of every section keeps its value, and the defaults
-- are added to this section.
pub load_aws_config_lem :
    (name : String) (c : Conf) {sec : Section}
    → lookup name c ≡ some sec
    → ((load_aws_config name c).0 ≡ described name sec)
      × ((s k : String)
          → option (load_aws_config name c).1 s k
            ≡ or_else (option c s k) (cond (name == s) (default_of k) none))
load_aws_config_lem name c {sec} h = (
  result-load_aws_config name c h,
  λ s k. rw (parser-load_aws_config name c h) (options_after name sec c h s k),
)

-- A section that is not there raises NoSectionError, and nothing is changed.
pub load_aws_config_missing :
    (name : String) (c : Conf)
    → lookup name c ≡ none
    → load_aws_config name c ≡ (err (no_section name), c)
unfolding load_aws_config default_option has_option set option
load_aws_config_missing name c h = ground arith

pub with_defaults-IsDistinct : (sec : Section) → IsDistinct sec → IsDistinct (with_defaults sec)
unfolding with_defaults
with_defaults-IsDistinct sec h = one "instanceid" "" _ (
    one "region" "us-east-1" _
      (one "whitelist" "" _ (one "apikey" "" _ (one "pass" "" _ (one "user" "" sec h)))))
  where
    one : (k v : String) (s : Section) → IsDistinct s → IsDistinct (add_default k v s)
    one k v s d = unfold add_default in ground (arith, insert-IsDistinct k v s d)

-- reading the section of the web service changes nothing
pub api_frame : (c : Conf) → (load_api_config c).1 ≡ c
unfolding load_api_config get
api_frame c = ground arith
