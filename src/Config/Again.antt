-- ===== src/Config/Again.antt =====
-- A second `load_aws_config` of functions/main.py, on what the first one left.
use aws_iprotate_python.Prelude.{String, ◌≡◌, refl, Option, none, some, arith, eq_refl, ap, ◌∙◌}
use aws_iprotate_python.Prelude.Dict.{lookup, insert, lookup-insert, insert-insert}
use aws_iprotate_python.Py.{ok}
use aws_iprotate_python.ConfigParser.{Section}
use aws_iprotate_python.Host.{Host}
use aws_iprotate_python.Config.{AwsConfig, ConfigLoader, load_aws_config, on_parser}
use aws_iprotate_python.Config.Defaults.{
  described, default_of, add_default, add_default-there, with_defaults, with_defaults_fixed,
  lookup-with_defaults, parser-load_aws_config, result-load_aws_config,
}

-- an optional option is there once the defaults are
has_default :
    (k v : String) (sec : Section)
    → default_of k ≡ some v
    → (w : String) × (lookup k (with_defaults sec) ≡ some w)
has_default k v sec h = by_option (lookup k sec) refl
  where
    by_option :
        (o : Option String)
        → lookup k sec ≡ o
        → (w : String) × (lookup k (with_defaults sec) ≡ some w)
    by_option none e = (v, ground (arith, lookup-with_defaults k sec, e, h))
    by_option (some w) e = (w, ground (arith, lookup-with_defaults k sec, e))

default_again :
    (k v : String) (sec : Section)
    → default_of k ≡ some v
    → add_default k v (with_defaults sec) ≡ with_defaults sec
default_again k v sec h =
    let (w, e) = has_default k v sec h in add_default-there k v w (with_defaults sec) e

pub with_defaults_idem : (sec : Section) → with_defaults (with_defaults sec) ≡ with_defaults sec
with_defaults_idem sec =
    with_defaults_fixed (with_defaults sec) (default_again "user" "" sec refl)
      (default_again "pass" "" sec refl) (default_again "apikey" "" sec refl)
      (default_again "whitelist" "" sec refl) (default_again "region" "us-east-1" sec refl)
      (default_again "instanceid" "" sec refl)

pub described-with_defaults :
    (name : String) (sec : Section) → described name (with_defaults sec) ≡ described name sec
described-with_defaults name sec = ground (
  arith,
  lookup-with_defaults "order" sec,
  lookup-with_defaults "accesskey" sec,
  lookup-with_defaults "secretkey" sec,
  lookup-with_defaults "instanceid" sec,
  lookup-with_defaults "region" sec,
  lookup-with_defaults "apikey" sec,
  lookup-with_defaults "whitelist" sec,
  lookup-with_defaults "user" sec,
  lookup-with_defaults "pass" sec,
)

-- The loader that `load_aws_config` leaves.
abbrev pub loaded : String → Section → ConfigLoader → ConfigLoader
loaded name sec loader = record loader { config = insert name (with_defaults sec) loader.config }

module _ {W : Type 0} (name : String) (loader : ConfigLoader) (h : Host W) (sec : Section)
    (aws : AwsConfig) (there : lookup name loader.config ≡ some sec)
    (reads : described name sec ≡ ok aws) where
  pub load_once : on_parser (load_aws_config name) loader h ≡ (ok (aws, loaded name sec loader), h)
  load_once = ground (
    arith,
    parser-load_aws_config name loader.config there,
    result-load_aws_config name loader.config there,
  )

-- A second one finds the same and leaves the same.
pub load_again :
    {W : Type 0} (name : String) (loader : ConfigLoader) (h : Host W) (sec : Section)
    (aws : AwsConfig)
    → described name sec ≡ ok aws
    → on_parser (load_aws_config name) (loaded name sec loader) h
      ≡ (ok (aws, loaded name sec loader), h)
load_again name loader h sec aws reads =
    load_once name (loaded name sec loader) h (with_defaults sec) aws
      (ground (arith, lookup-insert name name (with_defaults sec) loader.config, eq_refl name))
      (described-with_defaults name sec ∙ reads)
    ∙ ap (λ c. (ok (aws, record loader { config = c }), h))
        (ap (λ x. insert name x (insert name (with_defaults sec) loader.config))
            (with_defaults_idem sec)
          ∙ insert-insert name (with_defaults sec) (with_defaults sec) loader.config)
