-- ===== src/Config/Writes.antt =====
-- `write_changes` and `change_region` of functions/main.py: what a section of config.conf holds
-- after another parser's copy of it has been written over it.
use aws_iprotate_python.Prelude.{String, ◌≡◌, none, some, arith, ◌==◌, eq_iff, eq_refl, cond}
use aws_iprotate_python.Prelude.Dict.{
  lookup, insert, merge, IsDistinct, or_else, lookup-insert, lookup-merge, lookup-nil,
  insert-insert, insert-IsDistinct,
}
use aws_iprotate_python.Py.{ok, err, key_error}
use aws_iprotate_python.ConfigParser.{Section, Conf, option, set, set_value, section}
use aws_iprotate_python.Host.{Host}
use aws_iprotate_python.Config.{
  AwsConfig, ConfigLoader, section_or_new, update_section, set_loader_value, write_changes,
  change_region,
}
use aws_iprotate_python.Config.Defaults.{
  described, default_of, with_defaults, with_defaults-IsDistinct, parser-load_aws_config,
  result-load_aws_config, lookup-with_defaults,
}

option-update_section :
    (name : String) (target : Section) (temp : Conf) (s k : String)
    → IsDistinct target
    → option (update_section name target temp) s k
      ≡ cond (name == s) (or_else (lookup k target) (option temp s k)) (option temp s k)
unfolding update_section option
option-update_section name target temp s k d = ground (
  arith,
  eq_iff name s,
  lookup-insert name s (merge (section_or_new (lookup name temp)) target) temp,
  lookup-merge k (section_or_new (lookup name temp)) target d,
  lookup-nil {V = String} k,
)

module _ {W : Type 0} (name : String) (loader : ConfigLoader) (h : Host W) where
  -- If the loader has the section, with no option twice, it goes over the section in the file,
  -- option by option: what the loader has replaces what the file has, what only the file has stays,
  -- a section that the file lacks is made, and no other section and nothing else changes.
  pub write_changes_lem :
      (target : Section)
      → lookup name loader.config ≡ some target
      → IsDistinct target
      → (c : Conf) × (write_changes name loader h ≡ (ok tt, record h { conf = c }))
        × ((s k : String)
            → option c s k
              ≡ cond
                  (name == s)
                  (or_else (lookup k target) (option h.conf s k))
                  (option h.conf s k))
  unfolding write_changes section
  write_changes_lem target there d = (
    update_section name target h.conf,
    ground arith,
    λ s k. option-update_section name target h.conf s k d,
  )

  -- A section that the loader lacks raises KeyError, and the file is left alone.
  pub write_changes_missing :
      lookup name loader.config ≡ none → write_changes name loader h ≡ (err (key_error name), h)
  unfolding write_changes section
  write_changes_missing gone = ground arith

  -- the section that `change_region` writes: the defaults, and the region
  abbrev regioned : String → Section → Section
  regioned region sec = insert "region" region (with_defaults sec)

  change_region_runs :
      (region : String) (sec : Section) (aws : AwsConfig)
      → lookup name loader.config ≡ some sec
      → described name sec ≡ ok aws
      → let loader' = record loader { config = insert name (regioned region sec) loader.config } in
        change_region name (some region) loader h
        ≡ (ok loader', record h { conf = update_section name (regioned region sec) h.conf })
  unfolding change_region set_loader_value set_value set write_changes section
  change_region_runs region sec aws there d = ground (
    arith,
    result-load_aws_config name loader.config there,
    parser-load_aws_config name loader.config there,
    lookup-insert name name (with_defaults sec) loader.config,
    lookup-insert name name (regioned region sec) loader.config,
    eq_refl name,
    insert-insert name (with_defaults sec) (regioned region sec) loader.config,
  )

  lookup-regioned :
      (region k : String) (sec : Section)
      → lookup k (regioned region sec)
        ≡ cond ("region" == k) (some region) (or_else (lookup k sec) (default_of k))
  lookup-regioned region k sec =
      ground
        (arith, lookup-insert "region" k region (with_defaults sec), lookup-with_defaults k sec)

  -- If the loader has the section, with no option twice and with an order and the credentials,
  -- `change_region` returns and writes the new region, and with it every other option of the section
  -- as the loader knew it: only an option that the loader and the defaults lack keeps the file's
  -- value.
  pub change_region_lem :
      (region : String) (sec : Section) (aws : AwsConfig)
      → lookup name loader.config ≡ some sec
      → IsDistinct sec
      → described name sec ≡ ok aws
      → (loader' : ConfigLoader) × (c : Conf) × (change_region name (some region) loader h
          ≡ (ok loader', record h { conf = c }))
        × ((s k : String)
            → option c s k
              ≡ cond
                  (name == s)
                  (cond
                    ("region" == k)
                    (some region)
                    (or_else (lookup k sec) (or_else (default_of k) (option h.conf s k))))
                  (option h.conf s k))
  change_region_lem region sec aws there distinct d = (
    record loader { config = insert name (regioned region sec) loader.config },
    update_section name (regioned region sec) h.conf,
    change_region_runs region sec aws there d,
    λ s k. ground (
      arith,
      option-update_section name (regioned region sec) h.conf s k (
          insert-IsDistinct "region" region (with_defaults sec)
            (with_defaults-IsDistinct sec distinct)),
      lookup-regioned region k sec,
    ),
  )
