-- ===== src/Profile/Near.antt =====
-- This machine's end of the tunnel, after `generate_profile_config` of functions/main.py has
-- returned.
use aws_iprotate_python.Prelude.{
  ◌+◌, ℕ, String, ◌≡◌, refl, Bool-cases, Option-cases, inl, inr, none, some, arith, ◌∙◌, sym, subst,
}
use aws_iprotate_python.Prelude.Text.{int}
use aws_iprotate_python.Prelude.Dict.{
  Dict, lookup, insert, merge, lookup-insert_other, lookup-insert_same,
}
use aws_iprotate_python.Py.{Error, no_section, value_error, Result-cases, ok, err}
use aws_iprotate_python.Py.Ensures.{Ensures, Ensures-ok, Ensures-raises}
use aws_iprotate_python.ConfigParser.{Section}
use aws_iprotate_python.Host.{Host, Content, ini}
use aws_iprotate_python.Config.{AwsConfig, ApiConfig, ConfigLoader, wg_port_base}
use aws_iprotate_python.Config.Defaults.{described, result-load_aws_config, load_aws_config_missing}
use aws_iprotate_python.Config.Again.{loaded, load_once}
use aws_iprotate_python.Profile.{profile_name, has_auth, wg_config, generate_profile_config}
use aws_iprotate_python.Profile.Files.{
  tunnel_file, proxy_file, profile_files, generate_profile_config_runs, described_fields,
}
use aws_iprotate_python.Profile.Paths.{tunnel_path, tunnel-proxy, tunnel-directory}

-- the tunnel's file among those of the profile
lookup-profile_files :
    (api : ApiConfig) (aws : AwsConfig) (k : ℕ) (ip : String) (files : Dict Content)
    → lookup (tunnel_file api aws k ip).0 (merge files (profile_files api aws k ip))
      ≡ some (tunnel_file api aws k ip).1
unfolding merge
lookup-profile_files api aws k ip files = elim (Bool-cases (has_auth aws.user aws.pass)) [
  | inl e ↦
      rw (e, merge)
        (lookup-insert_other _ path _ _ (tunnel-directory order name profile "/shadowsocks.json")
          ∙ lookup-insert_other _ path _ _ (tunnel-directory order name profile "/auth.json")
          ∙ proxied)
  | inr e ↦
      rw (e, merge)
        (lookup-insert_other _ path _ _ (tunnel-directory order name profile "/shadowsocks.json")
          ∙ proxied)
]
  where
    order : String
    order = aws.order

    name : String
    name = aws.config_name

    profile : String
    profile = profile_name order name

    path : String
    path = tunnel_path order name

    tunnel : Content
    tunnel = (tunnel_file api aws k ip).1

    proxied :
        lookup path (insert (proxy_file aws k).0 (proxy_file aws k).1 (insert path tunnel files))
        ≡ some tunnel
    proxied =
        lookup-insert_other _ path _ _ (tunnel-proxy order name)
        ∙ lookup-insert_same path tunnel files

-- what `generate_profile_config` leaves: the near end, and a loader that has read the section
pub record NearEnd {W : Type 0} (name ip : String) (loader loader' : ConfigLoader) (h : Host W)
    : Type 0 where
  pub section : Section
  pub config : AwsConfig
  pub number : ℕ
  pub same : loader' ≡ loaded name section loader
  pub reads : described name section ≡ ok config
  pub named : config.config_name ≡ name
  pub numbered : int config.order ≡ some number
  pub near :
      lookup (tunnel_path config.order name) h.files
      ≡ some (ini (wg_config loader.api_config config.order name (wg_port_base + number) ip))

module _ {W : Type 0} (name ip : String) (loader : ConfigLoader) (h : Host W) where
  no_section_raises :
      lookup name loader.config ≡ none
      → (generate_profile_config name ip loader h).0 ≡ err (no_section name)
  unfolding generate_profile_config
  no_section_raises gone = ground (arith, load_aws_config_missing name loader.config gone)

  module _ (sec : Section) (there : lookup name loader.config ≡ some sec) where
    no_option_raises :
        (e : Error)
        → described name sec ≡ err e
        → (generate_profile_config name ip loader h).0 ≡ err e
    unfolding generate_profile_config
    no_option_raises e reads = ground (arith, result-load_aws_config name loader.config there)

    no_number_raises :
        (aws : AwsConfig)
        → described name sec ≡ ok aws
        → int aws.order ≡ none
        → (generate_profile_config name ip loader h).0 ≡ err (value_error aws.order)
    unfolding generate_profile_config
    no_number_raises aws reads numbered =
        ground (arith, load_once name loader h sec aws there reads)

    near_end :
        (aws : AwsConfig) (k : ℕ)
        → described name sec ≡ ok aws
        → int aws.order ≡ some k
        → Ensures (NearEnd name ip loader) (generate_profile_config name ip loader h)
    near_end aws k reads numbered =
        let files : Dict Content = merge h.files (profile_files loader.api_config aws k ip) in
        let named : aws.config_name ≡ name = (described_fields name sec aws reads).0 in
        subst (Ensures (NearEnd name ip loader))
          (sym (generate_profile_config_runs name loader sec aws k reads numbered ip h there))
          (Ensures-ok (loaded name sec loader) (record h { files = files })
            (record {
              section = sec;
              config = aws;
              number = k;
              same = refl;
              reads = reads;
              named = named;
              numbered = numbered;
              near =
                  subst
                    (λ n.
                      lookup (tunnel_path aws.order n) files
                      ≡ some (ini (wg_config loader.api_config aws.order n (wg_port_base + k) ip)))
                    named (lookup-profile_files loader.api_config aws k ip h.files);
            }))

  pub generate_profile_config-Ensures :
      Ensures (NearEnd name ip loader) (generate_profile_config name ip loader h)
  generate_profile_config-Ensures = elim (Option-cases (lookup name loader.config)) [
    | inl gone ↦ Ensures-raises _ _ (no_section_raises gone)
    | inr (sec, there) ↦ elim (Result-cases (described name sec)) [
      | inl (aws, reads) ↦ elim (Option-cases (int aws.order)) [
        | inl no_number ↦ Ensures-raises _ _ (no_number_raises sec there aws reads no_number)
        | inr (k, numbered) ↦ near_end sec there aws k reads numbered
      ]
      | inr (e, reads) ↦ Ensures-raises _ _ (no_option_raises sec there e reads)
    ]
  ]
