-- ===== src/Profile/Files.antt =====
-- The files that `generate_profile_config` of functions/main.py leaves.
use aws_iprotate_python.Prelude.{
  ℕ, ◌+◌, String, ◌<>◌, ◌≡◌, none, some, [], ◌∷◌, arith, if◌then◌else◌, eq_refl,
}
use aws_iprotate_python.Prelude.Text.{int}
use aws_iprotate_python.Prelude.Dict.{Dict, lookup, insert, lookup-insert, merge}
use aws_iprotate_python.Py.{ok}
use aws_iprotate_python.ConfigParser.{Section, get, get_option}
use aws_iprotate_python.Host.{Host, Content, ini, json, text}
use aws_iprotate_python.Config.{
  AwsConfig, ApiConfig, ConfigLoader, on_parser, ss_base_port, wg_port_base, socks5_port_base,
  http_port_base,
}
use aws_iprotate_python.Config.Defaults.{described, value_or, with_defaults, lookup-with_defaults}
use aws_iprotate_python.Config.Again.{loaded, load_once, load_again}
use aws_iprotate_python.Profile.{
  profile_name, interface_name, has_auth, wg_config, proxy_config, ss_json, auth_json,
  generate_3proxy_config, generate_shadowsocks_config, generate_profile_config,
}

-- The paths and the contents, in the order in which they are written.
abbrev pub tunnel_file : ApiConfig → AwsConfig → ℕ → String → String × Content
tunnel_file api aws k newip = (
  "profile_config/"
      <> profile_name aws.order aws.config_name
      <> "/"
      <> interface_name aws.order aws.config_name
      <> ".conf",
  ini (wg_config api aws.order aws.config_name (wg_port_base + k) newip),
)

abbrev pub proxy_file : AwsConfig → ℕ → String × Content
proxy_file aws k = (
  "profile_config/"
      <> profile_name aws.order aws.config_name
      <> "/proxy_"
      <> profile_name aws.order aws.config_name
      <> ".cfg",
  text (proxy_config aws.order aws.config_name (http_port_base + k) aws.user aws.pass),
)

abbrev pub socks5_files : ApiConfig → AwsConfig → ℕ → Dict Content
socks5_files api aws k =
    let directory =
      "/opt/cloud-iprotate/profile_config/" <> profile_name aws.order aws.config_name in
    let ss = ss_json api (ss_base_port + k) (socks5_port_base + k) in
    if has_auth aws.user aws.pass
    then (directory <> "/auth.json", json (auth_json aws.user aws.pass))
      ∷ (directory <> "/shadowsocks.json", json (ss (some (directory <> "/auth.json"))))
      ∷ []
    else (directory <> "/shadowsocks.json", json (ss none)) ∷ []

abbrev pub profile_files : ApiConfig → AwsConfig → ℕ → String → Dict Content
profile_files api aws k newip =
    tunnel_file api aws k newip ∷ proxy_file aws k ∷ socks5_files api aws k

pub described_fields :
    (name : String) (sec : Section) (aws : AwsConfig)
    → described name sec ≡ ok aws
    → (aws.config_name ≡ name)
      × (aws.user ≡ value_or "user" "" sec)
      × (aws.pass ≡ value_or "pass" "" sec)
described_fields name sec aws reads = ground arith

module _ {W : Type 0} (name : String) (loader : ConfigLoader) (sec : Section) (aws : AwsConfig)
    (k : ℕ) (reads : described name sec ≡ ok aws) (numbered : int aws.order ≡ some k) where
  -- on a loader that has read the section before
  generate_3proxy_config_lem :
      (h : Host W)
      → aws.config_name ≡ name
      → generate_3proxy_config name (loaded name sec loader) h ≡ (
        ok (loaded name sec loader),
        record h { files = insert (proxy_file aws k).0 (proxy_file aws k).1 h.files },
      )
  unfolding generate_3proxy_config
  generate_3proxy_config_lem h named =
      ground (arith, load_again name loader h sec aws reads, numbered, named)

  reads_user :
      (h : Host W)
      → on_parser (get name "user") (loaded name sec loader) h
        ≡ (ok (aws.user, loaded name sec loader), h)
  unfolding get get_option
  reads_user h = ground (
    arith,
    (described_fields name sec aws reads).1,
    lookup-insert name name (with_defaults sec) loader.config,
    eq_refl name,
    lookup-with_defaults "user" sec,
  )

  reads_pass :
      (h : Host W)
      → on_parser (get name "pass") (loaded name sec loader) h
        ≡ (ok (aws.pass, loaded name sec loader), h)
  unfolding get get_option
  reads_pass h = ground (
    arith,
    (described_fields name sec aws reads).2,
    lookup-insert name name (with_defaults sec) loader.config,
    eq_refl name,
    lookup-with_defaults "pass" sec,
  )

  generate_shadowsocks_config_lem :
      (h : Host W)
      → generate_shadowsocks_config name (loaded name sec loader) h ≡ (
        ok (loaded name sec loader),
        record h { files = merge h.files (socks5_files loader.api_config aws k) },
      )
  unfolding generate_shadowsocks_config merge
  generate_shadowsocks_config_lem h = ground (
    arith,
    (described_fields name sec aws reads).0,
    reads_user h,
    reads_pass h,
    load_again name loader h sec aws reads,
    numbered,
  )

  -- the whole, with the files by the functions that make their contents
  pub generate_profile_config_runs :
      (newip : String) (h : Host W)
      → lookup name loader.config ≡ some sec
      → generate_profile_config name newip loader h ≡ (
        ok (loaded name sec loader),
        record h { files = merge h.files (profile_files loader.api_config aws k newip) },
      )
  unfolding generate_profile_config merge
  generate_profile_config_runs newip h there =
      let tunnel : String × Content = tunnel_file loader.api_config aws k newip in
      let proxy : String × Content = proxy_file aws k in
      let h₁ : Host W = record h { files = insert tunnel.0 tunnel.1 h.files } in
      let h₂ : Host W = record h₁ { files = insert proxy.0 proxy.1 h₁.files } in
      ground (
        arith,
        (described_fields name sec aws reads).0,
        load_once name loader h sec aws there reads,
        generate_3proxy_config_lem h₁,
        generate_shadowsocks_config_lem h₂,
        numbered,
      )
