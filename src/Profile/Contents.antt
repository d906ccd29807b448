-- ===== src/Profile/Contents.antt =====
-- The files of a profile, written out: what `generate_profile_config` of functions/main.py leaves.
use aws_iprotate_python.Prelude.{
  ℕ, ◌+◌, String, ◌<>◌, Bool, true, ◌≡◌, refl, some, [], ◌∷◌, ◌++◌, ◌==◌, ◌&&◌, not, if◌then◌else◌,
  ap, ◌∙◌,
}
use aws_iprotate_python.Prelude.Text.{str, int}
use aws_iprotate_python.Prelude.Dict.{Dict, lookup, merge}
use aws_iprotate_python.Py.{ok}
use aws_iprotate_python.ConfigParser.{Conf, Section}
use aws_iprotate_python.Host.{Host, Content, Json, Fields, Items, ini, json, text}
use aws_iprotate_python.Config.{ApiConfig, AwsConfig, ConfigLoader}
use aws_iprotate_python.Config.Defaults.{described}
use aws_iprotate_python.Config.Again.{loaded}
use aws_iprotate_python.Profile.{
  wg_config, proxy_config, ss_json, local_json, auth_json, generate_profile_config,
}
use aws_iprotate_python.Profile.Files.{profile_files, generate_profile_config_runs}

-- WireGuard: this machine's private key, the port 40000 + k, the address, the rules for the table of
-- the order, and as the peer the instance's public key; with an address, the endpoint at port 51821.
abbrev pub expected_tunnel : ApiConfig → String → String → ℕ → String → Conf
expected_tunnel api o name k ip =
    let dev : String = "ip_" <> o <> "_" <> name in
    let from : String = "10.0." <> o <> ".2" in
    (
      "Interface",
      ("privatekey", api.interface_wg_private_key)
          ∷ ("listenport", str (40000 + k))
          ∷ ("address", "10.0." <> o <> ".2/32")
          ∷ (
            "postup",
            "ip rule add from " <> from <> " table " <> o <> "; "
                <> "ip route add default via 10.0." <> o <> ".1 dev " <> dev <> " table " <> o
                <> "; " <> "wg set " <> dev <> " peer " <> api.peer_wg_public_key <> " allowed-ips "
                <> "0.0.0.0/0",
          )
          ∷ (
            "predown",
            "wg set " <> dev <> " peer " <> api.peer_wg_public_key <> " allowed-ips " <> "10.0."
                <> o <> ".1/32",
          )
          ∷ ("postdown", "ip rule del table " <> o)
          ∷ ("mtu", "1500")
          ∷ [],
    )
    ∷ (
      "Peer",
      (if ip == "" then [] else ("endpoint", ip <> ":" <> "51821") ∷ [])
          ++ ("publickey", api.peer_wg_public_key)
            ∷ ("allowedips", "10.0." <> o <> ".1/32")
            ∷ ("persistentkeepalive", "25")
            ∷ [],
    )
    ∷ []

-- 3proxy: the port 60000 + k; with a user and a password it demands them, else it is open.
abbrev pub expected_proxy : String → String → ℕ → String → String → Bool → String
expected_proxy o name k user pass secured =
    "nserver 8.8.8.8\nnserver 8.8.4.4\nnscache 65536\nallow *\n"
    <> "logformat \"G%H:%M:%S.%. %d-%m-%y %z  %N.%p %E %U %C:%c %R:%r %O %I %h %T\"\n"
    <> "log \"/opt/cloud-iprotate/profile_config/"
    <> ("iprotate_" <> o <> "_" <> name)
    <> "/log.txt\"\n"
    <> (if secured then "auth strong\n" else "")
    <> "proxy -n -p"
    <> str (60000 + k)
    <> " -i0.0.0.0"
    <> " -e"
    <> ("10.0." <> o <> ".2")
    <> "\n"
    <> (if secured then "users " <> user <> ":CL:" <> pass <> "\n" else "")

-- shadowsocks: the server at port 30000 + k, its password, and one local listener at port 50000 + k;
-- the fields behind those of the listener come last.
abbrev pub expected_ss : ApiConfig → ℕ → Fields → Json
expected_ss api k auth = Json.obj (
    Fields.field "server" (Json.str "localhost") (
      Fields.field "server_port" (Json.num (30000 + k)) (
        Fields.field "password" (Json.str api.interface_wg_private_key) (
          Fields.field "method" (Json.str "aes-128-gcm") (
            Fields.field "mode" (Json.str "tcp_and_udp") (
              Fields.field "fast_open" (Json.bool true) (
                Fields.field "locals"
                  (Json.arr (
                    Items.cons
                      (Json.obj (
                        Fields.field "local_address" (Json.str "0.0.0.0") (
                          Fields.field "local_port" (Json.num (50000 + k)) (
                            Fields.field "mode" (Json.str "tcp_and_udp")
                              (Fields.field "protocol" (Json.str "socks") auth)))))
                      Items.nil))
                  Fields.end)))))))

-- the credentials of the listener: one user
abbrev pub expected_auth : String → String → Json
expected_auth user pass = Json.obj (
    Fields.field "password"
      (Json.obj (
        Fields.field "users"
          (Json.arr (
            Items.cons
              (Json.obj (
                Fields.field "user_name" (Json.str user)
                  (Fields.field "password" (Json.str pass) Fields.end)))
              Items.nil))
          Fields.end))
      Fields.end)

-- The specification: all files of the profile. The credentials are there if there are a user and a
-- password, and then the listener names their file.
abbrev pub expected_files : ApiConfig → AwsConfig → ℕ → String → Dict Content
expected_files api aws k ip =
    let o : String = aws.order in
    let name : String = aws.config_name in
    let profile : String = "iprotate_" <> o <> "_" <> name in
    let directory : String = "/opt/cloud-iprotate/profile_config/" <> profile in
    let secured : Bool = not (aws.user == "") && not (aws.pass == "") in
    (
      "profile_config/" <> profile <> "/" <> ("ip_" <> o <> "_" <> name) <> ".conf",
      ini (expected_tunnel api o name k ip),
    )
    ∷ (
      "profile_config/" <> profile <> "/proxy_" <> profile <> ".cfg",
      text (expected_proxy o name k aws.user aws.pass secured),
    )
    ∷ (if secured
        then (directory <> "/auth.json", json (expected_auth aws.user aws.pass))
          ∷ (
            directory <> "/shadowsocks.json",
            json (
                expected_ss api k (
                  Fields.field "socks5_auth_config_path" (Json.str (directory <> "/auth.json"))
                    Fields.end)),
          )
          ∷ []
        else (directory <> "/shadowsocks.json", json (expected_ss api k Fields.end)) ∷ [])

files-expected :
    (api : ApiConfig) (aws : AwsConfig) (k : ℕ) (ip : String)
    → profile_files api aws k ip ≡ expected_files api aws k ip
unfolding wg_config proxy_config ss_json local_json auth_json
files-expected api aws k ip = refl

-- Where the loader has the section of a profile with the required options and a number as its
-- order, `generate_profile_config` returns; it has written the files of the specification and
-- nothing else, and the loader has the defaults of the section.
pub generate_profile_config_lem :
    {W : Type 0} (name : String) (loader : ConfigLoader) (sec : Section) (aws : AwsConfig) (k : ℕ)
    → described name sec ≡ ok aws
    → int aws.order ≡ some k
    → (ip : String) (h : Host W) → lookup name loader.config ≡ some sec
    → generate_profile_config name ip loader h ≡ (
      ok (loaded name sec loader),
      record h { files = merge h.files (expected_files loader.api_config aws k ip) },
    )
generate_profile_config_lem name loader sec aws k reads numbered ip h there =
    generate_profile_config_runs name loader sec aws k reads numbered ip h there
    ∙ ap (λ files. (ok (loaded name sec loader), record h { files = merge h.files files }))
        (files-expected loader.api_config aws k ip)
