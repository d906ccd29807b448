-- ===== src/Profile.antt =====
-- The files that `class ConfigLoader` of functions/main.py generates for a profile.
pub mod Files
pub mod Contents
pub mod Paths
pub mod Near
pub mod Written
pub mod Frame
pub mod Tunnel
pub mod Ports
use aws_iprotate_python.Prelude.{
  ℕ, ◌+◌, String, ◌<>◌, Bool, true, Option, none, some, [], ◌∷◌, ◌++◌, ◌==◌, ◌&&◌, not,
  if◌then◌else◌,
}
use aws_iprotate_python.Prelude.Text.{str, int}
use aws_iprotate_python.Py.{value_error, Exec, pure, or_raise, except, ◌>>=◌, ◌>>◌}
use aws_iprotate_python.ConfigParser.{Conf, get}
use aws_iprotate_python.Host.{Host, Json, Fields, Items, ini, json, text, outside, write_file}
use aws_iprotate_python.Outside.{Net}
use aws_iprotate_python.Config.{
  ConfigLoader, ApiConfig, on_parser, load_aws_config, ss_base_port, wg_port_base, socks5_port_base,
  http_port_base,
}
use aws_iprotate_python.Connection.{new_firewall, delete_rules, apply_whitelist, Firewall}

abbrev pub profile_name : String → String → String
profile_name order name = "iprotate_" <> order <> "_" <> name

abbrev pub interface_name : String → String → String
interface_name order name = "ip_" <> order <> "_" <> name

abbrev pub interface_ip : String → String
interface_ip order = "10.0." <> order <> ".2/32"

abbrev pub peer_ip : String → String
peer_ip order = "10.0." <> order <> ".1/32"

-- `user and passwd`
abbrev pub has_auth : String → String → Bool
has_auth user pass = not (user == "") && not (pass == "")

-- wg0.conf of the instance: the other end of the tunnel
unfoldable pub peer_config : ApiConfig → String → Conf
peer_config api order =
    (
      "Interface",
      ("privatekey", api.peer_wg_private_key)
          ∷ ("listenport", "51821")
          ∷ ("address", peer_ip order)
          ∷ (
            "postup",
            "ufw route allow in on wg0 out on eth0; " <> "ufw default allow incoming" <> "; "
                <> "sysctl -w net.ipv4.ip_forward=1" <> "; "
                <> "iptables -t nat -I POSTROUTING -o eth0 -j MASQUERADE",
          )
          ∷ (
            "predown",
            "ufw route delete allow in on wg0 out on eth0; "
                <> "iptables -t nat -D POSTROUTING -o eth0 -j MASQUERADE",
          )
          ∷ ("mtu", "1500")
          ∷ [],
    )
    ∷ ("Peer", ("publickey", api.interface_wg_public_key) ∷ ("allowedips", interface_ip order) ∷ [])
    ∷ []

-- the tunnel's end on this machine; the endpoint is there if the instance has an address
unfoldable pub wg_config : ApiConfig → String → String → ℕ → String → Conf
wg_config api order name port newip =
    let host_ip = "10.0." <> order <> ".2" in
    let interface = interface_name order name in
    (
      "Interface",
      ("privatekey", api.interface_wg_private_key)
          ∷ ("listenport", str port)
          ∷ ("address", interface_ip order)
          ∷ (
            "postup",
            "ip rule add from " <> host_ip <> " table " <> order <> "; "
                <> "ip route add default via 10.0." <> order <> ".1 dev " <> interface <> " table "
                <> order <> "; " <> "wg set " <> interface <> " peer " <> api.peer_wg_public_key
                <> " allowed-ips " <> "0.0.0.0/0",
          )
          ∷ (
            "predown",
            "wg set "
                <> interface
                <> " peer "
                <> api.peer_wg_public_key
                <> " allowed-ips "
                <> peer_ip order,
          )
          ∷ ("postdown", "ip rule del table " <> order)
          ∷ ("mtu", "1500")
          ∷ [],
    )
    ∷ (
      "Peer",
      (if newip == "" then [] else ("endpoint", newip <> ":" <> "51821") ∷ [])
          ++ ("publickey", api.peer_wg_public_key)
            ∷ ("allowedips", peer_ip order)
            ∷ ("persistentkeepalive", "25")
            ∷ [],
    )
    ∷ []

-- the lines of the 3proxy configuration
unfoldable pub proxy_config : String → String → ℕ → String → String → String
proxy_config order name port user pass =
    let host_ip = "10.0." <> order <> ".2" in
    "nserver 8.8.8.8\nnserver 8.8.4.4\nnscache 65536\nallow *\n"
    <> "logformat \"G%H:%M:%S.%. %d-%m-%y %z  %N.%p %E %U %C:%c %R:%r %O %I %h %T\"\n"
    <> "log \"/opt/cloud-iprotate/profile_config/"
    <> profile_name order name
    <> "/log.txt\"\n"
    <> (if has_auth user pass then "auth strong\n" else "")
    <> "proxy -n -p"
    <> str port
    <> " -i0.0.0.0"
    <> " -e"
    <> host_ip
    <> "\n"
    <> (if has_auth user pass then "users " <> user <> ":CL:" <> pass <> "\n" else "")

-- a local listener, with the path of the credentials if there are any
unfoldable pub local_json : ℕ → Option String → Json
local_json port auth_path = Json.obj (
    Fields.field "local_address" (Json.str "0.0.0.0") (
      Fields.field "local_port" (Json.num port) (
        Fields.field "mode" (Json.str "tcp_and_udp") (
          Fields.field "protocol" (Json.str "socks") (elim auth_path [
            | none ↦ Fields.end
            | some path ↦ Fields.field "socks5_auth_config_path" (Json.str path) Fields.end
          ])))))

unfoldable pub ss_json : ApiConfig → ℕ → ℕ → Option String → Json
unfolding local_json
ss_json api server_port local_port auth_path = Json.obj (
    Fields.field "server" (Json.str "localhost") (
      Fields.field "server_port" (Json.num server_port) (
        Fields.field "password" (Json.str api.interface_wg_private_key) (
          Fields.field "method" (Json.str "aes-128-gcm") (
            Fields.field "mode" (Json.str "tcp_and_udp") (
              Fields.field "fast_open" (Json.bool true) (
                Fields.field "locals"
                  (Json.arr (Items.cons (local_json local_port auth_path) Items.nil))
                  Fields.end)))))))

unfoldable pub auth_json : String → String → Json
auth_json user pass = Json.obj (
    Fields.field "password"
      (Json.obj (
        Fields.field "users"
          (Json.arr (
            Items.cons
              (Json.obj (
                Fields.field "user_name" (Json.str user)
                  (Fields.field "password" (Json.str pass) Fields.end)))
              Items.nil))
          Fields.end))
      Fields.end)

module _ {W : Type 0} where
  -- `int(order)`
  abbrev pub as_int : String → Exec (Host W) ℕ
  as_int order = or_raise (int order) (value_error order)

  unfoldable pub generate_3proxy_config : String → ConfigLoader → Exec (Host W) ConfigLoader
  generate_3proxy_config name loader = do
    (aws, loader') ← on_parser (load_aws_config name) loader
    order ← as_int aws.order
    let profile = profile_name aws.order name
    write_file ("profile_config/" <> profile <> "/proxy_" <> profile <> ".cfg")
        (text (proxy_config aws.order name (http_port_base + order) aws.user aws.pass))
    pure loader'

  -- the user and the password are read before the defaults are set
  unfoldable pub generate_shadowsocks_config : String → ConfigLoader → Exec (Host W) ConfigLoader
  generate_shadowsocks_config name loader = do
    (user, loader₁) ← on_parser (get name "user") loader
    (pass, loader₂) ← on_parser (get name "pass") loader₁
    (aws, loader') ← on_parser (load_aws_config name) loader₂
    order ← as_int aws.order
    let directory = "/opt/cloud-iprotate/profile_config/" <> profile_name aws.order name
    let ss = ss_json loader'.api_config (ss_base_port + order) (socks5_port_base + order)
    if has_auth user pass
        then (do
          write_file (directory <> "/auth.json") (json (auth_json user pass))
          write_file (directory <> "/shadowsocks.json")
              (json (ss (some (directory <> "/auth.json")))))
        else write_file (directory <> "/shadowsocks.json") (json (ss none))
    pure loader'

  unfoldable pub generate_profile_config :
      String → String → ConfigLoader → Exec (Host W) ConfigLoader
  unfolding generate_3proxy_config generate_shadowsocks_config
  generate_profile_config name newip loader = do
    (aws, loader₁) ← on_parser (load_aws_config name) loader
    order ← as_int aws.order
    let path =
        "profile_config/"
        <> profile_name aws.order name
        <> "/"
        <> interface_name aws.order name
        <> ".conf"
    write_file path (ini (wg_config loader₁.api_config aws.order name (wg_port_base + order) newip))
    loader₂ ← generate_3proxy_config name loader₁
    generate_shadowsocks_config name loader₂

  unfoldable pub write_peer_config : String → ConfigLoader → Exec (Host W) ConfigLoader
  write_peer_config name loader = do
    (aws, loader') ← on_parser (load_aws_config name) loader
    write_file ("/opt/cloud-iprotate/profile_config/" <> profile_name aws.order name <> "/wg0.conf")
        (ini (peer_config loader'.api_config aws.order))
    pure loader'

module _ {W : Type 0} (net : Net W) where
  abbrev pub renew_rules : Firewall → Exec (Host W) Unit
  renew_rules fw = do outside (delete_rules net fw); outside (apply_whitelist net fw)

  -- the firewall is set anew; a failure is logged and passed over
  unfoldable pub refresh_firewall : String → Exec (Host W) Unit
  refresh_firewall name = except (do fw ← new_firewall net name; renew_rules fw) (λ _. pure tt)

  unfoldable pub generate_peer_config : String → ConfigLoader → Exec (Host W) ConfigLoader
  generate_peer_config name loader = do refresh_firewall name; write_peer_config name loader
