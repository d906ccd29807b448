-- ===== src/Connection.antt =====
-- `class Firewall` and `class Socks5` of functions/connection.py.
pub mod Rules
pub mod Exact
pub mod Made
use mathlib.Core.List.{reverse}
use aws_iprotate_python.Prelude.{
  ℕ, ◌+◌, String, ◌<>◌, Bool, true, false, Option, none, some, List, [], ◌∷◌, ◌==◌, ◌||◌,
  if◌then◌else◌,
}
use aws_iprotate_python.Prelude.Text.{str, int, split, strip, ends_with}
use aws_iprotate_python.Py.{
  Error, value_error, raised, message, Result, ok, err, Exec, pure, raise, or_raise, except, modify,
  for_each, ◌>>=◌, ◌>>◌,
}
use aws_iprotate_python.ConfigParser.{Conf}
use aws_iprotate_python.Host.{Host, ini, outside, write_file, parser}
use aws_iprotate_python.Outside.{Proxy, Net}
use aws_iprotate_python.Config.{
  AwsConfig, new_loader, on_parser, load_api_config, load_aws_config, socks5_port_base,
  http_port_base, wg_port_base, ss_base_port,
}

-- `whitelist` is `none` for the empty text, which is not split
pub record Firewall : Type 0 where
  pub config_name : String
  pub aws_config : AwsConfig
  pub order : ℕ
  pub app_name : String
  pub wgport : ℕ
  pub socks5port : ℕ
  pub httpport : ℕ
  pub ssport : ℕ
  pub whitelist : Option (List String)

abbrev pub app_of : ℕ → String
app_of order = "iprotate_" <> str order

-- the ufw application profile that the constructor writes
unfoldable pub app_config : ℕ → Conf
app_config order =
    let http = str (http_port_base + order) in
    let socks5 = str (socks5_port_base + order) in
    (
      app_of order,
      ("title", app_of order)
          ∷ ("description", "ufw application config for " <> app_of order)
          ∷ ("ports", socks5 <> "," <> http <> "/tcp|" <> socks5 <> "/udp")
          ∷ [],
    )
    ∷ []

-- `re.search(rf" {app_name}$", rule)`: `$` also stands before a last newline
unfoldable pub rule_matches : String → String → Bool
rule_matches app_name rule =
    ends_with rule (" " <> app_name) || ends_with rule (" " <> app_name <> "\n")

module _ {W : Type 0} (net : Net W) where
  -- `os.system(command)`
  abbrev pub shell : String → Exec W Unit
  shell command = modify (net.os_system command)

  -- the constructor from `self.order` on; the second command is no f-string in the source: the
  -- braces reach the shell
  unfoldable pub set_up_firewall : String → AwsConfig → Exec (Host W) Firewall
  set_up_firewall name aws = do
    order ← or_raise (int aws.order) (value_error aws.order)
    write_file ("/etc/ufw/applications.d/" <> app_of order) (ini (app_config order))
    outside (shell "ufw app list > /dev/null 2>&1")
    outside (shell "ufw app update iprotate_{self.order} > /dev/null 2>&1")
    pure (record {
      config_name = name;
      aws_config = aws;
      order = order;
      app_name = app_of order;
      wgport = wg_port_base + order;
      socks5port = socks5_port_base + order;
      httpport = http_port_base + order;
      ssport = ss_base_port + order;
      whitelist = if aws.whitelist == "" then none else some (split b',' aws.whitelist);
    })

  unfoldable pub new_firewall : String → Exec (Host W) Firewall
  new_firewall name = do
    loader ← new_loader
    (_, loader₁) ← on_parser load_api_config loader
    (aws, _) ← on_parser (load_aws_config name) loader₁
    set_up_firewall name aws

  -- one rule of the loop, by its index
  unfoldable pub delete_matching : String → ℕ × String → Exec W Unit
  delete_matching app_name (index, rule) =
      if rule_matches app_name rule then net.ufw_delete index else pure tt

  -- the rules from the last to the first
  unfoldable pub delete_rules : Firewall → Exec W Unit
  delete_rules fw = do rules ← net.ufw_rules; for_each (reverse rules) (delete_matching fw.app_name)

  -- one address of the loop; what `ip_network` refuses is passed over
  unfoldable pub allow_address : String → String → Exec W Unit
  allow_address app_name entry =
      let ip = strip entry in
      if net.ip_network ip
      then shell ("ufw allow from " <> ip <> " to any app " <> app_name <> " > /dev/null 2>&1")
      else pure tt

  unfoldable pub apply_entries : String → Option (List String) → Exec W Unit
  apply_entries app_name none =
      shell ("ufw allow from any to any app " <> app_name <> " > /dev/null 2>&1")
  apply_entries app_name (some entries) = do
    for_each entries (allow_address app_name)
    shell ("ufw reject from any to any app " <> app_name <> " > /dev/null 2>&1")

  unfoldable pub apply_whitelist : Firewall → Exec W Unit
  unfolding apply_entries
  apply_whitelist fw = apply_entries fw.app_name fw.whitelist

  -- `Socks5.get_external_ip`
  unfoldable pub get_external_ip : Proxy → Exec W String
  get_external_ip proxy =
      except (net.fetch_ip proxy)
        (λ e. raise (raised ("Failed to get external IP, error: " <> message e)))

-- `kwargs.get("proxy_user") or None`
abbrev pub text_or_none : Option String → Option String
text_or_none none = none
text_or_none (some s) = if s == "" then none else some s

-- `Socks5(...)`
unfoldable pub new_socks5 : String → ℕ → Option String → Option String → Proxy
new_socks5 host port user pass = record {
  host = host;
  port = port;
  user = text_or_none user;
  pass = text_or_none pass;
}
