-- ===== src/Config.antt =====
-- `class ConfigLoader` of functions/main.py: what it reads from config.conf and writes back. The
-- object is the parser it holds, `self.config`, beside what its constructor has loaded; a method
-- that changes the parser hands the new one on. The files that it generates are in Profile.
pub mod Defaults
pub mod Again
pub mod Race
pub mod Stable
pub mod Sets
pub mod InStep
pub mod Numbering
pub mod Filled
pub mod Keys
pub mod Orders
pub mod Writes
pub mod Frame
use aws_iprotate_python.Prelude.{
  ℕ, ◌+◌, String, Option, none, some, List, [], ◌∷◌, ◌++◌, ◌==◌, if◌then◌else◌, true, false,
}
use aws_iprotate_python.Prelude.Dict.{Dict, lookup, insert, merge}
use aws_iprotate_python.Prelude.Text.{str}
use aws_iprotate_python.Py.{Result, ok, err, Exec, pure, raise, ◌>>=◌, ◌>>◌}
use aws_iprotate_python.ConfigParser.{
  Section, Conf, sections, has_option, get, set, set_value, section,
}
use aws_iprotate_python.Host.{Host, read_conf, write_conf, parser}

-- what `load_api_config` returns
pub record ApiConfig : Type 0 where
  pub apikey : String
  pub port : String
  pub interface_wg_private_key : String
  pub interface_wg_public_key : String
  pub peer_wg_public_key : String
  pub peer_wg_private_key : String
  pub publicip : String
  pub ssh_key_path : String

-- what `load_aws_config` returns
pub record AwsConfig : Type 0 where
  pub config_name : String
  pub order : String
  pub access_key : String
  pub secret_key : String
  pub instance_id : String
  pub region : String
  pub apikey : String
  pub whitelist : String
  pub user : String
  pub pass : String

unfoldable pub load_api_config : Exec Conf ApiConfig
unfolding get
load_api_config = do
  apikey ← get "api" "apikey"
  port ← get "api" "port"
  interface_private ← get "api" "interfacewgprivatekey"
  interface_public ← get "api" "interfacewgpublickey"
  peer_public ← get "api" "peerwgpublickey"
  peer_private ← get "api" "peerwgprivatekey"
  publicip ← get "api" "publicip"
  ssh_key_path ← get "api" "sshkeypath"
  pure (record {
    apikey = apikey;
    port = port;
    interface_wg_private_key = interface_private;
    interface_wg_public_key = interface_public;
    peer_wg_public_key = peer_public;
    peer_wg_private_key = peer_private;
    publicip = publicip;
    ssh_key_path = ssh_key_path;
  })

-- `if not self.config.has_option(name, key): self.config.set(name, key, value)`
unfoldable pub default_option : String → String → String → Exec Conf (Unit {0})
default_option name key value c = if has_option name key c then (ok tt, c) else set name key value c

-- the dict that `load_aws_config` builds
unfoldable pub read_aws_config : String → Exec Conf AwsConfig
read_aws_config name = do
  order ← get name "order"
  access_key ← get name "accesskey"
  secret_key ← get name "secretkey"
  instance_id ← get name "instanceid"
  region ← get name "region"
  apikey ← get name "apikey"
  whitelist ← get name "whitelist"
  user ← get name "user"
  pass ← get name "pass"
  pure (record {
    config_name = name;
    order = order;
    access_key = access_key;
    secret_key = secret_key;
    instance_id = instance_id;
    region = region;
    apikey = apikey;
    whitelist = whitelist;
    user = user;
    pass = pass;
  })

unfoldable pub load_aws_config : String → Exec Conf AwsConfig
load_aws_config name = do
  default_option name "user" ""
  default_option name "pass" ""
  default_option name "apikey" ""
  default_option name "whitelist" ""
  default_option name "region" "us-east-1"
  default_option name "instanceid" ""
  read_aws_config name

module _ {W : Type 0} where
  unfoldable pub reset_aws_config_order : String → Conf → Exec (Host W) Conf
  reset_aws_config_order name c = do
    (_, c') ← parser (set name "order" "") c
    write_conf c'
    pure c'

  unfoldable pub reorder_aws_config : String → ℕ → Conf → Exec (Host W) Conf
  reorder_aws_config name order c = do
    (_, c') ← parser (set name "order" (str order)) c
    write_conf c'
    pure c'

  -- one round of the loop of `load_all_aws_config`
  unfoldable pub number_config : String → ℕ → Conf → Exec (Host W) (AwsConfig × Conf)
  number_config name counter c = do
    c₁ ← reset_aws_config_order name c
    c₂ ← reorder_aws_config name counter c₁
    parser (load_aws_config name) c₂

  -- the loop, over the names that are left
  unfoldable pub load_configs :
      List String → ℕ → List AwsConfig → Conf → Exec (Host W) (List AwsConfig × Conf)
  load_configs [] counter aws_configs c = pure (aws_configs, c)
  load_configs (name ∷ names) counter aws_configs c = elim (name == "api") [
    | true ↦ load_configs names counter aws_configs c
    | false ↦ do
      (aws, c') ← number_config name counter c
      load_configs names (counter + 1) (aws_configs ++ aws ∷ []) c'
  ]

  unfoldable pub load_all_aws_config : Conf → Exec (Host W) (List AwsConfig × Conf)
  load_all_aws_config c = load_configs (sections c) 1 [] c

pub record ConfigLoader : Type 0 where
  pub config : Conf
  pub api_config : ApiConfig
  pub all_aws_configs : List AwsConfig

abbrev pub ss_base_port : ℕ
ss_base_port = 30000

abbrev pub wg_port_base : ℕ
wg_port_base = 40000

abbrev pub socks5_port_base : ℕ
socks5_port_base = 50000

abbrev pub http_port_base : ℕ
http_port_base = 60000

-- `self.config.read` over a parser that holds sections already merges the file into it.
unfoldable pub merge_conf : Conf → Conf → Conf
merge_conf old [] = old
merge_conf old ((name, sec) ∷ new) = elim (lookup name old) [
  | none ↦ merge_conf (insert name sec old) new
  | some before ↦ merge_conf (insert name (merge before sec) old) new
]

-- `if name not in temp_config: temp_config[name] = {}`, then the loop over the target section
abbrev pub section_or_new : Option Section → Section
section_or_new none = []
section_or_new (some sec) = sec

unfoldable pub update_section : String → Section → Conf → Conf
update_section name target temp =
    insert name (merge (section_or_new (lookup name temp)) target) temp

module _ {W : Type 0} where
  -- `ConfigLoader()`: it also numbers the sections and writes the file
  unfoldable pub new_loader : Exec (Host W) ConfigLoader
  unfolding load_api_config load_all_aws_config
  new_loader = do
    c ← read_conf
    (api, c') ← parser load_api_config c
    (configs, c'') ← load_all_aws_config c'
    pure (record { config = c''; api_config = api; all_aws_configs = configs })

  unfoldable pub reload_config : ConfigLoader → Exec (Host W) ConfigLoader
  unfolding load_api_config load_all_aws_config merge_conf
  reload_config loader = do
    file ← read_conf
    (api, c) ← parser load_api_config (merge_conf loader.config file)
    (configs, c') ← load_all_aws_config c
    pure (record { config = c'; api_config = api; all_aws_configs = configs })

  -- A method of the parser, on the loader's own.
  abbrev pub on_parser :
      {A : Type 0} → Exec Conf A → ConfigLoader → Exec (Host W) (A × ConfigLoader)
  on_parser m loader = do (a, c) ← parser m loader.config; pure (a, record loader { config = c })

  unfoldable pub set_loader_value :
      String → String → Option String → ConfigLoader → Exec (Host W) ConfigLoader
  unfolding set_value
  set_loader_value name key value loader = do
    (_, loader') ← on_parser (set_value name key value) loader
    pure loader'

  -- The lock is held from the read to the write, so this is one step.
  unfoldable pub write_changes : String → ConfigLoader → Exec (Host W) (Unit {0})
  unfolding section update_section
  write_changes name loader = do
    temp ← read_conf
    (target, _) ← parser (section name) loader.config
    write_conf (update_section name target temp)

  unfoldable pub change_region : String → Option String → ConfigLoader → Exec (Host W) ConfigLoader
  unfolding load_aws_config set_loader_value write_changes
  change_region name new_region loader = do
    (_, loader₁) ← on_parser (load_aws_config name) loader
    loader₂ ← set_loader_value name "region" new_region loader₁
    write_changes name loader₂
    pure loader₂
