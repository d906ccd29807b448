-- ===== src/Garbage/Loader.antt =====
-- `class ConfigLoader` of garbage/main2.py, which sorts the sections by provider.
pub mod Unset
use aws_iprotate_python.Prelude.{
  String, ◌<>◌, ◌≡◌, refl, ◌==◌, ◌&&◌, not, Bool, true, false, Option, none, some, List, [], ◌∷◌,
  ◌++◌, arith, if◌then◌else◌,
}
use aws_iprotate_python.Prelude.Dict.{Dict}
use aws_iprotate_python.Py.{
  Error, attribute_error, Result, ok, err, Exec, pure, raise, for_each, ◌>>=◌, ◌>>◌,
}
use aws_iprotate_python.Py.Keeps.{bind_cases}
use aws_iprotate_python.ConfigParser.{Conf, sections, has_option, get}

pub record OldApi : Type 0 where
  pub key : String
  pub prefix : String
  pub port : String
  pub wg_private_key : String
  pub wg_public_key : String
  pub ssh_key_path : String
  pub api_host_name : String

-- the dict of one section
abbrev pub Configuration : Type 0
Configuration = Dict String

-- The attributes `civo_config_list`, …: the constructor sets none of them.
pub record Lists : Type 0 where
  pub civo : Option (List Configuration)
  pub tencent : Option (List Configuration)
  pub azure : Option (List Configuration)
  pub aws : Option (List Configuration)

abbrev pub no_lists : Lists
no_lists = record { civo = none; tencent = none; azure = none; aws = none }

pub record Loaded : Type 0 where
  pub api_config : OldApi
  pub civo : List Configuration
  pub tencent : List Configuration
  pub azure : List Configuration
  pub aws : List Configuration

unfoldable pub load_old_api : Exec Conf OldApi
load_old_api = do
  key ← get "api" "apihostname"
  prefix ← get "api" "prefix"
  port ← get "api" "port"
  private ← get "api" "wgprivatekey"
  public ← get "api" "wgpublickey"
  path ← get "api" "sshkeypath"
  host ← get "api" "apihostname"
  pure (record {
    key = key;
    prefix = prefix;
    port = port;
    wg_private_key = private;
    wg_public_key = public;
    ssh_key_path = path;
    api_host_name = host;
  })

-- `self.config.get(name, key) if self.config.has_option(name, key) else None`
abbrev pub optional : String → String → Exec Conf (Option String)
optional name key c =
    if has_option name key c then (do v ← get name key; pure (some v)) c else (ok none, c)

-- `configuration.update({...})`: the options of a provider, in the order in which they are read
unfoldable pub read_options :
    String → List (String × String) → Configuration → Exec Conf Configuration
read_options name [] d = pure d
read_options name ((field, key) ∷ rest) d = do
  v ← get name key
  read_options name rest (d ++ (field, v) ∷ [])

-- the fields and the options of a provider
abbrev pub tencent_options : List (String × String)
tencent_options =
    ("secretId", "secretid")
    ∷ ("secretKey", "secretkey")
    ∷ ("region", "region")
    ∷ ("instanceId", "instanceid")
    ∷ []

abbrev pub azure_options : List (String × String)
azure_options =
    ("clientId", "clientid")
    ∷ ("clientSecret", "clientsecret")
    ∷ ("tenantId", "tenantid")
    ∷ ("subscriptionId", "subscriptionid")
    ∷ ("resourceGroupName", "resourcegroupname")
    ∷ ("publicIpName", "publicipname")
    ∷ ("ipConfigName", "ipconfigname")
    ∷ ("nicName", "nicname")
    ∷ ("vmName", "vmname")
    ∷ []

abbrev pub aws_options : List (String × String)
aws_options =
    ("accessKey", "accesskey")
    ∷ ("secretKey", "secretkey")
    ∷ ("instanceId", "instanceid")
    ∷ ("region", "region")
    ∷ []

abbrev pub civo_options : List (String × String)
civo_options =
    ("token", "token")
    ∷ ("cookie", "cookie")
    ∷ ("region", "region")
    ∷ ("instanceId", "instanceid")
    ∷ []

-- `self.x_config_list`, and an `append` to it
abbrev pub attribute : {S A : Type 0} → String → Option A → Exec S A
attribute name none =
    raise (attribute_error ("'ConfigLoader' object has no attribute '" <> name <> "'"))
attribute name (some xs) = pure xs

abbrev pub appended :
    String → Option (List Configuration) → Configuration → Exec Conf (Option (List Configuration))
appended name o d = do xs ← attribute name o; pure (some (xs ++ d ∷ []))

-- the rest of a branch: the options of a provider, and the append to its list
abbrev pub file_as :
    String
    → List (String × String)
    → String
    → Option (List Configuration)
    → (Option (List Configuration) → Lists)
    → Configuration
    → Exec Conf Lists
file_as name options list_name old with_list d = do
  d' ← read_options name options d
  xs ← appended list_name old d'
  pure (with_list xs)

-- `urlparse`, `_replace`, `urlencode` and `urlunparse`: the text of the address, from its host, port,
-- path and query value
module _ (url : String → String → String → String → String) where
  -- the address that changes the ip
  abbrev pub change_ip_url : OldApi → String → String → String
  change_ip_url api type name =
      url api.api_host_name api.port
        (if type == "civo" then api.prefix <> "/civo/newip" else api.prefix <> "/newip") name

  -- `if socks5_user and socks5_pass and config_type not in ['api']`
  abbrev pub socks5_of : String → Option String → Option String → Configuration
  socks5_of type none pass = []
  socks5_of type (some user) none = []
  socks5_of type (some user) (some pass) =
      if not (user == "") && not (pass == "") && not (type == "api")
      then ("socks5User", user) ∷ ("socks5Pass", pass) ∷ []
      else []

  -- a section goes to the list of its provider; one of another type goes nowhere
  abbrev pub file_configuration : String → String → Configuration → Lists → Exec Conf Lists
  file_configuration name type d lists =
      if type == "tencent"
      then file_as name tencent_options "tencent_config_list" lists.tencent
          (λ xs. record lists { tencent = xs }) d
      else if type == "azure"
      then file_as name azure_options "azure_config_list" lists.azure
          (λ xs. record lists { azure = xs }) d
      else if type == "aws"
      then file_as name aws_options "aws_config_list" lists.aws (λ xs. record lists { aws = xs }) d
      else if type == "civo"
      then file_as name civo_options "civo_config_list" lists.civo
          (λ xs. record lists { civo = xs }) d
      else pure lists

  -- the type of a section, and the part of its dict that every provider has
  abbrev pub described : OldApi → String → Exec Conf (String × Configuration)
  described api name = do
    type ← get name "type"
    socks5_port ← get name "socks5port"
    http_port ← get name "httpport"
    user ← optional name "socks5user"
    pass ← optional name "socks5pass"
    pure (
      type,
      ("configName", name)
          ∷ ("socks5Port", socks5_port)
          ∷ ("httpPort", http_port)
          ∷ ("changeIpUrl", change_ip_url api type name)
          ∷ socks5_of type user pass,
    )

  unfoldable pub load_configuration : OldApi → String → Lists → Exec Conf Lists
  load_configuration api name lists = do
    x ← described api name
    file_configuration name x.0 x.1 lists

  -- the loop over the sections
  unfoldable pub load_each : OldApi → List String → Lists → Exec Conf Lists
  load_each api [] lists = pure lists
  load_each api (name ∷ names) lists =
      let skipped = load_each api names lists in
      let loaded = load_configuration api name lists >>= load_each api names in
      if name == "api" then skipped else loaded

  -- the dict at the end reads the four lists
  unfoldable pub gather : OldApi → Lists → Exec Conf Loaded
  gather api lists = do
    civo ← attribute "civo_config_list" lists.civo
    tencent ← attribute "tencent_config_list" lists.tencent
    azure ← attribute "azure_config_list" lists.azure
    aws ← attribute "aws_config_list" lists.aws
    pure (record { api_config = api; civo = civo; tencent = tencent; azure = azure; aws = aws })

  unfoldable pub load_configurations : OldApi → Lists → Exec Conf Loaded
  unfolding load_each
  load_configurations api lists c =
      (do found ← load_each api (sections c) lists; gather api found) c

  -- `ConfigLoader()`
  unfoldable pub new_old_loader : Exec Conf Loaded
  new_old_loader = do api ← load_old_api; load_configurations api no_lists
