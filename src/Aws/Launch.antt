-- ===== src/Aws/Launch.antt =====
-- Key pair, security group, launch and termination of instances: `class Aws` of functions/aws.py.
pub mod Made
pub mod Begun
pub mod Stored
pub mod Saved
use aws_iprotate_python.Prelude.{
  ℕ, zero, suc, String, ◌<>◌, Bool, true, false, Option, none, some, List, [], ◌∷◌, ◌++◌, ◌==◌,
  ◌=ℕ◌, ◌&&◌, ◌||◌, not, if◌then◌else◌,
}
use aws_iprotate_python.Py.{
  attribute_error, raised, message, Exec, pure, raise, gets, or_raise, except, for_each, first,
  ◌>>=◌, ◌>>◌, dict_hasattr,
}
use aws_iprotate_python.Host.{outside}
use aws_iprotate_python.Outside.{
  Tag, Instance, Reservation, Permission, SecurityGroup, KeyPair, KeyFile, InstanceType, TypesPage,
  Ec2, Session,
}
use aws_iprotate_python.Aws.{Self, here, update, save_instance_id, reload_aws_config}
use aws_iprotate_python.Aws.Client.{item, connect, ask, listed}
use aws_iprotate_python.Aws.Fingerprint.{format_fingerprint}

-- the key pair of the account that has this fingerprint, the first one
unfoldable pub find_key_pair : String → List KeyPair → Option KeyPair
find_key_pair fingerprint [] = none
find_key_pair fingerprint (k ∷ ks) =
    if k.key_fingerprint == fingerprint then some k else find_key_pair fingerprint ks

-- the test of the loop over the permissions of a group
unfoldable pub allows_all : {S : Type 0} → Permission → Exec S Bool
allows_all p =
    if p.ip_protocol == "-1"
    then (do
      range ← first p.ip_ranges
      if range.cidr_ip == "0.0.0.0/0"
          then (do
            description ← item "Description" range.description
            pure (description == "Allow all traffic"))
          else pure false)
    else pure false

-- the loop: does a permission of the group allow all traffic?
unfoldable pub any_allows_all : {S : Type 0} → List Permission → Exec S Bool
any_allows_all [] = pure false
any_allows_all (p ∷ ps) = do
  found ← allows_all p
  let rest = any_allows_all ps
  if found then pure true else rest

-- an instance that is neither terminated nor on its way there
abbrev pub is_live : Instance → Bool
is_live i =
    not (i.state == "terminated")
    && not (i.state == "shutting-down")
    && not (i.state == "terminating")

unfoldable pub has_role : List Tag → Bool
has_role [] = false
has_role (t ∷ ts) = t.key == "role" && t.value == "iprotate" || has_role ts

-- The loop that looks for an instance to use again. An instance is a `dict`, and the test is
-- `hasattr(instance, "Tags")`, not `"Tags" in instance`.
unfoldable pub find_reusable : {S : Type 0} → List Reservation → Exec S (Option Instance)
find_reusable [] = pure none
find_reusable (r ∷ rs) = do
  i ← first r.instances
  let rest = find_reusable rs
  if dict_hasattr "Tags" && has_role i.tags && is_live i then pure (some i) else rest

-- the first type that has one core
unfoldable pub one_core : List InstanceType → Option InstanceType
one_core [] = none
one_core (t ∷ ts) = if t.default_cores =ℕ 1 then some t else one_core ts

-- the text that the constructor keeps
abbrev pub user_data : String
user_data =
    "#cloud-config\n" <> "            network:\n" <> "            version: 2\n"
    <> "            ethernets:\n" <> "                eth0:\n" <> "                match:\n"
    <> "                    name: \"en*\"\n" <> "                set-name: eth0\n" <> "            "

module _ {W : Type 0} (ec2 : Ec2 W) where
  unfoldable pub describe_images : Exec (Self W) (List String)
  describe_images = do connect ec2; ask ec2 ec2.describe_images

  import_key_pair : KeyFile → Exec (Self W) Unit
  import_key_pair key = do
    name ←
        except
          (do
            date ← here (outside ec2.key_date)
            ask ec2 (λ session.
                ec2.import_key_pair session ("iprotate-" <> date) ("ssh-rsa " <> key.base64)))
          (λ e. raise (raised ("Error importing keypair: " <> message e)))
    update (λ a. record a { key_pair_name = some name })

  unfoldable pub set_keypair : Exec (Self W) Unit
  unfolding import_key_pair
  set_keypair = do
    a ← gets (λ s. s.aws)
    key ←
        except (here (outside (ec2.read_key a.config.api_config.ssh_key_path)))
          (λ e. raise (raised ("Error reading keypair file: " <> message e)))
    let fingerprint = format_fingerprint (ec2.md5 key.public_der)
    pairs ← ask ec2 ec2.describe_key_pairs
    elim (find_key_pair fingerprint pairs) [
      | some pair ↦ update (λ a'. record a' { key_pair_name = some pair.key_name })
      | none ↦ import_key_pair key
    ]

  -- `self.security_group = …`
  abbrev keep_group : SecurityGroup → Exec (Self W) Unit
  keep_group group = update (λ a. record a { security_group = some group })

  -- one round: a group of another name makes a new group
  choose_group : SecurityGroup → Exec (Self W) Unit
  choose_group group =
      if group.group_name == "iprotate"
      then keep_group group
      else do created ← ask ec2 ec2.create_security_group; keep_group created

  -- the group that the loop has kept, or a new one
  abbrev group_of : Option SecurityGroup → Exec (Self W) SecurityGroup
  group_of (some kept) = pure kept
  group_of none = do created ← ask ec2 ec2.create_security_group; keep_group created; pure created

  unfoldable pub create_security_group : Exec (Self W) SecurityGroup
  unfolding choose_group
  create_security_group = do
    groups ← ask ec2 ec2.describe_role_groups
    for_each groups choose_group
    a ← gets (λ s. s.aws)
    group ← group_of a.security_group
    described ← ask ec2 (λ session. ec2.describe_group session group.group_id)
    current ← first described
    open_to_all ← any_allows_all current.ip_permissions
    if open_to_all then pure group else do
      ask ec2 (λ session. ec2.authorize_security_group_ingress session group.group_id)
      pure group

  -- the `while "NextToken" in instance_list` loop, with fuel for the pages
  unfoldable pub more_pages : ℕ → TypesPage → List InstanceType → Exec (Self W) (List InstanceType)
  more_pages zero page types = raise (raised "the service sends more pages than its limit")
  more_pages (suc fuel) page types = elim page.next_token [
    | none ↦ pure types
    | some token ↦ elim (token == "") [
      | true ↦ pure types
      | false ↦ do
        page' ← ask ec2 (λ session. ec2.describe_instance_types session (some token))
        more_pages fuel page' (types ++ page'.instance_types)
    ]
  ]

  unfoldable pub get_instance_type_free_tier : Exec (Self W) (Option InstanceType)
  unfolding more_pages
  get_instance_type_free_tier = do
    page ← ask ec2 (λ session. ec2.describe_instance_types session none)
    types ← more_pages ec2.page_limit page page.instance_types
    pure (one_core types)

  -- the call that makes it, and the wait until it runs
  unfoldable pub start_instance :
      Session → InstanceType → Option String → String → Exec (Self W) String
  start_instance resource chosen key_pair_name image = do
    key_name ←
        or_raise key_pair_name (attribute_error "'Aws' object has no attribute 'key_pair_name'")
    ids ← here (
        outside (
          ec2.create_instances resource (record {
            image_id = image;
            instance_type = chosen.instance_type;
            key_name = key_name;
            user_data = user_data;
          })))
    new_id ← first ids
    ask ec2 (λ session. ec2.wait_running session new_id)
    pure new_id

  -- a new instance, once it runs
  unfoldable pub create_instance : Exec (Self W) String
  create_instance = do
    create_security_group
    found ← get_instance_type_free_tier
    chosen ← or_raise found (attribute_error "'NoneType' object has no attribute 'get'")
    connect ec2
    set_keypair
    a ← gets (λ s. s.aws)
    resource ← or_raise a.resource (attribute_error "'Aws' object has no attribute 'resource'")
    images ← describe_images
    image ← first images
    start_instance resource chosen a.key_pair_name image

  -- the instance's id is saved, read back and saved again
  unfoldable pub keep_instance : String → Exec (Self W) Unit
  keep_instance new_id = do
    save_instance_id new_id
    reload_aws_config
    update (λ a'. record a' { aws_config = record a'.aws_config { instance_id = new_id } })
    save_instance_id new_id
    ask ec2 (λ session. ec2.describe_instances session (new_id ∷ []))
    pure tt

  unfoldable pub launch_new : Exec (Self W) Unit
  launch_new = do new_id ← create_instance; keep_instance new_id

  abbrev use_or_launch : Option Instance → Exec (Self W) Unit
  use_or_launch (some i) = do save_instance_id i.instance_id; reload_aws_config
  use_or_launch none = launch_new

  unfoldable pub launch_instance : Exec (Self W) Unit
  launch_instance = do
    response ← ask ec2 (λ session. ec2.describe_instances session [])
    reservations ← listed ec2 response
    reusable ← find_reusable reservations
    use_or_launch reusable

  terminate_first : Reservation → Exec (Self W) Unit
  terminate_first r = do
    i ← first r.instances
    ask ec2 (λ session. ec2.terminate_instances session i.instance_id)

  unfoldable pub terminate_instance : Exec (Self W) Unit
  unfolding terminate_first
  terminate_instance = do
    response ← ask ec2 (λ session. ec2.describe_instances session [])
    elim response [
      | none ↦ pure tt
      | some reservations ↦ do for_each reservations terminate_first; save_instance_id ""
    ]
