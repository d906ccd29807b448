-- ===== src/Aws/Client.antt =====
-- `login`, the queries and the address methods of `class Aws` in functions/aws.py.
use aws_iprotate_python.Prelude.{
  String, ◌<>◌, Bool, true, false, Option, none, some, List, [], ◌∷◌, ◌==◌, ◌&&◌, if◌then◌else◌,
}
use aws_iprotate_python.Py.{
  attribute_error, key_error, type_error, raised, message, Exec, pure, raise, gets, or_raise,
  except, for_each, first, ◌>>=◌, ◌>>◌,
}
use aws_iprotate_python.Config.{AwsConfig}
use aws_iprotate_python.Host.{outside}
use aws_iprotate_python.Outside.{Session, Tag, Reservation, Address, Region, Ec2}
use aws_iprotate_python.Aws.{Self, here, update}

-- the region and the credentials of `self.aws_config`
abbrev pub session_of : AwsConfig → Session
session_of c = record { region = c.region; access_key = c.access_key; secret_key = c.secret_key }

-- `d["k"]` of a dict that may lack the key
abbrev pub item : {S A : Type 0} → String → Option A → Exec S A
item k o = or_raise o (key_error k)

abbrev pub not_opted_in : Option String → Bool
not_opted_in none = false
not_opted_in (some status) = status == "not-opted-in"

module _ {W : Type 0} (ec2 : Ec2 W) where
  -- `self.ec2`
  abbrev pub self_ec2 : Exec (Self W) Session
  self_ec2 = do
    a ← gets (λ s. s.aws)
    or_raise a.ec2 (attribute_error "'Aws' object has no attribute 'ec2'")

  -- a call of `self.ec2`
  abbrev pub ask : {A : Type 0} → (Session → Exec W A) → Exec (Self W) A
  ask m = do session ← self_ec2; here (outside (m session))

  -- `self.ec2 = boto3.client(...)`, with the handler that words the failure anew
  unfoldable pub connect : Exec (Self W) Unit
  connect = do
    a ← gets (λ s. s.aws)
    except (here (outside (ec2.client (session_of a.aws_config))))
        (λ e. raise (raised ("Error connecting to AWS: " <> message e)))
    update (λ a'. record a' { ec2 = some (session_of a.aws_config) })

  unfoldable pub login : Exec (Self W) Bool
  login = do
    connect
    a ← gets (λ s. s.aws)
    regions ← ask (λ session. ec2.describe_regions session (a.aws_config.region ∷ []))
    region ← first regions
    if not_opted_in region.opt_in_status
        then raise (raised "Error connecting to AWS: not-opted-in")
        else do
          here (outside (ec2.resource (session_of a.aws_config)))
          update (λ a'. record a' { resource = some (session_of a.aws_config) })
          pure true

  -- a client of its own, in the default region if the config names none
  unfoldable pub get_all_regions : Exec (Self W) (List Region)
  get_all_regions = do
    a ← gets (λ s. s.aws)
    let region = if a.aws_config.region == "" then "us-east-1" else a.aws_config.region
    let session = record (session_of a.aws_config) { region = region }
    here (outside (ec2.client session))
    here (outside (ec2.describe_regions session []))

  unfoldable pub get_instance_info : Exec (Self W) (Option (List Reservation))
  get_instance_info = do
    a ← gets (λ s. s.aws)
    ask (λ session. ec2.describe_instances session (a.aws_config.instance_id ∷ []))

  -- `response["Reservations"]`, where it is used as a list
  abbrev pub listed : {S A : Type 0} → Option (List A) → Exec S (List A)
  listed o = or_raise o (type_error "'NoneType' object is not subscriptable")

  unfoldable pub get_instance_address : Exec (Self W) String
  unfolding get_instance_info
  get_instance_address =
      except
        (do
          response ← get_instance_info
          reservations ← listed response
          reservation ← first reservations
          instance' ← first reservation.instances
          item "PublicIpAddress" instance'.public_ip)
        (λ e. raise (raised ("Error getting instance address: " <> message e)))

  unfoldable pub associate_ip : String → Exec (Self W) Unit
  associate_ip ip_address = do
    a ← gets (λ s. s.aws)
    here (outside (ec2.client (session_of a.aws_config)))
    here (
        outside
          (ec2.associate_public_ip (session_of a.aws_config) a.aws_config.instance_id ip_address))

  -- `except Exception: pass`
  abbrev pub quietly : {S : Type 0} → Exec S Unit → Exec S Unit
  quietly m = except m (λ _. pure tt)

  -- what is done for each tag of an address
  unfoldable pub release_tag : Address → Tag → Exec (Self W) Unit
  release_tag address tag = do
    a ← gets (λ s. s.aws)
    if tag.key == "instance" && tag.value == a.aws_config.instance_id
        then (do
          quietly (do
            association ← item "AssociationId" address.association_id
            ask (λ session. ec2.disassociate_address session association))
          quietly (ask (λ session. ec2.release_address session address.allocation_id)))
        else pure tt

  unfoldable pub release_each : Address → Exec (Self W) Unit
  release_each address = elim address.tags [
    | none ↦ pure tt
    | some tags ↦ for_each tags (release_tag address)
  ]

  unfoldable pub disassociate_and_release_ip : Exec (Self W) Unit
  disassociate_and_release_ip = do
    addresses ← ask ec2.describe_addresses
    for_each addresses release_each

  unfoldable pub allocate_and_associate_ip : Exec (Self W) Unit
  allocate_and_associate_ip = do
    a ← gets (λ s. s.aws)
    allocation ← ask (λ session. ec2.allocate_address session a.aws_config.instance_id)
    ask (λ session. ec2.associate_address session a.aws_config.instance_id allocation)
    disassociate_and_release_ip
