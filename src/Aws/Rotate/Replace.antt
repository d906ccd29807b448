-- ===== src/Aws/Rotate/Replace.antt =====
-- `get_new_ip` of functions/aws.py for an instance that is there: its address is replaced.
use aws_iprotate_python.Prelude.{
  String, ◌≡◌, refl, sym, ap, subst, ◌∙◌, false, Option, none, some, List, [], ◌∷◌, ◌==◌, arith,
}
use aws_iprotate_python.Prelude.Lists.{All}
use aws_iprotate_python.Py.{Result, raised, ok, err}
use aws_iprotate_python.Outside.{Session, Instance, Address, Ec2}
use aws_iprotate_python.Aws.{Self}
use aws_iprotate_python.Aws.Client.{
  get_instance_address, get_instance_info, disassociate_and_release_ip, allocate_and_associate_ip,
}
use aws_iprotate_python.Aws.Addresses.{Passes, disassociate_and_release_ip-Passes}
use aws_iprotate_python.Aws.Elastic.{is_tagged, IsEc2}
use aws_iprotate_python.Aws.Elastic.Release.{allocate_and_associate_ip_lem}
use aws_iprotate_python.Aws.Rotate.{NewIp, replace_ip, get_new_ip}

-- What EC2 documents of one instance and of new addresses: the instance is described as it is, by
-- its id; an address is allocated, and associated with the instance.
pub record IsServing {W : Type 0} (ec2 : Ec2 W) (id : String) (instance_at : W → Instance)
    : Type 0 where
  pub describe :
      (s : Session) (w : W)
      → ec2.describe_instances s (id ∷ []) w
        ≡ (ok (some (record { instances = instance_at w ∷ [] } ∷ [])), w)
  pub allocate : (s : Session) (w : W) → (x : String) × ((ec2.allocate_address s id w).0 ≡ ok x)
  pub associate : (s : Session) (x : String) (w : W) → (ec2.associate_address s id x w).0 ≡ ok tt

-- the address of an instance, as `get_instance_address` returns or raises it
abbrev pub address_of : Option String → Result String
address_of none = err (raised "Error getting instance address: 'PublicIpAddress'")
address_of (some ip) = ok ip

module _ {W : Type 0} (ec2 : Ec2 W) (instance_at : W → Instance) (session : Session) (s : Self W)
    (serving : IsServing ec2 s.aws.aws_config.instance_id instance_at)
    (client : s.aws.ec2 ≡ some session) where
  pub get_instance_address_lem :
      get_instance_address ec2 s ≡ (address_of (instance_at s.host.world).public_ip, s)
  unfolding get_instance_address get_instance_info
  get_instance_address_lem = ground (arith, client, serving.describe session s.host.world)

-- what `get_new_ip` then answers, by the address that the instance has at the end
abbrev pub renewed : String → Option String → Result NewIp
renewed old none =
    err (raised "Error getting new IP: Error getting instance address: 'PublicIpAddress'")
renewed old (some new) = ok (record { old_ip = some old; new_ip = new })

module _ {W : Type 0} (ec2 : Ec2 W) (addresses : W → List Address) (instance_at : W → Instance)
    (session : Session) (s : Self W) (laws : IsEc2 ec2 addresses)
    (serving : IsServing ec2 s.aws.aws_config.instance_id instance_at)
    (client : s.aws.ec2 ≡ some session) where
  abbrev id : String
  id = s.aws.aws_config.instance_id

  abbrev freed_state : Self W
  freed_state = (disassociate_and_release_ip ec2 s).1

  abbrev last_state : Self W
  last_state = (allocate_and_associate_ip ec2 freed_state).1

  frees : Passes (disassociate_and_release_ip ec2) s
  frees =
      disassociate_and_release_ip-Passes ec2 s client
        (ap (λ r. r.0) (laws.describe session s.host.world))

  -- an object that is the one of the beginning
  module _ (t : Self W) (same : t.aws ≡ s.aws) where
    same_id : t.aws.aws_config.instance_id ≡ id
    same_id = ap (λ a. a.aws_config.instance_id) same

    same_client : t.aws.ec2 ≡ some session
    same_client = ap (λ a. a.ec2) same ∙ client

    allocates :
        (x : String) × ((ec2.allocate_address session t.aws.aws_config.instance_id t.host.world).0
          ≡ ok x)
    allocates = rw same_id (serving.allocate session t.host.world)

    associates :
        (x : String) (w : W)
        → (ec2.associate_address session t.aws.aws_config.instance_id x w).0 ≡ ok tt
    associates x w = rw same_id (serving.associate session x w)

    allocated :
        ((allocate_and_associate_ip ec2 t).0 ≡ ok tt)
        × All
            (λ a. is_tagged id a ≡ false)
            (addresses (allocate_and_associate_ip ec2 t).1.host.world)
    allocated =
        let (x, gives) = allocates in
        subst
          (λ i.
            ((allocate_and_associate_ip ec2 t).0 ≡ ok tt)
            × All (λ a. is_tagged i a ≡ false)
                (addresses (allocate_and_associate_ip ec2 t).1.host.world))
          same_id
          (allocate_and_associate_ip_lem ec2 addresses laws session t same_client x gives
            (associates x _))

    object_kept : (allocate_and_associate_ip ec2 t).1.aws ≡ s.aws
    unfolding allocate_and_associate_ip
    object_kept =
        let (x, gives) = allocates in
        let w : W = (ec2.allocate_address session t.aws.aws_config.instance_id t.host.world).1 in
        let w' : W = (ec2.associate_address session t.aws.aws_config.instance_id x w).1 in
        let t' : Self W = record t { host = record t.host { world = w' } } in
        let p : Passes (disassociate_and_release_ip ec2) t' =
          disassociate_and_release_ip-Passes ec2 t' same_client
            (ap (λ r. r.0) (laws.describe session w')) in
        ground (arith, same_client, gives, associates x w, p, same)

  new_address :
      (t : Self W)
      → t.aws ≡ s.aws
      → get_instance_address ec2 t ≡ (address_of (instance_at t.host.world).public_ip, t)
  new_address t same =
      get_instance_address_lem ec2 instance_at session t
        (subst (λ a. IsServing ec2 a.aws_config.instance_id instance_at) (sym same) serving)
        (same_client t same)

  replace_ip_lem :
      (old : String)
      → (instance_at s.host.world).public_ip ≡ some old
      → (id == "") ≡ false
      → get_new_ip ec2 s ≡ (renewed old (instance_at last_state.host.world).public_ip, last_state)
  unfolding get_new_ip replace_ip
  replace_ip_lem old had there = ground (
    arith,
    new_address s refl,
    frees,
    (allocated freed_state frees.object).0,
    new_address last_state (object_kept freed_state frees.object),
    had,
  )

  -- For an instance with an address, where EC2 keeps its addresses as documented and allocates and
  -- associates the new one, `get_new_ip` returns the address before and the one after; it raises if
  -- the instance then has none. The object is unchanged, and no address with the instance's tag is
  -- left in the account.
  pub get_new_ip_lem :
      (old : String)
      → (instance_at s.host.world).public_ip ≡ some old
      → (id == "") ≡ false
      → let after = (get_new_ip ec2 s).1 in
        ((get_new_ip ec2 s).0 ≡ renewed old (instance_at after.host.world).public_ip)
        × (after.aws ≡ s.aws)
        × All (λ a. is_tagged id a ≡ false) (addresses after.host.world)
  get_new_ip_lem old had there =
      let e = replace_ip_lem old had there in
      subst
        (λ r.
          (r.0 ≡ renewed old (instance_at r.1.host.world).public_ip)
          × (r.1.aws ≡ s.aws)
          × All (λ a. is_tagged id a ≡ false) (addresses r.1.host.world))
        (sym e) (refl, object_kept freed_state frees.object, (allocated freed_state frees.object).1)
