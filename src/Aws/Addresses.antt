-- ===== src/Aws/Addresses.antt =====
-- `disassociate_and_release_ip` of functions/aws.py: what a refused call of the service does to it.
use aws_iprotate_python.Prelude.{◌≡◌, refl, Option, none, some, List, [], ◌∷◌, arith}
use aws_iprotate_python.Py.{ok, Exec, for_each, pure}
use aws_iprotate_python.Host.{Host}
use aws_iprotate_python.Outside.{Session, Tag, Address, Ec2}
use aws_iprotate_python.Aws.{Self}
use aws_iprotate_python.Aws.Client.{release_tag, release_each, disassociate_and_release_ip}

-- `m` returns at `s`, and the object and the files are then those of before.
pub record Passes {W : Type 0} (m : Exec (Self W) (Unit {0})) (s : Self W) : Type 0 where
  pub returns : (m s).0 ≡ ok tt
  pub object : (m s).1.aws ≡ s.aws
  pub conf : (m s).1.host.conf ≡ s.host.conf
  pub files : (m s).1.host.files ≡ s.host.files

module _ {W : Type 0} (ec2 : Ec2 W) where
  pub release_tag-Passes :
      (address : Address) (tag : Tag) (s : Self W) → Passes (release_tag ec2 address tag) s
  unfolding release_tag
  release_tag-Passes address tag s = ground arith

  pub for_each-Passes :
      {A : Type 0} (body : A → Exec (Self W) (Unit {0}))
      → ((a : A) (s : Self W) → Passes (body a) s)
      → (xs : List A) (s : Self W) → Passes (for_each xs body) s
  unfolding for_each
  for_each-Passes body each [] s = record {
    returns = refl;
    object = refl;
    conf = refl;
    files = refl;
  }
  for_each-Passes body each (x ∷ xs) s =
      ground (arith, each x s, for_each-Passes body each xs (body x s).1)

  pub release_each-Passes : (address : Address) (s : Self W) → Passes (release_each ec2 address) s
  unfolding release_each
  release_each-Passes address s = by_tags address.tags
    where
      by_tags :
          (tags : Option (List Tag))
          → Passes
              (elim tags [ none ↦ pure tt | some ts ↦ for_each ts (release_tag ec2 address) ])
              s
      by_tags none = record { returns = refl; object = refl; conf = refl; files = refl }
      by_tags (some ts) =
          for_each-Passes (release_tag ec2 address) (release_tag-Passes address) ts s

  -- Once the service has listed its addresses, whatever it lists, `disassociate_and_release_ip`
  -- returns, even if every other call raises, and it leaves the object, config.conf and the
  -- generated files alone.
  pub disassociate_and_release_ip-Passes :
      (s : Self W) {session : Session} {addresses : List Address}
      → s.aws.ec2 ≡ some session
      → (ec2.describe_addresses session s.host.world).0 ≡ ok addresses
      → Passes (disassociate_and_release_ip ec2) s
  unfolding disassociate_and_release_ip
  disassociate_and_release_ip-Passes s {session} {addresses} client listed =
      let h : Host W = record s.host { world = (ec2.describe_addresses session s.host.world).1 } in
      ground (
        arith,
        for_each-Passes (release_each ec2) release_each-Passes addresses (record s { host = h }),
      )
