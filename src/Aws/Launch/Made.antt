-- ===== src/Aws/Launch/Made.antt =====
-- `launch_instance` of functions/aws.py leaves the object's loader and name alone until it saves.
use aws_iprotate_python.Prelude.{
  ℕ, zero, suc, String, ◌≡◌, inl, inr, Bool-cases, Option, Option-cases, none, some, List, [], ◌∷◌,
  ◌++◌, ◌==◌, arith, Bool, true, false, if◌then◌else◌,
}
use aws_iprotate_python.Py.{
  Error, attribute_error, Exec, pure, gets, or_raise, first, for_each, ◌>>◌,
}
use aws_iprotate_python.Py.Keeps.{Keeps, Keeps-bind, for_each-Keeps}
use aws_iprotate_python.Outside.{Session, Ec2, SecurityGroup, TypesPage, InstanceType, Permission}
use aws_iprotate_python.Config.{ConfigLoader}
use aws_iprotate_python.Aws.{Self}
use aws_iprotate_python.Aws.Client.{ask, connect}
use aws_iprotate_python.Aws.Launch.{
  choose_group, create_security_group, more_pages, get_instance_type_free_tier, import_key_pair,
  set_keypair, describe_images, any_allows_all, allows_all, group_of, create_instance,
  start_instance, one_core,
}

-- The loader and the name that the object was made with.
pub record Made {W : Type 0} (loader : ConfigLoader) (name : String) (s : Self W) : Type 0 where
  pub config : s.aws.config ≡ loader
  pub named : s.aws.config_name ≡ name

module _ {W : Type 0} (ec2 : Ec2 W) (loader : ConfigLoader) (name : String) where
  pub ask-Made : {A : Type 0} (m : Session → Exec W A) → Keeps (Made loader name) (ask ec2 m)
  ask-Made m = record { at = λ s p. ground arith }

  choose_group-Made : (g : SecurityGroup) → Keeps (Made loader name) (choose_group ec2 g)
  unfolding choose_group
  choose_group-Made g = record { at = λ s p. ground arith }

  first-Made : {A : Type 0} (xs : List A) → Keeps (Made {W = W} loader name) (first xs)
  first-Made [] = record { at = λ s p. p }
  first-Made (x ∷ xs) = record { at = λ s p. p }

  group_of-Made : (o : Option SecurityGroup) → Keeps (Made loader name) (group_of ec2 o)
  group_of-Made none = record { at = λ s p. ground arith }
  group_of-Made (some g) = record { at = λ s p. p }

  allows_all-Made : (p : Permission) → Keeps (Made {W = W} loader name) (allows_all p)
  unfolding allows_all
  allows_all-Made p = record { at = λ s q. ground arith }

  any_allows_all-Made :
      (ps : List Permission) → Keeps (Made {W = W} loader name) (any_allows_all ps)
  unfolding any_allows_all
  any_allows_all-Made [] = record { at = λ s p. p }
  any_allows_all-Made (p ∷ ps) =
      Keeps-bind (allows_all p) _ (allows_all-Made p)
        λ found. if_Made found (any_allows_all-Made ps)
    where
      if_Made :
          (found : Bool) {m : Exec (Self W) Bool}
          → Keeps (Made loader name) m
          → Keeps (Made loader name) (if found then pure true else m)
      if_Made true k = record { at = λ s p. p }
      if_Made false k = k

  -- the end of `create_security_group`
  abbrev open_group : SecurityGroup → Bool → Exec (Self W) SecurityGroup
  open_group g open_to_all =
      if open_to_all
      then pure g
      else do ask ec2 (λ session. ec2.authorize_security_group_ingress session g.group_id); pure g

  create_security_group-Made : Keeps (Made loader name) (create_security_group ec2)
  unfolding create_security_group
  create_security_group-Made =
      Keeps-bind (ask ec2 ec2.describe_role_groups) _ (ask-Made ec2.describe_role_groups) λ groups.
        Keeps-bind (for_each groups (choose_group ec2)) _
          (for_each-Keeps (choose_group ec2) choose_group-Made groups)
          λ _.
            Keeps-bind (gets (λ s. s.aws)) _ (record { at = λ s p. p })
              λ a.
                Keeps-bind (group_of ec2 a.security_group) _ (group_of-Made a.security_group) λ g.
                  Keeps-bind (ask ec2 (λ session. ec2.describe_group session g.group_id)) _
                    (ask-Made (λ session. ec2.describe_group session g.group_id))
                    λ described. Keeps-bind (first described) _ (first-Made described) λ current.
                      Keeps-bind (any_allows_all current.ip_permissions) (open_group g)
                        (any_allows_all-Made current.ip_permissions)
                        λ b. record { at = λ s p. ground arith }

  more_pages-Made :
      (fuel : ℕ) (page : TypesPage) (types : List InstanceType)
      → Keeps (Made loader name) (more_pages ec2 fuel page types)
  unfolding more_pages
  more_pages-Made zero page types = record { at = λ s p. p }
  more_pages-Made (suc fuel) page types = elim (Option-cases page.next_token) [
    | inl e ↦ rw (e, more_pages) (record { at = λ s p. p })
    | inr (token, e) ↦ elim (Bool-cases (token == "")) [
      | inl b ↦ rw (e, b, more_pages) (record { at = λ s p. p })
      | inr b ↦
          rw (e, b, more_pages)
            (Keeps-bind (ask ec2 (λ session. ec2.describe_instance_types session (some token))) _
              (ask-Made (λ session. ec2.describe_instance_types session (some token)))
              λ page'. more_pages-Made fuel page' (types ++ page'.instance_types))
    ]
  ]

  set_keypair-Made : Keeps (Made loader name) (set_keypair ec2)
  unfolding set_keypair import_key_pair
  set_keypair-Made = record { at = λ s p. ground arith }

  connect-Made : Keeps (Made loader name) (connect ec2)
  unfolding connect
  connect-Made = record { at = λ s p. ground arith }

  describe_images-Made : Keeps (Made loader name) (describe_images ec2)
  unfolding describe_images
  describe_images-Made = Keeps-bind (connect ec2) _ connect-Made λ _. ask-Made ec2.describe_images

  types-Made : Keeps (Made loader name) (get_instance_type_free_tier ec2)
  unfolding get_instance_type_free_tier
  types-Made =
      Keeps-bind (ask ec2 (λ session. ec2.describe_instance_types session none)) _
        (ask-Made (λ session. ec2.describe_instance_types session none))
        λ page.
          Keeps-bind (more_pages ec2 ec2.page_limit page page.instance_types)
            (λ types. pure (one_core types))
            (more_pages-Made ec2.page_limit page page.instance_types)
            λ types. record { at = λ s p. p }

  pub or_raise-Made :
      {A : Type 0} (o : Option A) (e : Error) → Keeps (Made {W = W} loader name) (or_raise o e)
  or_raise-Made none e = record { at = λ s p. p }
  or_raise-Made (some a) e = record { at = λ s p. p }

  start_instance-Made :
      (resource : Session) (chosen : InstanceType) (key_pair_name : Option String) (image : String)
      → Keeps (Made loader name) (start_instance ec2 resource chosen key_pair_name image)
  unfolding start_instance
  start_instance-Made resource chosen key_pair_name image = record { at = λ s p. ground arith }

  pub create_instance-Made : Keeps (Made loader name) (create_instance ec2)
  unfolding create_instance
  create_instance-Made = Keeps-bind (create_security_group ec2) _ create_security_group-Made λ _.
      Keeps-bind (get_instance_type_free_tier ec2) _ types-Made λ found.
        Keeps-bind (or_raise found (attribute_error "'NoneType' object has no attribute 'get'")) _
          (or_raise-Made found _)
          λ chosen. Keeps-bind (connect ec2) _ connect-Made λ _.
            Keeps-bind (set_keypair ec2) _ set_keypair-Made λ _.
              Keeps-bind (gets (λ s. s.aws)) _ (record { at = λ s p. p })
                λ a.
                  Keeps-bind
                    (or_raise a.resource
                      (attribute_error "'Aws' object has no attribute 'resource'"))
                    _ (or_raise-Made a.resource _)
                    λ resource. Keeps-bind (describe_images ec2) _ describe_images-Made λ images.
                      Keeps-bind (first images) (start_instance ec2 resource chosen a.key_pair_name)
                        (first-Made images)
                        λ image. start_instance-Made resource chosen a.key_pair_name image
