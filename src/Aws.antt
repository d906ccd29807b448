-- ===== src/Aws.antt =====
-- `class Aws` of functions/aws.py. The state of a method is the object, `self`, beside the machine;
-- an attribute that no method has set yet is `none`, and reading it raises AttributeError.
pub mod Fingerprint
pub mod Client
pub mod Launch
pub mod Rotate
pub mod Reuse
pub mod Pages
pub mod Addresses
pub mod Elastic
use aws_iprotate_python.Prelude.{
  ℕ, zero, suc, String, ◌<>◌, Bool, true, false, Option, none, some, List, [], ◌∷◌, ◌++◌, ◌==◌,
  ◌=ℕ◌, ◌&&◌, not, if◌then◌else◌, is_some,
}
use aws_iprotate_python.Py.{
  Error, attribute_error, key_error, type_error, raised, message, Result, ok, err, Exec, pure,
  raise, gets, or_raise, except, modify, for_each, first, ◌>>=◌, ◌>>◌, dict_hasattr,
}
use aws_iprotate_python.Host.{Host, outside}
use aws_iprotate_python.Outside.{
  Session, Tag, Instance, Reservation, Address, Permission, SecurityGroup, KeyPair, InstanceType,
  TypesPage, Region, Ec2,
}
use aws_iprotate_python.Config.{
  ConfigLoader, AwsConfig, new_loader, on_parser, load_aws_config, set_loader_value, write_changes,
}

pub record Aws : Type 0 where
  pub config : ConfigLoader
  pub config_name : String
  pub aws_config : AwsConfig
  pub ec2 : Option Session
  pub resource : Option Session
  pub key_pair_name : Option String
  pub security_group : Option SecurityGroup

pub record Self (W : Type 0) : Type 0 where
  pub host : Host W
  pub aws : Aws

module _ {W : Type 0} where
  -- a statement about the machine, in a method
  abbrev pub here : {A : Type 0} → Exec (Host W) A → Exec (Self W) A
  here m s = let (r, h) = m s.host in (r, record s { host = h })

  abbrev pub update : (Aws → Aws) → Exec (Self W) Unit
  update f = modify (λ s. record s { aws = f s.aws })

  -- a method of an object, called from outside it: the object is handed back
  abbrev pub call : {A : Type 0} → Exec (Self W) A → Aws → Exec (Host W) (A × Aws)
  call m a h =
      let (r, s) = m (record { host = h; aws = a }) in
      elim r [ ok x ↦ (ok (x, s.aws), s.host) | err e ↦ (err e, s.host) ]

  -- `Aws(config_name)`
  unfoldable pub new_aws : String → Exec (Host W) Aws
  new_aws name = do
    loader ← new_loader
    (aws_config, loader') ← on_parser (load_aws_config name) loader
    pure (record {
      config = loader';
      config_name = name;
      aws_config = aws_config;
      ec2 = none;
      resource = none;
      key_pair_name = none;
      security_group = none;
    })

  -- `self.config.set_value(...)`, `self.config.write_changes(...)`
  unfoldable pub save_instance_id : String → Exec (Self W) Unit
  save_instance_id instance_id = do
    s ← gets (λ s. s.aws)
    loader ← here (set_loader_value s.config_name "instanceid" (some instance_id) s.config)
    update (λ a. record a { config = loader })
    here (write_changes s.config_name loader)

  -- `self.aws_config = self.config.load_aws_config(self.config_name)`
  unfoldable pub reload_aws_config : Exec (Self W) Unit
  reload_aws_config = do
    s ← gets (λ s. s.aws)
    (aws_config, loader) ← here (on_parser (load_aws_config s.config_name) s.config)
    update (λ a. record a { config = loader; aws_config = aws_config })
