-- ===== src/Aws/Rotate.antt =====
-- `get_new_ip` of functions/aws.py.
pub mod Replace
use aws_iprotate_python.Prelude.{String, ◌<>◌, Option, none, some, ◌==◌, if◌then◌else◌}
use aws_iprotate_python.Py.{raised, message, Exec, pure, raise, gets, except, ◌>>=◌, ◌>>◌}
use aws_iprotate_python.Outside.{Ec2}
use aws_iprotate_python.Aws.{Self}
use aws_iprotate_python.Aws.Client.{
  get_instance_address, disassociate_and_release_ip, allocate_and_associate_ip,
}
use aws_iprotate_python.Aws.Launch.{launch_instance, terminate_instance}

pub record NewIp : Type 0 where
  pub old_ip : Option String
  pub new_ip : String

module _ {W : Type 0} (ec2 : Ec2 W) where
  replace_ip : Exec (Self W) NewIp
  replace_ip = do
    old_ip ← get_instance_address ec2
    disassociate_and_release_ip ec2
    allocate_and_associate_ip ec2
    new_ip ← get_instance_address ec2
    pure (record { old_ip = some old_ip; new_ip = new_ip })

  replace_instance : Exec (Self W) NewIp
  replace_instance = do
    terminate_instance ec2
    launch_instance ec2
    new_ip ← get_instance_address ec2
    pure (record { old_ip = none; new_ip = new_ip })

  unfoldable pub get_new_ip : Exec (Self W) NewIp
  unfolding replace_ip replace_instance
  get_new_ip =
      except
        (do
          a ← gets (λ s. s.aws)
          if a.aws_config.instance_id == "" then replace_instance else replace_ip)
        (λ e. raise (raised ("Error getting new IP: " <> message e)))
