-- ===== src/Tests/Elastic.antt =====
-- The theorem on elastic addresses, on an account that keeps them as EC2 documents.
use aws_iprotate_python.Aws.Rotate.Replace.{IsServing, renewed, get_new_ip_lem}
use aws_iprotate_python.Aws.Rotate.{get_new_ip}
use aws_iprotate_python.Prelude.{
  String, ◌≡◌, refl, none, some, List, [], ◌∷◌, false, ◌==◌, map, if◌then◌else◌,
}
use aws_iprotate_python.Prelude.Dict.{lookup}
use aws_iprotate_python.Prelude.Lists.{All}
use aws_iprotate_python.Py.{ok}
use aws_iprotate_python.Outside.{Address, Ec2, Instance}
use aws_iprotate_python.Aws.{Self}
use aws_iprotate_python.Aws.Client.{session_of, allocate_and_associate_ip}
use aws_iprotate_python.Aws.Elastic.{is_tagged, freed, released, IsEc2}
use aws_iprotate_python.Aws.Elastic.Release.{allocate_and_associate_ip_lem}
use aws_iprotate_python.Tests.Machine.{blank_ec2, two_profiles, alpha_config}
use aws_iprotate_python.Tests.Account.{logged_in, addresses}

abbrev Account : Type 0
Account = List Address

abbrev new_address : String → Address
new_address instance_id = record {
  allocation_id = "eip-3";
  association_id = none;
  tags = some (record { key = "instance"; value = instance_id } ∷ []);
}

abbrev associated : String → Address → Address
associated allocation a =
    if a.allocation_id == allocation then record a { association_id = some "assoc-3" } else a

abbrev keeping_ec2 : Ec2 Account
keeping_ec2 = record blank_ec2 {
  describe_addresses = λ s w. (ok w, w);
  allocate_address = λ s i w. (ok "eip-3", new_address i ∷ w);
  associate_address = λ s i a w. (ok tt, map (associated a) w);
  disassociate_address = λ s a w. (ok tt, freed a w);
  release_address = λ s a w. (ok tt, released a w);
}

keeping_ec2-IsEc2 : IsEc2 keeping_ec2 (λ w. w)
keeping_ec2-IsEc2 = record {
  describe = λ s w. refl;
  disassociate = λ s a w. refl;
  release = λ s a w. refl;
}

abbrev renter : Self Account
renter = record {
  host = record { conf = two_profiles; files = []; world = addresses };
  aws = logged_in;
}

allocate_and_associate_ip_lem_example :
    ((allocate_and_associate_ip keeping_ec2 renter).0 ≡ ok tt)
    × All
        (λ a. is_tagged "i-0" a ≡ false)
        (allocate_and_associate_ip keeping_ec2 renter).1.host.world
unfolding lookup
allocate_and_associate_ip_lem_example =
    allocate_and_associate_ip_lem keeping_ec2 (λ w. w) keeping_ec2-IsEc2 (session_of alpha_config)
      renter refl "eip-3" refl refl

-- the address that the machine has of its own, once no elastic one is left, is another
abbrev machine_at : Account → Instance
machine_at w = record {
  instance_id = "i-0";
  state = "running";
  public_ip = elim w [ [] ↦ some "192.0.2.9" | _ ∷ _ ↦ some "192.0.2.7" ];
  tags = [];
}

abbrev serving_ec2 : Ec2 Account
serving_ec2 = record keeping_ec2 {
  describe_instances = λ s l w. (ok (some (record { instances = machine_at w ∷ [] } ∷ [])), w);
}

serving_ec2-IsEc2 : IsEc2 serving_ec2 (λ w. w)
serving_ec2-IsEc2 = record {
  describe = λ s w. refl;
  disassociate = λ s a w. refl;
  release = λ s a w. refl;
}

serving_ec2-IsServing : IsServing serving_ec2 "i-0" machine_at
serving_ec2-IsServing = record {
  describe = λ s w. refl;
  allocate = λ s w. ("eip-3", refl);
  associate = λ s x w. refl;
}

get_new_ip_lem_example :
    let after = (get_new_ip serving_ec2 renter).1 in
    ((get_new_ip serving_ec2 renter).0
      ≡ renewed "192.0.2.7" (machine_at after.host.world).public_ip)
    × (after.aws ≡ renter.aws)
    × All (λ a. is_tagged "i-0" a ≡ false) after.host.world
unfolding lookup
get_new_ip_lem_example =
    get_new_ip_lem serving_ec2 (λ w. w) machine_at (session_of alpha_config) renter
      serving_ec2-IsEc2 serving_ec2-IsServing refl "192.0.2.7" refl refl
