-- ===== src/Aws/Launch/Begun.antt =====
-- The instance that EC2 has made where `create_instance`, a part of `launch_instance` of
-- functions/aws.py, returns.
use aws_iprotate_python.Prelude.{String, ◌≡◌, refl, ap, sym, ◌∙◌, Option, none, some, List, [], ◌∷◌}
use aws_iprotate_python.Py.{attribute_error, Exec, ok, pure, gets, or_raise, first, ◌>>=◌, ◌>>◌}
use aws_iprotate_python.Py.Ensures.{
  Ensures, Ensures-ok, Ensures-skip, Ensures-bind, Ensures-err, Ensures-weaken,
}
use aws_iprotate_python.Outside.{LaunchRequest, Session, Ec2, InstanceType}
use aws_iprotate_python.Aws.{Self, here}
use aws_iprotate_python.Host.{outside}
use aws_iprotate_python.Aws.Client.{ask, connect, self_ec2}
use aws_iprotate_python.Aws.Launch.{
  create_security_group, get_instance_type_free_tier, set_keypair, describe_images, create_instance,
  start_instance, user_data,
}

-- The account right after EC2 has made an instance, first in its answer, and waited until it ran.
pub record Started {W : Type 0} (ec2 : Ec2 W) (i : String) (running : W) : Type 0 where
  pub resource : Session
  pub session : Session
  pub request : LaunchRequest
  pub others : List String
  pub before : W
  pub created : W
  pub made : ec2.create_instances resource request before ≡ (ok (i ∷ others), created)
  pub waited : ec2.wait_running session i created ≡ (ok tt, running)

module _ {W : Type 0} (ec2 : Ec2 W) where
  -- what a call of EC2 that returns has answered
  called :
      {A : Type 0} (m : Exec W A) (s : Self W)
      → Ensures (λ a s'. m s.host.world ≡ (ok a, s'.host.world)) (here (outside m) s)
  called m s = record { at = λ a e. ap (λ r. (r, (m s.host.world).1)) e }

  pub asked :
      {A : Type 0} (m : Session → Exec W A) (s : Self W)
      → Ensures
          (λ a s'. (session : Session) × (m session s.host.world ≡ (ok a, s'.host.world)))
          (ask ec2 m s)
  asked m s =
      Ensures-bind (self_ec2 ec2) (λ session. here (outside (m session))) s (at_self s)
        λ session s' same.
          Ensures-weaken (here (outside (m session)) s') (called (m session) s')
            λ a s'' e. (session, ap (λ t. m session t.host.world) (sym same) ∙ e)
    where
      at_self : (s : Self W) → Ensures (λ _ s'. s' ≡ s) (self_ec2 ec2 s)
      at_self s = by_session s.aws.ec2
        where
          by_session :
              (o : Option Session)
              → Ensures
                  (λ _ s'. s' ≡ s)
                  (or_raise o (attribute_error "'Aws' object has no attribute 'ec2'") s)
          by_session none = Ensures-err _ s
          by_session (some session) = Ensures-ok session s refl

  -- the instance that is the first of the answer, once it runs
  waits :
      (resource : Session) (request : LaunchRequest) (before : W) (ids : List String) (s : Self W)
      → ec2.create_instances resource request before ≡ (ok ids, s.host.world)
      → Ensures
          (λ i s'. Started ec2 i s'.host.world)
          ((do
            new_id ← first ids
            ask ec2 (λ session. ec2.wait_running session new_id)
            pure new_id)
            s)
  waits resource request before [] s e = Ensures-err _ s
  waits resource request before (i ∷ others) s e =
      Ensures-bind (ask ec2 (λ session. ec2.wait_running session i)) (λ _. pure i) s
        (asked (λ session. ec2.wait_running session i) s)
        λ _ s' (session, waited). Ensures-ok i s' (record {
          resource = resource;
          session = session;
          request = request;
          others = others;
          before = before;
          created = s.host.world;
          made = e;
          waited = waited;
        })

  -- Where it returns, EC2 has made the instance of this id and waited until it ran.
  start_instance-Started :
      (resource : Session) (chosen : InstanceType) (key_pair_name : Option String) (image : String)
      (s : Self W)
      → Ensures
          (λ i s'. Started ec2 i s'.host.world)
          (start_instance ec2 resource chosen key_pair_name image s)
  unfolding start_instance
  start_instance-Started resource chosen key_pair_name image s =
      Ensures-skip
        (or_raise key_pair_name (attribute_error "'Aws' object has no attribute 'key_pair_name'")) _
        s
        λ key_name s₁.
          let request : LaunchRequest = record {
            image_id = image;
            instance_type = chosen.instance_type;
            key_name = key_name;
            user_data = user_data;
          } in
          Ensures-bind (here (outside (ec2.create_instances resource request))) _ s₁
            (called (ec2.create_instances resource request) s₁)
            λ ids s₂ made. waits resource request s₁.host.world ids s₂ made

  pub create_instance-Started :
      (s : Self W) → Ensures (λ i s'. Started ec2 i s'.host.world) (create_instance ec2 s)
  unfolding create_instance
  create_instance-Started s = Ensures-skip (create_security_group ec2) _ s λ _ s₁.
      Ensures-skip (get_instance_type_free_tier ec2) _ s₁ λ found s₂.
        Ensures-skip (or_raise found (attribute_error "'NoneType' object has no attribute 'get'")) _
          s₂
          λ chosen s₃. Ensures-skip (connect ec2) _ s₃ λ _ s₄.
            Ensures-skip (set_keypair ec2) _ s₄ λ _ s₅.
              Ensures-skip (gets (λ s. s.aws)) _ s₅ λ a s₆.
                Ensures-skip
                  (or_raise a.resource (attribute_error "'Aws' object has no attribute 'resource'"))
                  _ s₆
                  λ resource s₇. Ensures-skip (describe_images ec2) _ s₇ λ images s₈.
                    Ensures-skip (first images) (start_instance ec2 resource chosen a.key_pair_name)
                      s₈ λ image s₉. start_instance-Started resource chosen a.key_pair_name image s₉
