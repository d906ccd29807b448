-- ===== src/Aws/Launch/Saved.antt =====
-- What `launch_instance` of functions/aws.py has saved when it returns.
use aws_iprotate_python.Aws.Launch.Begun.{Started, asked, create_instance-Started}
use aws_iprotate_python.Aws.Launch.Made.{Made, ask-Made, or_raise-Made, create_instance-Made}
use aws_iprotate_python.Aws.Launch.Stored.{
  Saved, saves_as, reloads, save_instance_id-world, reload_aws_config-world,
}
use aws_iprotate_python.Aws.Reuse.{find_reusable-none}
use aws_iprotate_python.Prelude.{
  String, ◌≡◌, refl, sym, subst, ap, ◌∙◌, inl, inr, Option, none, some, List, [], ◌∷◌, arith, ◌⊎◌,
}
use aws_iprotate_python.Py.{Error, type_error, Result, ok, err, Exec, pure, ◌>>◌, index_error}
use aws_iprotate_python.Py.Ensures.{Ensures, Ensures-ok, Ensures-raises, Ensures-bind}
use aws_iprotate_python.ConfigParser.{AllDistinct, option}
use aws_iprotate_python.Outside.{Ec2, Instance, Session, Reservation}
use aws_iprotate_python.Config.{AwsConfig}
use aws_iprotate_python.Aws.{Self, save_instance_id, reload_aws_config}
use aws_iprotate_python.Aws.Client.{ask, listed}
use aws_iprotate_python.Aws.Launch.{
  launch_new, launch_instance, create_instance, keep_instance, use_or_launch, find_reusable,
}

-- The object, its parser and config.conf have one id of an instance.
pub record Agrees {W : Type 0} (name i : String) (s : Self W) : Type 0 where
  pub object : s.aws.aws_config.instance_id ≡ i
  pub parsed : option s.aws.config.config name "instanceid" ≡ some i
  pub on_disk : option s.host.conf name "instanceid" ≡ some i

module _ {W : Type 0} (ec2 : Ec2 W) (i name : String) where
  -- the last call, whose answer nothing reads
  abbrev describe : Exec (Self W) Unit
  describe = do ask ec2 (λ session. ec2.describe_instances session (i ∷ [])); pure tt

  describe_frame :
      (s : Self W) → ((describe s).1.aws ≡ s.aws) × ((describe s).1.host.conf ≡ s.host.conf)
  describe_frame s = ground arith

  describes :
      (aws : AwsConfig) (s : Self W)
      → aws.instance_id ≡ i
      → Saved name i aws s
      → Ensures (λ _ s'. Agrees name i s') (describe s)
  unfolding Saved
  describes aws s has (held, same, written) =
      let (object, conf) = describe_frame s in
      record {
        at = λ _ _. record {
          object = ap (λ a. a.aws_config.instance_id) object ∙ ap (λ a. a.instance_id) same ∙ has;
          parsed = ap (λ a. option a.config.config name "instanceid") object ∙ held.parsed;
          on_disk = ap (λ c. option c name "instanceid") conf ∙ written;
        };
      }

  -- Outside the program nothing has happened but that call.
  unfoldable pub Described : W → Self W → Type 0
  Described before s' =
      (session : Session) × (answer : Option (List Reservation)) × (ec2.describe_instances session
          (i ∷ []) before
        ≡ (ok answer, s'.host.world))

  described :
      (s : Self W) (before : W)
      → s.host.world ≡ before
      → Ensures (λ _ s'. Described before s') (describe s)
  unfolding Described
  described s before e =
      Ensures-bind (ask ec2 (λ session. ec2.describe_instances session (i ∷ []))) _ s
        (asked ec2 (λ session. ec2.describe_instances session (i ∷ [])) s)
        λ answer s' (session, had).
          Ensures-ok tt s'
            (session, answer, ap (λ v. ec2.describe_instances session (i ∷ []) v) (sym e) ∙ had)

  -- in the world `v`
  unfoldable Within : {A : Type 0} → W → A → Self W → Type 0
  Within v _ s' = s'.host.world ≡ v

  ends_described :
      (s : Self W) → Ensures (λ _ s'. Described s.host.world s') (keep_instance ec2 i s)
  unfolding keep_instance Within
  ends_described s =
      Ensures-bind {P = Within s.host.world} (save_instance_id i) _ s
        (record { at = λ _ _. save_instance_id-world i s })
        λ _ s₁ e₁.
          Ensures-bind {P = Within s.host.world} reload_aws_config _ s₁
            (record { at = λ _ _. reload_aws_config-world s₁ ∙ e₁ })
            λ _ s₂ e₂.
              let aws : AwsConfig = record s₂.aws.aws_config { instance_id = i } in
              let s₃ : Self W = record s₂ { aws = record s₂.aws { aws_config = aws } } in
              Ensures-bind {P = Within s.host.world} (save_instance_id i) (λ _. describe) s₃
                (record { at = λ _ _. save_instance_id-world i s₃ ∙ e₂ })
                λ _ s₄ e₄. described s₄ s.host.world e₄

  keeps_instance :
      (s : Self W)
      → s.aws.config_name ≡ name
      → AllDistinct s.aws.config.config
      → Ensures (λ _ s'. Agrees name i s') (keep_instance ec2 i s)
  unfolding keep_instance Saved
  keeps_instance s named distinct =
      Ensures-bind (save_instance_id i) _ s (saves_as i name s named distinct) λ _ s₁ saved.
        Ensures-bind reload_aws_config _ s₁ (reloads i name s₁ saved.0) λ _ s₂ held.
          let aws : AwsConfig = record s₂.aws.aws_config { instance_id = i } in
          let s₃ : Self W = record s₂ { aws = record s₂.aws { aws_config = aws } } in
          Ensures-bind (save_instance_id i) (λ _. describe) s₃
            (saves_as i name s₃ held.named held.distinct)
            λ _ s₄ saved'. describes aws s₄ refl saved'

module _ {W : Type 0} (ec2 : Ec2 W) (s : Self W) (distinct : AllDistinct s.aws.config.config) where
  -- The object, its parser and config.conf have the id of the instance that EC2 has just made and
  -- that runs; after that EC2 was only asked to describe it.
  abbrev pub OneId : Self W → Type 0
  OneId s' =
      (i : String) × (running : W) × Agrees s.aws.config_name i s'
      × Started ec2 i running
      × Described ec2 i s.aws.config_name running s'

  launches :
      (t : Self W)
      → Made s.aws.config s.aws.config_name t
      → Ensures (λ _ s'. OneId s') (launch_new ec2 t)
  unfolding launch_new
  launches t m =
      Ensures-bind
        {P = λ i s'. Made s.aws.config s.aws.config_name s' × Started ec2 i s'.host.world}
        (create_instance ec2) (keep_instance ec2) t
        (record {
          at = λ i e. (
            (create_instance-Made ec2 s.aws.config s.aws.config_name).at t m,
            (create_instance-Started ec2 t).at i e,
          );
        })
        λ i s₁ (made, started).
          let kept =
            keeps_instance ec2 i s.aws.config_name s₁ made.named
              (subst (λ l. AllDistinct l.config) (sym made.config) distinct) in
          let asked_last = ends_described ec2 i s.aws.config_name s₁ in
          record { at = λ u e. (i, s₁.host.world, kept.at u e, started, asked_last.at u e) }

  -- the search for an instance to use again finds none
  new_one :
      (r : Result (Option Instance) × Self W) (s₁ : Self W)
      → (r ≡ (ok none, s₁)) ⊎ (r ≡ (err index_error, s₁))
      → Ensures (λ o s'. (o ≡ none) × (s' ≡ s₁)) r
  new_one r s₁ (inl e) =
      subst (Ensures (λ o s'. (o ≡ none) × (s' ≡ s₁))) (sym e) (Ensures-ok none s₁ (refl, refl))
  new_one r s₁ (inr e) = Ensures-raises r index_error (ap (λ x. x.0) e)

  uses_or_launches :
      (o : Option Instance) (t : Self W)
      → o ≡ none
      → Made s.aws.config s.aws.config_name t
      → Ensures (λ _ s'. OneId s') (use_or_launch ec2 o t)
  uses_or_launches o t e m =
      subst (λ r. Ensures (λ _ s'. OneId s') (use_or_launch ec2 r t)) (sym e) (launches t m)

  launch_instance-Ensures : Ensures (λ _ s'. OneId s') (launch_instance ec2 s)
  unfolding launch_instance
  launch_instance-Ensures =
      let first_made : Made s.aws.config s.aws.config_name s = record {
        config = refl;
        named = refl;
      } in
      Ensures-bind {P = λ _ s'. Made s.aws.config s.aws.config_name s'}
        (ask ec2 (λ session. ec2.describe_instances session [])) _ s
        (record {
          at = λ _ _.
              (ask-Made ec2 s.aws.config s.aws.config_name
                  (λ session. ec2.describe_instances session [])).at
                s first_made;
        })
        λ response s₁ m₁.
          Ensures-bind {P = λ _ s'. Made s.aws.config s.aws.config_name s'} (listed ec2 response) _
            s₁
            (record {
              at = λ _ _.
                  (or_raise-Made ec2 s.aws.config s.aws.config_name response
                      (type_error "'NoneType' object is not subscriptable")).at
                    s₁ m₁;
            })
            λ reservations s₂ m₂.
              Ensures-bind (find_reusable reservations) (use_or_launch ec2) s₂
                (new_one (find_reusable reservations s₂) s₂ (find_reusable-none reservations s₂))
                λ o s₃ (none_found, same).
                  uses_or_launches o s₃ none_found
                    (subst (Made s.aws.config s.aws.config_name) (sym same) m₂)

  -- It raises, or it has saved the id of a new instance.
  abbrev pub Launched : Result (Unit {0}) × Self W → Type 0
  Launched x = ((e : Error) × (x.0 ≡ err e)) ⊎ ((x.0 ≡ ok tt) × OneId x.1)

  launched : (x : Result (Unit {0}) × Self W) → Ensures (λ _ s'. OneId s') x → Launched x
  launched (ok _, s') p = inr (refl, p.at _ refl)
  launched (err e, s') p = inl (e, refl)

  -- With a parser in which no option stands twice, `launch_instance` raises an exception, or it
  -- returns: then EC2 has made an instance, the first of its answer to `create_instances`, and waited
  -- until it ran, and it is the id of this instance that the object, its parser and config.conf have;
  -- the one call of EC2 after that asks for its description.
  pub launch_instance_lem : Launched (launch_instance ec2 s)
  launch_instance_lem = launched (launch_instance ec2 s) launch_instance-Ensures
