-- ===== src/Aws/Launch/Stored.antt =====
-- The id of an instance that `set_value` and `write_changes` have saved, in functions/aws.py.
use aws_iprotate_python.Config.Stable.{load_aws_config-Keeps, value-IsStable, distinct-IsStable}
use aws_iprotate_python.Config.Sets.{HasValue, set_loader_value-Ensures, write_changes-Ensures}
use aws_iprotate_python.Prelude.{
  String, ◌≡◌, arith, refl, sym, subst, ap, ◌∙◌, some, some_injective,
}
use aws_iprotate_python.Py.{Result, ok, err, Exec, ◌>>◌}
use aws_iprotate_python.Py.Ensures.{Ensures, Ensures-ok, Ensures-bind, Ensures-weaken}
use aws_iprotate_python.ConfigParser.{Conf, AllDistinct, option, section}
use aws_iprotate_python.Host.{Host}
use aws_iprotate_python.Config.{
  ConfigLoader, AwsConfig, set_loader_value, write_changes, on_parser, load_aws_config,
}
use aws_iprotate_python.Aws.{Self, here, update, save_instance_id, reload_aws_config}

-- The parser of the object has the instance's id, and no option twice.
pub record Holds {W : Type 0} (name i : String) (s : Self W) : Type 0 where
  pub parsed : option s.aws.config.config name "instanceid" ≡ some i
  pub distinct : AllDistinct s.aws.config.config
  pub named : s.aws.config_name ≡ name

here-Ensures :
    {W A : Type 0} {Q : A → Host W → Type 0} (m : Exec (Host W) A) (s : Self W)
    → Ensures Q (m s.host)
    → Ensures (λ a s'. Q a s'.host × (s'.aws ≡ s.aws)) (here m s)
here-Ensures m s p = record { at = λ a e. (p.at a e, refl) }

-- the object after `save_instance_id`
unfoldable pub Saved : {W : Type 0} → String → String → AwsConfig → Self W → Type 0
Saved name i aws s =
    Holds name i s × (s.aws.aws_config ≡ aws) × (option s.host.conf name "instanceid" ≡ some i)

module _ {W : Type 0} (name i : String) where
  -- the last two statements of `save_instance_id`
  abbrev store : ConfigLoader → Exec (Self W) Unit
  store loader = do update (λ a. record a { config = loader }); here (write_changes name loader)

  stores :
      (loader : ConfigLoader) (s : Self W)
      → HasValue name "instanceid" i loader
      → s.aws.config_name ≡ name
      → Ensures (λ _ s'. Saved name i s.aws.aws_config s') (store loader s)
  unfolding Saved
  stores loader s sets named =
      let s₁ : Self W = record s { aws = record s.aws { config = loader } } in
      Ensures-weaken (here (write_changes name loader) s₁)
        (here-Ensures (write_changes name loader) s₁
          (write_changes-Ensures name "instanceid" i loader s₁.host sets))
        λ _ s' (written, same). (
          record {
            parsed = ap (λ a. option a.config.config name "instanceid") same ∙ sets.has;
            distinct = subst (λ a. AllDistinct a.config.config) (sym same) sets.distinct;
            named = ap (λ a. a.config_name) same ∙ named;
          },
          ap (λ a. a.aws_config) same,
          written.0,
        )

module _ {W : Type 0} (i : String) where
  saves :
      (s : Self W)
      → AllDistinct s.aws.config.config
      → Ensures (λ _ s'. Saved s.aws.config_name i s.aws.aws_config s') (save_instance_id i s)
  unfolding save_instance_id
  saves s distinct =
      let name = s.aws.config_name in
      Ensures-bind (here (set_loader_value name "instanceid" (some i) s.aws.config)) (store name i)
        s
        (here-Ensures (set_loader_value name "instanceid" (some i) s.aws.config) s
          (set_loader_value-Ensures name "instanceid" (some i) s.aws.config s.host distinct))
        λ loader s' (((v, given, sets), _), same).
          subst (λ aws. Ensures (λ _ s''. Saved name i aws s'') (store name i loader s'))
            (ap (λ a. a.aws_config) same)
            (stores name i loader s'
              (subst (λ w. HasValue name "instanceid" w loader) (sym (some_injective given)) sets)
              (ap (λ a. a.config_name) same))

  -- under the name that the object was made with
  pub saves_as :
      (name : String) (s : Self W)
      → s.aws.config_name ≡ name
      → AllDistinct s.aws.config.config
      → Ensures (λ _ s'. Saved name i s.aws.aws_config s') (save_instance_id i s)
  saves_as name s named distinct =
      subst (λ n. Ensures (λ _ s'. Saved n i s.aws.aws_config s') (save_instance_id i s)) named
        (saves s distinct)

on_parser-Ensures :
    {W A : Type 0} (I : Conf → Type 0) (m : Exec Conf A) (loader : ConfigLoader) (h : Host W)
    → I (m loader.config).1
    → Ensures (λ r _. I r.1.config) (on_parser m loader h)
on_parser-Ensures {W} {A} I m loader h i = by_result (m loader.config) i
  where
    by_result :
        (x : Result A × Conf) → I x.1 → Ensures (λ r _. I r.1.config) (on_parser (λ _. x) loader h)
    by_result (ok a, c) k = Ensures-ok (a, record loader { config = c }) h k
    by_result (err e, c) k = record { at = λ a r. absurd (cc) }

-- nothing outside the program
pub save_instance_id-world :
    {W : Type 0} (i : String) (s : Self W) → (save_instance_id i s).1.host.world ≡ s.host.world
unfolding save_instance_id set_loader_value write_changes section
save_instance_id-world i s = ground arith

pub reload_aws_config-world :
    {W : Type 0} (s : Self W) → (reload_aws_config s).1.host.world ≡ s.host.world
unfolding reload_aws_config
reload_aws_config-world s = ground arith

module _ (i name : String) where
  abbrev Kept : Conf → Type 0
  Kept c = (option c name "instanceid" ≡ some i) × AllDistinct c

  Kept-load : (n : String) (c : Conf) → Kept c → Kept (load_aws_config n c).1
  Kept-load n c (has, distinct) = (
    (load_aws_config-Keeps _ (value-IsStable name "instanceid" i refl) n).at c has,
    (load_aws_config-Keeps _ distinct-IsStable n).at c distinct,
  )

module _ {W : Type 0} (i name : String) where
  -- the object reads its config again
  pub reloads :
      (s : Self W) → Holds name i s → Ensures (λ _ s'. Holds name i s') (reload_aws_config s)
  unfolding reload_aws_config
  reloads s h =
      Ensures-bind (here (on_parser (load_aws_config s.aws.config_name) s.aws.config))
        (λ r. update (λ a. record a { config = r.1; aws_config = r.0 })) s
        (here-Ensures (on_parser (load_aws_config s.aws.config_name) s.aws.config) s (
          on_parser-Ensures (Kept i name) (load_aws_config s.aws.config_name) s.aws.config s.host
            (Kept-load i name s.aws.config_name s.aws.config.config (h.parsed, h.distinct))))
        λ r s' (kept, same).
          Ensures-ok tt (record s' { aws = record s'.aws { config = r.1; aws_config = r.0 } })
            (record {
              parsed = kept.0;
              distinct = kept.1;
              named = ap (λ a. a.config_name) same ∙ h.named;
            })
