-- ===== src/Config/Sets.antt =====
-- A value that `set_value` and `write_changes` of functions/main.py put into the parser and into
-- config.conf.
use aws_iprotate_python.Prelude.{
  String, ◌≡◌, refl, sym, subst, ◌∙◌, inl, inr, Option, Option-cases, none, some, arith, eq_refl,
}
use aws_iprotate_python.Prelude.Dict.{lookup, insert, lookup-insert_same, insert-IsDistinct}
use aws_iprotate_python.Py.{ok, err, no_section, type_error}
use aws_iprotate_python.Py.Ensures.{Ensures, Ensures-ok, Ensures-raises, Ensures-weaken}
use aws_iprotate_python.ConfigParser.{Section, AllDistinct, option, set, set_value}
use aws_iprotate_python.ConfigParser.Laws.{
  option-there, lookup-AllDistinct, option-insert, insert-AllDistinct,
}
use aws_iprotate_python.Host.{Host}
use aws_iprotate_python.Config.{ConfigLoader, set_loader_value, write_changes}
use aws_iprotate_python.Config.Numbering.{section_of}
use aws_iprotate_python.Config.Writes.{write_changes_lem}

-- The parser of a loader has the value, and no option twice.
pub record HasValue (name key v : String) (loader : ConfigLoader) : Type 0 where
  pub has : option loader.config name key ≡ some v
  pub distinct : AllDistinct loader.config

module _ {W : Type 0} (name key : String) where
  none_raises :
      (loader : ConfigLoader) (h : Host W)
      → (set_loader_value name key none loader h).0
        ≡ err (type_error "option values must be strings")
  unfolding set_loader_value set_value
  none_raises loader h = ground arith

  missing_raises :
      (v : String) (loader : ConfigLoader) (h : Host W)
      → lookup name loader.config ≡ none
      → (set_loader_value name key (some v) loader h).0 ≡ err (no_section name)
  unfolding set_loader_value set_value set
  missing_raises v loader h e = ground arith

  sets_there :
      (v : String) (loader : ConfigLoader) (h : Host W) (sec : Section)
      → lookup name loader.config ≡ some sec
      → set_loader_value name key (some v) loader h
        ≡ (ok (record loader { config = insert name (insert key v sec) loader.config }), h)
  unfolding set_loader_value set_value set
  sets_there v loader h sec e = ground arith

  -- for a value that is there; nothing of the machine changes
  sets_value :
      (v : String) (loader : ConfigLoader) (h : Host W)
      → AllDistinct loader.config
      → Ensures
          (λ l h'. HasValue name key v l × (h' ≡ h))
          (set_loader_value name key (some v) loader h)
  sets_value v loader h distinct = elim (Option-cases (lookup name loader.config)) [
    | inl gone ↦ Ensures-raises _ _ (missing_raises v loader h gone)
    | inr (sec, there) ↦
        subst (Ensures (λ l h'. HasValue name key v l × (h' ≡ h)))
          (sym (sets_there v loader h sec there))
          (Ensures-ok (record loader { config = insert name (insert key v sec) loader.config }) h
            (
              record {
                has =
                    option-insert name (insert key v sec) loader.config name key
                    ∙ rw (eq_refl name) (lookup-insert_same key v sec);
                distinct =
                    insert-AllDistinct name (insert key v sec) loader.config
                      (insert-IsDistinct key v sec
                        (lookup-AllDistinct name loader.config sec distinct there))
                      distinct;
              },
              refl,
            ))
  ]

  pub set_loader_value-Ensures :
      (value : Option String) (loader : ConfigLoader) (h : Host W)
      → AllDistinct loader.config
      → Ensures
          (λ l h'. ((v : String) × (value ≡ some v) × HasValue name key v l) × (h' ≡ h))
          (set_loader_value name key value loader h)
  set_loader_value-Ensures none loader h distinct = Ensures-raises _ _ (none_raises loader h)
  set_loader_value-Ensures (some v) loader h distinct =
      Ensures-weaken _ (sets_value v loader h distinct) (λ l h' s. ((v, refl, s.0), s.1))

  -- only config.conf changes
  pub write_changes-Ensures :
      (v : String) (loader : ConfigLoader) (h : Host W)
      → HasValue name key v loader
      → Ensures
          (λ _ h'. (option h'.conf name key ≡ some v) × (h'.world ≡ h.world))
          (write_changes name loader h)
  write_changes-Ensures v loader h s =
      let (target, there) = section_of name key loader.config v s.has in
      let (c, e, options) =
        write_changes_lem name loader h target there
          (lookup-AllDistinct name loader.config target s.distinct there) in
      let value : lookup key target ≡ some v =
        sym (option-there name loader.config target there key) ∙ s.has in
      subst (Ensures (λ _ h'. (option h'.conf name key ≡ some v) × (h'.world ≡ h.world))) (sym e) (
        Ensures-ok tt (record h { conf = c })
          (ground (arith, options name key, value, eq_refl name), refl))
