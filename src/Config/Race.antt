-- ===== src/Config/Race.antt =====
-- A constructor of `class ConfigLoader` in functions/main.py that runs beside `write_changes`: it
-- reads config.conf before the write, and writes the file, without the lock, after it.
use aws_iprotate_python.Prelude.{
  ℕ, ◌+◌, String, ◌≡◌, refl, sym, Bool, true, false, Bool-cases, inl, inr, some, List, [], ◌∷◌,
  ◌++◌, arith, ◌==◌, ap, ◌∙◌, cond, eq_refl,
}
use aws_iprotate_python.Prelude.Dict.{lookup, keys}
use aws_iprotate_python.Py.{ok}
use aws_iprotate_python.Py.Keeps.{bind_from}
use aws_iprotate_python.ConfigParser.{Section, Conf, sections, section, set}
use aws_iprotate_python.Host.{Host}
use aws_iprotate_python.Config.{
  AwsConfig, ConfigLoader, number_config, reset_aws_config_order, reorder_aws_config, load_configs,
  load_all_aws_config, write_changes, update_section,
}
use aws_iprotate_python.Config.Numbering.{profiles}

-- the first profile of a file has a section
first_of :
    (b : Bool) (s : String) (sec : Section) (c : Conf) (p : String) (names ps : List String)
    → (names ≡ p ∷ ps → (sec' : Section) × (lookup p c ≡ some sec'))
    → cond b names (s ∷ names) ≡ p ∷ ps
    → (sec' : Section) × (lookup p ((s, sec) ∷ c) ≡ some sec')
unfolding lookup
first_of true s sec c p names ps later h = elim (Bool-cases (s == p)) [
  | inl e ↦ (sec, rw e refl)
  | inr e ↦ let (sec', there) = later h in (sec', rw e there)
]
first_of false s sec c p names ps later h = let e : s ≡ p = cc in (sec, rw (e, eq_refl p) refl)

first_section :
    (c : Conf) (p : String) (ps : List String)
    → profiles (keys c) ≡ p ∷ ps
    → (sec : Section) × (lookup p c ≡ some sec)
first_section [] p ps h = absurd (cc)
first_section ((s, sec) ∷ c) p ps h =
    first_of (s == "api") s sec c p (profiles (keys c)) ps (first_section c p ps) h

module _ {W : Type 0} (c : Conf) (h : Host W) (other : Conf) where
  -- a round writes the file anew, from the parser
  number_config-overwrites :
      (s : String) (n : ℕ) (sec : Section)
      → lookup s c ≡ some sec
      → number_config s n c (record h { conf = other }) ≡ number_config s n c h
  unfolding number_config reset_aws_config_order reorder_aws_config set
  number_config-overwrites s n sec there = ground arith

  load_configs-overwrites :
      (names : List String) (n : ℕ) (acc : List AwsConfig) (p : String) (ps : List String)
      (sec : Section)
      → profiles names ≡ p ∷ ps
      → lookup p c ≡ some sec
      → load_configs names n acc c (record h { conf = other }) ≡ load_configs names n acc c h
  unfolding load_configs
  load_configs-overwrites [] n acc p ps sec first there = absurd (cc)
  load_configs-overwrites (s ∷ names) n acc p ps sec first there = elim (Bool-cases (s == "api")) [
    | inl e ↦
        let later : profiles names ≡ p ∷ ps = sym (passes e) ∙ first in
        rw (e, load_configs) (load_configs-overwrites names n acc p ps sec later there)
    | inr e ↦
        let heads : s ∷ profiles names ≡ p ∷ ps = sym (passes e) ∙ first in
        let named : s ≡ p = cc in
        rw (e, load_configs)
          (ap (λ x. bind_from x (λ r. load_configs names (n + 1) (acc ++ r.0 ∷ []) r.1))
            (number_config-overwrites s n sec (rw named there)))
  ]
    where
      passes :
          {b : Bool}
          → (s == "api") ≡ b
          → profiles (s ∷ names) ≡ cond b (profiles names) (s ∷ profiles names)
      passes e = ap (λ b. cond b (profiles names) (s ∷ profiles names)) e

-- Where `write_changes` of one thread comes between the read and the numbering of another thread's
-- constructor, and the file has a profile, the constructor leaves the file, its list and its parser
-- as if nothing had been written: the write is lost.
pub write_is_lost :
    {W : Type 0} (name : String) (loader : ConfigLoader) (h : Host W) (target : Section)
    (p : String) (ps : List String)
    → lookup name loader.config ≡ some target
    → profiles (sections h.conf) ≡ p ∷ ps
    → let read_before = h.conf in
      ((write_changes name loader h).1.conf ≡ update_section name target h.conf)
      × (load_all_aws_config read_before (write_changes name loader h).1
          ≡ load_all_aws_config read_before h)
unfolding write_changes section load_all_aws_config
write_is_lost name loader h target p ps there first =
    let (sec, has) = first_section h.conf p ps first in
    let written : write_changes name loader h
        ≡ (ok tt, record h { conf = update_section name target h.conf }) =
      ground arith in
    (
      ap (λ x. x.1.conf) written,
      rw written (
          load_configs-overwrites h.conf h (update_section name target h.conf) (sections h.conf) 1
            [] p ps sec first has),
    )
