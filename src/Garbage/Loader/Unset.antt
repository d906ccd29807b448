-- ===== src/Garbage/Loader/Unset.antt =====
-- The lists of configurations of garbage/main2.py, from the constructor on.
use aws_iprotate_python.Prelude.{
  String, ◌≡◌, refl, sym, subst, ◌∙◌, ◌==◌, Bool, true, false, if◌then◌else◌, List, [], ◌∷◌, none,
  Option,
}
use aws_iprotate_python.Py.{
  Error, attribute_error, ok_injective, Result, ok, err, Exec, ◌>>=◌, pure,
}
use aws_iprotate_python.Py.Keeps.{bind_cases}
use aws_iprotate_python.ConfigParser.{Conf, sections}
use aws_iprotate_python.Garbage.Loader.{
  OldApi, Configuration, Lists, no_lists, Loaded, read_options, tencent_options, azure_options,
  aws_options, civo_options, appended, file_as, file_configuration, described, load_configuration,
  load_each, gather, load_old_api, load_configurations, new_old_loader,
}

-- what `m` leaves the four attributes unset, or raises
abbrev IsUnset : Result Lists × Conf → Type 0
IsUnset x = elim x.0 [ ok lists ↦ lists ≡ no_lists | err e ↦ Unit {0} ]

record LeavesUnset (m : Exec Conf Lists) : Type 0 where
  at : (c : Conf) → IsUnset (m c)

LeavesUnset-bind :
    {A : Type 0} (m : Exec Conf A) (f : A → Exec Conf Lists)
    → ((a : A) → LeavesUnset (f a))
    → LeavesUnset (m >>= f)
LeavesUnset-bind m f h = record {
  at = λ c. bind_cases IsUnset m f c (λ a _. (h a).at (m c).1) (λ e _. tt);
}

is_unset :
    (r : Result Lists) (c : Conf) {lists : Lists} → IsUnset (r, c) → r ≡ ok lists → no_lists ≡ lists
is_unset (ok a) c h e = sym h ∙ ok_injective e
is_unset (err e') c h e = cc

-- a statement that is run on the lists that another one leaves
LeavesUnset-then :
    (m : Exec Conf Lists) (f : Lists → Exec Conf Lists)
    → LeavesUnset m
    → LeavesUnset (f no_lists)
    → LeavesUnset (m >>= f)
LeavesUnset-then m f h k = record {
  at = λ c.
      bind_cases IsUnset m f c
        (λ a e.
          subst (λ x. IsUnset (f x (m c).1)) (is_unset (m c).0 (m c).1 (h.at c) e) (k.at (m c).1))
        (λ e _. tt);
}

LeavesUnset-if :
    (b : Bool) (m k : Exec Conf Lists)
    → LeavesUnset m
    → LeavesUnset k
    → LeavesUnset (if b then m else k)
LeavesUnset-if true m k h h' = h
LeavesUnset-if false m k h h' = h'

file_as-LeavesUnset :
    (name list_name : String) (options : List (String × String))
    (with_list : Option (List Configuration) → Lists) (d : Configuration)
    → LeavesUnset (file_as name options list_name none with_list d)
file_as-LeavesUnset name list_name options with_list d =
    LeavesUnset-bind (read_options name options d)
      (λ d'. appended list_name none d' >>= λ xs. pure (with_list xs))
      (λ _. record { at = λ _. tt })

abbrev Raises : Result Loaded × Conf → Type 0
Raises x = (e : Error) × (x.0 ≡ err e)

module _ (url : String → String → String → String → String) where
  file_configuration-LeavesUnset :
      (name type : String) (d : Configuration)
      → LeavesUnset (file_configuration url name type d no_lists)
  file_configuration-LeavesUnset name type d =
      let unset : LeavesUnset (pure no_lists) = record { at = λ _. refl } in
      LeavesUnset-if (type == "tencent") _ _
        (file_as-LeavesUnset name "tencent_config_list" tencent_options
          (λ xs. record no_lists { tencent = xs }) d)
        (LeavesUnset-if (type == "azure") _ _
          (file_as-LeavesUnset name "azure_config_list" azure_options
            (λ xs. record no_lists { azure = xs }) d)
          (LeavesUnset-if (type == "aws") _ _
            (file_as-LeavesUnset name "aws_config_list" aws_options
              (λ xs. record no_lists { aws = xs }) d)
            (LeavesUnset-if (type == "civo") _ _
              (file_as-LeavesUnset name "civo_config_list" civo_options
                (λ xs. record no_lists { civo = xs }) d)
              unset)))

  load_configuration-LeavesUnset :
      (api : OldApi) (name : String) → LeavesUnset (load_configuration url api name no_lists)
  unfolding load_configuration
  load_configuration-LeavesUnset api name =
      LeavesUnset-bind (described url api name) (λ x. file_configuration url name x.0 x.1 no_lists)
        (λ x. file_configuration-LeavesUnset name x.0 x.1)

  load_each-LeavesUnset :
      (api : OldApi) (names : List String) → LeavesUnset (load_each url api names no_lists)
  unfolding load_each
  load_each-LeavesUnset api [] = record { at = λ _. refl }
  load_each-LeavesUnset api (name ∷ names) =
      LeavesUnset-if (name == "api") _ _ (load_each-LeavesUnset api names) (
        LeavesUnset-then (load_configuration url api name no_lists) (load_each url api names)
          (load_configuration-LeavesUnset api name) (load_each-LeavesUnset api names))

  gather-no_lists :
      (api : OldApi) (c : Conf)
      → (gather url api no_lists c).0
        ≡ err (attribute_error "'ConfigLoader' object has no attribute 'civo_config_list'")
  unfolding gather
  gather-no_lists api c = refl

  load_configurations-Raises :
      (api : OldApi) (c : Conf) → Raises (load_configurations url api no_lists c)
  unfolding load_configurations
  load_configurations-Raises api c =
      bind_cases Raises (load_each url api (sections c) no_lists) (gather url api) c
        (λ a e.
          subst
            (λ lists. Raises (gather url api lists (load_each url api (sections c) no_lists c).1))
            (is_unset _ (load_each url api (sections c) no_lists c).1
              ((load_each-LeavesUnset api (sections c)).at c) e)
            (
              attribute_error "'ConfigLoader' object has no attribute 'civo_config_list'",
              gather-no_lists api _,
            ))
        (λ e _. (e, refl))

  -- Loading ends with an exception for every file: the lists of configurations are read before
  -- anything sets them.
  pub new_old_loader-Raises : (c : Conf) → (e : Error) × ((new_old_loader url c).0 ≡ err e)
  unfolding new_old_loader
  new_old_loader-Raises c =
      bind_cases Raises load_old_api (λ api. load_configurations url api no_lists) c
        (λ api _. load_configurations-Raises api (load_old_api c).1) (λ e _. (e, refl))
