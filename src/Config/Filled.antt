-- ===== src/Config/Filled.antt =====
-- The constructor of `class ConfigLoader` in functions/main.py fills in what is missing in config.conf.
use aws_iprotate_python.ConfigParser.Laws.{option-insert, option-there}
use aws_iprotate_python.Prelude.{
  String, ◌≡◌, true, false, none, some, arith, ◌==◌, eq_iff, Bool-cases, inl, inr, ◌∙◌, ◌⊎◌, sym,
  Option, ◌&&◌,
}
use aws_iprotate_python.Prelude.Dict.{lookup, insert, lookup-insert}
use aws_iprotate_python.ConfigParser.{Section, Conf, option}
use aws_iprotate_python.Config.Defaults.{default_of}
use aws_iprotate_python.Config.Stable.{IsStable}

-- Beside the orders, `c` has every option of `c₀` as it is there, and what it has beyond that is an
-- option at its default.
abbrev pub OnlyDefaults : Conf → Conf → Type 0
OnlyDefaults c₀ c =
    (s k : String)
    → ("order" == k) ≡ false
    → (option c s k ≡ option c₀ s k) ⊎ ((option c₀ s k ≡ none) × (option c s k ≡ default_of k))

-- one option that is filled after others
filled_again :
    {o o₀ o' d : Option String}
    → (o' ≡ o) ⊎ ((o ≡ none) × (o' ≡ d))
    → (o ≡ o₀) ⊎ ((o₀ ≡ none) × (o ≡ d))
    → (o' ≡ o₀) ⊎ ((o₀ ≡ none) × (o' ≡ d))
filled_again (inl p) (inl q) = inl (p ∙ q)
filled_again (inl p) (inr (q, r)) = inr (q, p ∙ r)
filled_again (inr (p, r)) (inl q) = inr (sym q ∙ p, r)
filled_again (inr (p, r)) (inr (q, _)) = inr (q, r)

-- an option is set that is the order, or is missing and gets its default
filled_once :
    (s k x : String) (sec : Section) (c : Conf)
    → lookup s c ≡ some sec
    → (("order" == k) ≡ true) ⊎ ((lookup k sec ≡ none) × (default_of k ≡ some x))
    → OnlyDefaults c (insert s (insert k x sec) c)
filled_once s k x sec c there (inl e) s' k' n = inl (
    ground (
      arith,
      option-insert s (insert k x sec) c s' k',
      lookup-insert k k' x sec,
      option-there s c sec there k',
      eq_iff s s',
      eq_iff k k',
      eq_iff "order" k,
      n,
    ))
filled_once s k x sec c there (inr (gone, default)) s' k' n =
    elim (Bool-cases ((s == s') && (k == k'))) [
      | inl e ↦ inr (
        ground (arith, option-there s c sec there k, eq_iff s s', eq_iff k k'),
        ground (
          arith,
          option-insert s (insert k x sec) c s' k',
          lookup-insert k k' x sec,
          eq_iff s s',
          eq_iff k k',
        ),
      )
      | inr e ↦ inl (
          ground (
            arith,
            option-insert s (insert k x sec) c s' k',
            lookup-insert k k' x sec,
            option-there s c sec there k',
            eq_iff s s',
            eq_iff k k',
          ))
    ]

pub OnlyDefaults-IsStable : (c₀ : Conf) → IsStable (OnlyDefaults c₀)
OnlyDefaults-IsStable c₀ = record {
  fill = λ s k x sec c there why before s' k' n.
      filled_again (filled_once s k x sec c there why s' k' n) (before s' k' n);
}
