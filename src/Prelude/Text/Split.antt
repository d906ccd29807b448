-- ===== src/Prelude/Text/Split.antt =====
-- What `split` gives, by the text before the first separator.
use Prim.Native.Nat.{ℕ}
use Prim.Native.String
use Prim.Native.String.{String, [], ◌∷◌}
use Prim.Native.Char.{Char, code}
use mathlib.Core.List
use mathlib.Core.List.{List}
use text.Mathlib.TextLemmas.{nil-append, append-nil, append_assoc, cons-append}
use mathlib.Core.Path.{◌≡◌, refl, sym, ap, ◌∙◌}
use mathlib.Core.Bool.{Bool, true, false, cond}
use mathlib.Core.Logic.{inl, inr}
use native.Mathlib.Omega.{arith}
use aws_iprotate_python.Prelude.{Bool-cases}
use aws_iprotate_python.Prelude.Text.{is, push, split, split_from}

-- the text before the first separator
unfoldable pub until : ℕ → String → String
until sep [] = []
until sep (c ∷ s) = let rest = until sep s in cond (is (code c) sep) [] (c ∷ rest)

-- a text without a separator
unfoldable pub lacks : ℕ → String → Bool
lacks sep [] = true
lacks sep (c ∷ s) = cond (is (code c) sep) false (lacks sep s)

pub push-append : (cur s : String) (c : Char) → String.◌++◌ (push cur c) s ≡ String.◌++◌ cur (c ∷ s)
push-append cur s c = rw append_assoc (rw cons-append (rw nil-append refl))

-- the list that `split` has made when it has read the first part
split_from_head :
    (sep : ℕ) (s : String) (parts : List String) (cur : String)
    → (rest : List String) × (split_from sep parts cur s
        ≡ List.◌++◌ parts (List.◌∷◌ (String.◌++◌ cur (until sep s)) rest))
unfolding split_from until
split_from_head sep [] parts cur = (List.[], rw append-nil refl)
split_from_head sep (c ∷ s) parts cur = elim (Bool-cases (is (code c) sep)) [
  | inl e ↦
      let (rest, p) = split_from_head sep s (List.◌++◌ parts (List.◌∷◌ cur List.[])) "" in
      (
        List.◌∷◌ (String.◌++◌ "" (until sep s)) rest,
        rw (e, split_from, until)
            (p
              ∙ List.append_assoc parts (List.◌∷◌ cur List.[])
                  (List.◌∷◌ (String.◌++◌ "" (until sep s)) rest)
              ∙ ap
                  (λ x. List.◌++◌ parts (List.◌∷◌ x (List.◌∷◌ (String.◌++◌ "" (until sep s)) rest)))
                  (sym (append-nil cur))),
      )
  | inr e ↦
      let (rest, p) = split_from_head sep s parts (push cur c) in
      (
        rest,
        rw (e, split_from, until)
            (p ∙ ap (λ x. List.◌++◌ parts (List.◌∷◌ x rest)) (push-append cur (until sep s) c)),
      )
]

pub split_head :
    (sep : ℕ) (s : String) → (rest : List String) × (split sep s ≡ List.◌∷◌ (until sep s) rest)
unfolding split
split_head sep s =
    let (rest, p) = split_from_head sep s List.[] "" in
    (rest, p ∙ ap (λ x. List.◌∷◌ x rest) (nil-append (until sep s)))

split_from_skip :
    (sep : ℕ) (a : String) (c : Char) (s : String) (parts : List String) (cur : String)
    → lacks sep a ≡ true
    → is (code c) sep ≡ true
    → split_from sep parts cur (String.◌++◌ a (c ∷ s))
      ≡ split_from sep (List.◌++◌ parts (List.◌∷◌ (String.◌++◌ cur a) List.[])) "" s
unfolding split_from lacks
split_from_skip sep [] c s parts cur h e = rw nil-append (rw append-nil (rw (e, split_from) refl))
split_from_skip sep (d ∷ a) c s parts cur h e = elim (Bool-cases (is (code d) sep)) [
  | inl f ↦ absurd (ground (arith, f, h))
  | inr f ↦ rw cons-append (
      rw (f, split_from)
        (split_from_skip sep a c s parts (push cur d) (ground (arith, f, h)) e
          ∙ ap (λ x. split_from sep (List.◌++◌ parts (List.◌∷◌ x List.[])) "" s)
              (push-append cur a d)))
]

-- the first two parts
pub split_second :
    (sep : ℕ) (a : String) (c : Char) (s : String)
    → lacks sep a ≡ true
    → is (code c) sep ≡ true
    → (rest : List String) × (split sep (String.◌++◌ a (c ∷ s))
        ≡ List.◌∷◌ a (List.◌∷◌ (until sep s) rest))
unfolding split
split_second sep a c s h e =
    let (rest, p) = split_from_head sep s (List.◌∷◌ a List.[]) "" in
    (
      rest,
      split_from_skip sep a c s List.[] "" h e
          ∙ ap (λ x. split_from sep (List.◌∷◌ x List.[]) "" s) (nil-append a)
          ∙ p
          ∙ ap (λ x. List.◌∷◌ a (List.◌∷◌ x rest)) (nil-append (until sep s)),
    )

pub until-append :
    (sep : ℕ) (a : String) (c : Char) (s : String)
    → lacks sep a ≡ true
    → is (code c) sep ≡ true
    → until sep (String.◌++◌ a (c ∷ s)) ≡ a
unfolding until lacks
until-append sep [] c s h e = rw nil-append (rw e refl)
until-append sep (d ∷ a) c s h e = rw cons-append (ground (arith, until-append sep a c s))

pub until-skip :
    (sep : ℕ) (a s : String)
    → lacks sep a ≡ true
    → until sep (String.◌++◌ a s) ≡ String.◌++◌ a (until sep s)
unfolding until lacks
until-skip sep [] s h = ap (until sep) (nil-append s) ∙ sym (nil-append (until sep s))
until-skip sep (d ∷ a) s h =
    ground (arith, until-skip sep a s, cons-append d a s, cons-append d a (until sep s))
