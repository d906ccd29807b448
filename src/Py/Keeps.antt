-- ===== src/Py/Keeps.antt =====
-- Invariants of statements: `m` keeps `P`, whether it returns or raises. One rule for each way to
-- build a statement.
use aws_iprotate_python.Prelude.{refl, ◌≡◌, ap, List, [], ◌∷◌}
use aws_iprotate_python.Py.{Error, Result, ok, err, Exec, ◌>>=◌, for_each}

pub record Keeps {S A : Type 0} (P : S → Type 0) (m : Exec S A) : Type 0 where
  pub at : (s : S) → P s → P (m s).1

module _ {S A B : Type 0} {P : S → Type 0} where
  bind_at :
      (r : Result A) (s : S) (f : A → Exec S B)
      → ((a : A) → Keeps P (f a))
      → P s
      → P (let x : Result B × S = elim r [ ok a ↦ f a s | err e ↦ (err e, s) ] in x).1
  bind_at (ok a) s f k p = (k a).at s p
  bind_at (err e) s f k p = p

  pub Keeps-bind :
      (first : Exec S A) (rest : A → Exec S B)
      → Keeps P first
      → ((result : A) → Keeps P (rest result))
      → Keeps P (first >>= rest)
  Keeps-bind first rest keeps each = record {
    at = λ s p. bind_at (first s).0 (first s).1 rest each (keeps.at s p);
  }

-- the rest of a block, behind a statement that returns and behind one that raises
abbrev pub bind_from : {S A B : Type 0} → Result A × S → (A → Exec S B) → Result B × S
bind_from x f = ((λ _. x) >>= f) x.1

pub bind_ok :
    {S A B : Type 0} (m : Exec S A) (f : A → Exec S B) (s : S) {a : A} {s' : S}
    → m s ≡ (ok a, s')
    → (m >>= f) s ≡ f a s'
bind_ok m f s e = ap (λ x. bind_from x f) e

pub bind_err :
    {S A B : Type 0} (m : Exec S A) (f : A → Exec S B) (s : S) {e : Error} {s' : S}
    → m s ≡ (err e, s')
    → (m >>= f) s ≡ (err e, s')
bind_err m f s e = ap (λ x. bind_from x f) e

-- The cases of a block, for any property of its result and its last state.
module _ {ℓ} {S A B : Type 0} (P : Result B × S → Type ℓ) where
  from_cases :
      (r : Result A) (s : S) (f : A → Exec S B)
      → ((a : A) → r ≡ ok a → P (f a s))
      → ((e : Error) → r ≡ err e → P (err e, s))
      → P (bind_from (r, s) f)
  from_cases (ok a) s f returned raised = returned a refl
  from_cases (err e) s f returned raised = raised e refl

  pub bind_cases :
      (m : Exec S A) (f : A → Exec S B) (s : S)
      → ((a : A) → (m s).0 ≡ ok a → P (f a (m s).1))
      → ((e : Error) → (m s).0 ≡ err e → P (err e, (m s).1))
      → P ((m >>= f) s)
  bind_cases m f s = from_cases (m s).0 (m s).1 f

pub for_each-Keeps :
    {S A : Type 0} {P : S → Type 0} (body : A → Exec S (Unit {0}))
    → ((a : A) → Keeps P (body a))
    → (xs : List A) → Keeps P (for_each xs body)
unfolding for_each
for_each-Keeps body each [] = record { at = λ s p. p }
for_each-Keeps body each (x ∷ xs) =
    Keeps-bind (body x) (λ _. for_each xs body) (each x) (λ _. for_each-Keeps body each xs)
