-- ===== src/Py/Ensures.antt =====
-- What holds of the result and the last state of statements that return.
use aws_iprotate_python.Prelude.{◌≡◌, subst}
use aws_iprotate_python.Py.{Error, Result, ok, err, Exec, ok_injective, ◌>>=◌}
use aws_iprotate_python.Py.Keeps.{bind_cases}

-- If `x` returned, its value and its state are in `Q`.
pub record Ensures {S A : Type 0} (Q : A → S → Type 0) (x : Result A × S) : Type 0 where
  pub at : (a : A) → x.0 ≡ ok a → Q a x.1

module _ {S A : Type 0} {Q : A → S → Type 0} where
  pub Ensures-ok : (a : A) (s : S) → Q a s → Ensures Q (ok a, s)
  Ensures-ok a s q = record { at = λ b e. subst (λ x. Q x s) (ok_injective e) q }

  pub Ensures-err : (e : Error) (s : S) → Ensures Q (err e, s)
  Ensures-err e s = record { at = λ a r. absurd (cc) }

  -- a result that is known
  pub Ensures-raises : (x : Result A × S) (e : Error) → x.0 ≡ err e → Ensures Q x
  Ensures-raises x e r = record { at = λ a r'. absurd (cc) }

module _ {S A B : Type 0} {P : A → S → Type 0} {Q : B → S → Type 0} where
  pub Ensures-bind :
      (m : Exec S A) (f : A → Exec S B) (s : S)
      → Ensures P (m s)
      → ((a : A) (s' : S) → P a s' → Ensures Q (f a s'))
      → Ensures Q ((m >>= f) s)
  Ensures-bind m f s p rest =
      bind_cases (Ensures Q) m f s (λ a e. rest a (m s).1 (p.at a e)) (λ e _. Ensures-err e (m s).1)

-- whatever the first statement does
pub Ensures-skip :
    {S A B : Type 0} {Q : B → S → Type 0} (m : Exec S A) (f : A → Exec S B) (s : S)
    → ((a : A) (s' : S) → Ensures Q (f a s'))
    → Ensures Q ((m >>= f) s)
Ensures-skip m f s rest =
    bind_cases (Ensures _) m f s (λ a _. rest a (m s).1) (λ e _. Ensures-err e (m s).1)

pub Ensures-weaken :
    {S A : Type 0} {P Q : A → S → Type 0} (x : Result A × S)
    → Ensures P x
    → ((a : A) (s : S) → P a s → Q a s)
    → Ensures Q x
Ensures-weaken x p f = record { at = λ a e. f a x.1 (p.at a e) }

-- If `x` raised, its state is in `R`.
pub record Leaves {S A : Type 0} (R : S → Type 0) (x : Result A × S) : Type 0 where
  pub at : (e : Error) → x.0 ≡ err e → R x.1

module _ {S A B : Type 0} {R : S → Type 0} where
  pub Leaves-bind :
      (m : Exec S A) (f : A → Exec S B) (s : S)
      → R (m s).1
      → ((a : A) (s' : S) → R s' → Leaves R (f a s'))
      → Leaves R ((m >>= f) s)
  Leaves-bind m f s r rest =
      bind_cases (Leaves R) m f s (λ a _. rest a (m s).1 r) (λ e _. record { at = λ _ _. r })

  -- a first statement that raises before it leaves `R`, and a rest that never raises
  pub Leaves-last :
      (m : Exec S A) (f : A → Exec S B) (s : S)
      → Leaves R (m s)
      → ((a : A) (s' : S) → (b : B) × ((f a s').0 ≡ ok b))
      → Leaves R ((m >>= f) s)
  Leaves-last m f s r returns =
      bind_cases (Leaves R) m f s
        (λ a _. record { at = λ e h. absurd (differ e (returns a (m s).1) h) })
        (λ e h. record { at = λ _ _. r.at e h })
    where
      differ : {x : Result B} (e : Error) → (b : B) × (x ≡ ok b) → x ≡ err e → ⊥
      differ e (b, p) h = cc
