-- ===== src/Py.antt =====
-- Python statements. A call may raise, and what it wrote before it raised stays written: it is a
-- function from the state to a result beside the new state.
pub mod Keeps
pub mod Ensures
use aws_iprotate_python.Prelude.{
  String, ◌<>◌, Bool, false, ◌||◌, ◌==◌, Option, none, some, List, [], ◌∷◌, ◌++◌, ◌≡◌, refl, ◌⊎◌,
  inl, inr, arith,
}

-- The exceptions that the program meets. `raised` is an `Exception(text)`, or one of a library
-- that is not under src/, with its text.
pub data Error : Type 0 where
  no_section : String → Error
  no_option : String → String → Error
  key_error : String → Error
  index_error : Error
  attribute_error : String → Error
  value_error : String → Error
  type_error : String → Error
  raised : String → Error

-- `str(e)`, as Python words it
abbrev pub message : Error → String
message (no_section s) = "No section: '" <> s <> "'"
message (no_option k s) = "No option '" <> k <> "' in section: '" <> s <> "'"
message (key_error k) = "'" <> k <> "'"
message index_error = "list index out of range"
message (attribute_error m) = m
message (value_error s) = "invalid literal for int() with base 10: '" <> s <> "'"
message (type_error m) = m
message (raised m) = m

pub data Result {ℓ} (A : Type ℓ) : Type ℓ where
  ok : A → Result A
  err : Error → Result A

abbrev pub Exec : Type 0 → Type 0 → Type 0
Exec S A = S → Result A × S

pub ok_injective {ℓ} : {A : Type ℓ} {a b : A} → ok a ≡ ok b → a ≡ b
ok_injective e = cc

pub Result-cases {ℓ} :
    {A : Type ℓ} (r : Result A) → ((a : A) × (r ≡ ok a)) ⊎ ((e : Error) × (r ≡ err e))
Result-cases (ok a) = inl (a, refl)
Result-cases (err e) = inr (e, refl)

module _ {S A : Type 0} where
  abbrev pub pure : A → Exec S A
  pure a s = (ok a, s)

  abbrev pub raise : Error → Exec S A
  raise e s = (err e, s)

  abbrev pub lift : Result A → Exec S A
  lift r s = (r, s)

  abbrev pub gets : (S → A) → Exec S A
  gets f s = (ok (f s), s)

  abbrev pub or_raise : Option A → Error → Exec S A
  or_raise none e = raise e
  or_raise (some a) e = pure a

  -- `try: m except Exception as e: handler`
  abbrev pub except : Exec S A → (Error → Exec S A) → Exec S A
  except m handler s = let (r, s') = m s in elim r [ ok a ↦ (ok a, s') | err e ↦ handler e s' ]

abbrev pub modify : {S : Type 0} → (S → S) → Exec S (Unit {0})
modify f s = (ok tt, f s)

infixl 5 ◌>>=◌ ◌>>◌
abbrev pub ◌>>=◌ : {S A B : Type 0} → Exec S A → (A → Exec S B) → Exec S B
◌>>=◌ m f s = let (r, s') = m s in elim r [ ok a ↦ f a s' | err e ↦ (err e, s') ]

abbrev pub ◌>>◌ : {S A B : Type 0} → Exec S A → Exec S B → Exec S B
m >> k = m >>= λ _. k

-- `for x in xs: body(x)`
unfoldable pub for_each : {S A : Type 0} → List A → (A → Exec S (Unit {0})) → Exec S (Unit {0})
for_each [] body = pure tt
for_each (x ∷ xs) body = do body x; for_each xs body

pub for_each-append :
    {S A : Type 0} (xs ys : List A) (body : A → Exec S (Unit {0})) (s : S)
    → for_each (xs ++ ys) body s ≡ (for_each xs body >> for_each ys body) s
unfolding for_each
for_each-append [] ys body s = refl
for_each-append (x ∷ xs) ys body s = ground (arith, for_each-append xs ys body (body x s).1)

-- `dir({})`: the attributes that a `dict` object has, whatever its keys
abbrev pub dict_attributes : List String
dict_attributes =
    "__class__" ∷ "__class_getitem__" ∷ "__contains__" ∷ "__delattr__" ∷ "__delitem__" ∷ "__dir__"
    ∷ "__doc__" ∷ "__eq__" ∷ "__format__" ∷ "__ge__" ∷ "__getattribute__" ∷ "__getitem__"
    ∷ "__getstate__" ∷ "__gt__" ∷ "__hash__" ∷ "__init__" ∷ "__init_subclass__" ∷ "__ior__"
    ∷ "__iter__" ∷ "__le__" ∷ "__len__" ∷ "__lt__" ∷ "__ne__" ∷ "__new__" ∷ "__or__" ∷ "__reduce__"
    ∷ "__reduce_ex__" ∷ "__repr__" ∷ "__reversed__" ∷ "__ror__" ∷ "__setattr__" ∷ "__setitem__"
    ∷ "__sizeof__" ∷ "__str__" ∷ "__subclasshook__" ∷ "clear" ∷ "copy" ∷ "fromkeys" ∷ "get"
    ∷ "items" ∷ "keys" ∷ "pop" ∷ "popitem" ∷ "setdefault" ∷ "update" ∷ "values" ∷ []

pub contains : String → List String → Bool
contains s [] = false
contains s (t ∷ ts) = (t == s) || contains s ts

-- `hasattr(d, name)` of a `dict` d: its keys are not attributes
unfoldable pub dict_hasattr : String → Bool
unfolding contains
dict_hasattr name = contains name dict_attributes

-- `xs[0]`
abbrev pub first : {S A : Type 0} → List A → Exec S A
first [] = raise index_error
first (x ∷ _) = pure x
