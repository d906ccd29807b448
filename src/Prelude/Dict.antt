-- ===== src/Prelude/Dict.antt =====
-- Python's `dict` with text keys, in insertion order: a new key goes to the end, a key that is
-- there keeps its place.
use Prim.Native.String.{String}
use mathlib.Core.Path.{◌≡◌, refl}
use mathlib.Core.Option.{Option, none, some}
use mathlib.Core.List.{List, [], ◌∷◌}
use native.Mathlib.Omega.{arith}
use text.Mathlib.Text.{◌==◌}
use text.Mathlib.TextEquality.{eq_iff}
use mathlib.Core.Bool.{cond, false}
use text.Mathlib.TextPositions.{eq_refl}

abbrev pub Dict {ℓ} : Type ℓ → Type ℓ
Dict V = List (String × V)

module _ {ℓ} {V : Type ℓ} where
  -- `d.get(k)`
  unfoldable pub lookup : String → Dict V → Option V
  lookup k [] = none
  lookup k ((j, v) ∷ m) = cond (j == k) (some v) (lookup k m)

  -- `d[k] = v`
  unfoldable pub insert : String → V → Dict V → Dict V
  insert k v [] = (k, v) ∷ []
  insert k v ((j, w) ∷ m) = cond (j == k) ((j, v) ∷ m) ((j, w) ∷ insert k v m)

  -- `list(d)`
  abbrev pub keys : Dict V → List String
  keys [] = []
  keys ((j, v) ∷ m) = j ∷ keys m

  pub lookup-nil : (k : String) → lookup k [] ≡ none
  unfolding lookup
  lookup-nil k = refl

  pub lookup-insert :
      (key other : String) (new : V) (d : Dict V)
      → lookup other (insert key new d) ≡ cond (key == other) (some new) (lookup other d)
  unfolding insert lookup
  lookup-insert key other new [] = refl
  lookup-insert key other new ((k, v) ∷ d) =
      ground (arith, lookup-insert key other new d, eq_iff k other, eq_iff k key, eq_iff key other)

  pub lookup-insert_other :
      (key other : String) (new : V) (d : Dict V)
      → (key == other) ≡ false
      → lookup other (insert key new d) ≡ lookup other d
  lookup-insert_other key other new d n = rw (lookup-insert key other new d, n) refl

  pub lookup-insert_same :
      (key : String) (new : V) (d : Dict V) → lookup key (insert key new d) ≡ some new
  lookup-insert_same key new d = rw (lookup-insert key key new d, eq_refl key) refl

  -- An assignment to a key that is there changes no key and no order.
  pub keys-insert :
      (k : String) (v w : V) (m : Dict V) → lookup k m ≡ some w → keys (insert k v m) ≡ keys m
  unfolding lookup insert
  keys-insert k v w [] h = ground arith
  keys-insert k v w ((i, u) ∷ m) h = ground (arith, keys-insert k v w m)

  pub insert-insert : (k : String) (v w : V) (m : Dict V) → insert k w (insert k v m) ≡ insert k w m
  unfolding insert
  insert-insert k v w [] = ground (arith, eq_iff k k)
  insert-insert k v w ((i, u) ∷ m) = ground (arith, insert-insert k v w m)

  pub insert-lookup : (k : String) (v : V) (m : Dict V) → lookup k m ≡ some v → insert k v m ≡ m
  unfolding lookup insert
  insert-lookup k v [] h = ground arith
  insert-lookup k v ((i, u) ∷ m) h = ground (arith, insert-lookup k v m)

  -- No key stands twice, as in every `dict`.
  abbrev pub IsDistinct : Dict V → Type ℓ
  IsDistinct [] = Unit
  IsDistinct ((k, _) ∷ m) = (lookup k m ≡ none) × IsDistinct m

  pub insert-IsDistinct :
      (k : String) (v : V) (m : Dict V) → IsDistinct m → IsDistinct (insert k v m)
  unfolding lookup insert
  insert-IsDistinct k v [] h = (refl, tt)
  insert-IsDistinct k v ((j, w) ∷ m) h =
      ground (arith, eq_iff j k, lookup-insert k j v m, eq_iff k j, insert-IsDistinct k v m h.1)

  -- `for key in new: old[key] = new[key]`
  unfoldable pub merge : Dict V → Dict V → Dict V
  merge old [] = old
  merge old ((k, v) ∷ new) = merge (insert k v old) new

  abbrev pub or_else : Option V → Option V → Option V
  or_else none o = o
  or_else (some v) o = some v

  -- The merged dict has the value of the second wherever that has one, else that of the first.
  pub lookup-merge :
      (k : String) (old new : Dict V)
      → IsDistinct new
      → lookup k (merge old new) ≡ or_else (lookup k new) (lookup k old)
  unfolding lookup merge
  lookup-merge k old [] h = refl
  lookup-merge k old ((j, v) ∷ new) h =
      ground (arith, eq_iff j k, lookup-merge k (insert j v old) new h.1, lookup-insert j k v old)

  pub merge-IsDistinct : (old new : Dict V) → IsDistinct old → IsDistinct (merge old new)
  unfolding merge
  merge-IsDistinct old [] h = h
  merge-IsDistinct old ((j, v) ∷ new) h =
      merge-IsDistinct (insert j v old) new (insert-IsDistinct j v old h)

  -- `d.pop(k, None)`
  unfoldable pub remove : String → Dict V → Dict V
  remove k [] = []
  remove k ((j, v) ∷ m) = cond (j == k) (remove k m) ((j, v) ∷ remove k m)

  pub lookup-remove :
      (k j : String) (m : Dict V) → lookup j (remove k m) ≡ cond (k == j) none (lookup j m)
  unfolding lookup remove
  lookup-remove k j [] = ground arith
  lookup-remove k j ((i, v) ∷ m) =
      ground (arith, lookup-remove k j m, eq_iff i k, eq_iff i j, eq_iff k j)
