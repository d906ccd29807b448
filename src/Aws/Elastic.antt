-- ===== src/Aws/Elastic.antt =====
-- The elastic addresses that functions/aws.py leaves in the account.
pub mod Release
use aws_iprotate_python.Prelude.{
  String, ◌≡◌, refl, sym, ap, subst, ◌∙◌, ◌⊎◌, inl, inr, Bool, true, false, not, ◌&&◌, ◌||◌,
  Bool-cases, Option, none, some, is_some, List, [], ◌∷◌, arith, ◌==◌, eq_iff, eq_refl,
  if◌then◌else◌,
}
use aws_iprotate_python.Prelude.Lists.{All}
use aws_iprotate_python.Py.{ok, Exec, for_each, pure}
use aws_iprotate_python.Py.Keeps.{bind_ok}
use aws_iprotate_python.Outside.{Session, Tag, Address, Ec2}
use aws_iprotate_python.Aws.{Self}
use aws_iprotate_python.Aws.Client.{
  release_tag, release_each, disassociate_and_release_ip, allocate_and_associate_ip,
}
use aws_iprotate_python.Aws.Addresses.{
  Passes, disassociate_and_release_ip-Passes, release_tag-Passes, release_each-Passes,
}

abbrev pub names : String → Tag → Bool
names instance_id tag = tag.key == "instance" && tag.value == instance_id

abbrev pub any_names : String → List Tag → Bool
any_names i [] = false
any_names i (t ∷ ts) = names i t || any_names i ts

-- an address with the tag of the instance
abbrev pub is_tagged : String → Address → Bool
is_tagged i a = elim a.tags [ none ↦ false | some ts ↦ any_names i ts ]

abbrev pub disassociated : String → Address → Address
disassociated association a = elim a.association_id [
  | none ↦ a
  | some b ↦ if b == association then record a { association_id = none } else a
]

-- the account without an association, and without an address that has none
abbrev pub freed : String → List Address → List Address
freed association [] = []
freed association (a ∷ as') = disassociated association a ∷ freed association as'

abbrev pub released : String → List Address → List Address
released allocation [] = []
released allocation (a ∷ as') =
    if a.allocation_id == allocation && not (is_some a.association_id)
    then released allocation as'
    else a ∷ released allocation as'

-- What EC2 documents of its addresses: they are listed as they are; an association is ended by its
-- id; and an address is released by its id if it has no association.
pub record IsEc2 {W : Type 0} (ec2 : Ec2 W) (addresses : W → List Address) : Type 0 where
  pub describe : (s : Session) (w : W) → ec2.describe_addresses s w ≡ (ok (addresses w), w)
  pub disassociate :
      (s : Session) (a : String) (w : W)
      → addresses (ec2.disassociate_address s a w).1 ≡ freed a (addresses w)
  pub release :
      (s : Session) (a : String) (w : W)
      → addresses (ec2.release_address s a w).1 ≡ released a (addresses w)

-- `b` is what is left of `a`: it may have lost its association.
abbrev pub Remains : Address → Address → Type 0
Remains a b =
    (b.allocation_id ≡ a.allocation_id)
    × (b.tags ≡ a.tags)
    × ((b.association_id ≡ none) ⊎ (b.association_id ≡ a.association_id))

abbrev pub In : List Address → Address → Type 0
In [] b = ⊥
In (a ∷ as') b = Remains a b ⊎ In as' b

-- Every tagged address of the account is one of those that are left to look at.
abbrev pub Covers : String → List Address → Address → Type 0
Covers i rest b = is_tagged i b ≡ true → In rest b

pub Remains-disassociated :
    (x : String) (a b : Address) → Remains a b → Remains a (disassociated x b)
Remains-disassociated x a b r = ground arith

pub In-disassociated :
    (x : String) (rest : List Address) (b : Address) → In rest b → In rest (disassociated x b)
In-disassociated x [] b h = h
In-disassociated x (a ∷ rest) b (inl r) = inl (Remains-disassociated x a b r)
In-disassociated x (a ∷ rest) b (inr h) = inr (In-disassociated x rest b h)

pub tagged-disassociated :
    (i x : String) (b : Address) → is_tagged i (disassociated x b) ≡ is_tagged i b
tagged-disassociated i x b = ground arith

pub freed-Covers :
    (i x : String) (rest v : List Address) → All (Covers i rest) v → All (Covers i rest) (freed x v)
freed-Covers i x rest [] h = tt
freed-Covers i x rest (b ∷ v) (h, hs) = (
  λ t. In-disassociated x rest b (h (sym (tagged-disassociated i x b) ∙ t)),
  freed-Covers i x rest v hs,
)

pub released-All :
    (P : Address → Type 0) (x : String) (v : List Address) → All P v → All P (released x v)
released-All P x [] h = tt
released-All P x (b ∷ v) (h, hs) =
    elim (Bool-cases (b.allocation_id == x && not (is_some b.association_id))) [
      | inl e ↦ rw e (released-All P x v hs)
      | inr e ↦ rw e (h, released-All P x v hs)
    ]

-- the account after the first of the two calls for an address, which has an association or none
abbrev pub drop_one : Option String → Address → Address
drop_one none b = b
drop_one (some x) b = disassociated x b

abbrev pub free_of : Option String → List Address → List Address
free_of o [] = []
free_of o (b ∷ v) = drop_one o b ∷ free_of o v

pub free_of-none : (v : List Address) → free_of none v ≡ v
free_of-none [] = refl
free_of-none (b ∷ v) = ap (λ l. b ∷ l) (free_of-none v)

pub free_of-some : (x : String) (v : List Address) → free_of (some x) v ≡ freed x v
free_of-some x [] = refl
free_of-some x (b ∷ v) = ap (λ l. disassociated x b ∷ l) (free_of-some x v)

pub drop_one-is_free :
    (a b : Address) (o : Option String)
    → a.association_id ≡ o
    → Remains a b
    → ((drop_one o b).allocation_id == a.allocation_id
        && not (is_some (drop_one o b).association_id))
      ≡ true
drop_one-is_free a b none e r = ground (arith, eq_iff b.allocation_id a.allocation_id)
drop_one-is_free a b (some x) e r =
    ground (arith, eq_iff b.allocation_id a.allocation_id, eq_refl x)

pub In-drop_one :
    (o : Option String) (rest : List Address) (b : Address) → In rest b → In rest (drop_one o b)
In-drop_one none rest b h = h
In-drop_one (some x) rest b h = In-disassociated x rest b h

pub tagged-drop_one :
    (i : String) (o : Option String) (b : Address) → is_tagged i (drop_one o b) ≡ is_tagged i b
tagged-drop_one i none b = refl
tagged-drop_one i (some x) b = tagged-disassociated i x b

-- an address that is still there after both calls is not what is left of `a`
pub kept-Covers :
    (i : String) (a : Address) (rest : List Address) (o : Option String) (b : Address)
    → a.association_id ≡ o
    → ((drop_one o b).allocation_id == a.allocation_id
        && not (is_some (drop_one o b).association_id))
      ≡ false
    → Covers i (a ∷ rest) b
    → Covers i rest (drop_one o b)
kept-Covers i a rest o b e kept covers t = by_place (covers (sym (tagged-drop_one i o b) ∙ t))
  where
    by_place : In (a ∷ rest) b → In rest (drop_one o b)
    by_place (inl r) = absurd (ground (arith, drop_one-is_free a b o e r, kept))
    by_place (inr h) = In-drop_one o rest b h

pub both-Covers :
    (i : String) (a : Address) (rest : List Address) (o : Option String) (v : List Address)
    → a.association_id ≡ o
    → All (Covers i (a ∷ rest)) v
    → All (Covers i rest) (released a.allocation_id (free_of o v))
both-Covers i a rest o [] e h = tt
both-Covers i a rest o (b ∷ v) e (h, hs) =
    elim (Bool-cases (
      (drop_one o b).allocation_id == a.allocation_id
      && not (is_some (drop_one o b).association_id))) [
        | inl f ↦ rw f (both-Covers i a rest o v e hs)
        | inr f ↦ rw f (kept-Covers i a rest o b e f h, both-Covers i a rest o v e hs)
      ]

pub untagged-Covers :
    (i : String) (a : Address) (rest v : List Address)
    → is_tagged i a ≡ false
    → All (Covers i (a ∷ rest)) v
    → All (Covers i rest) v
untagged-Covers i a rest [] n h = tt
untagged-Covers i a rest (b ∷ v) n (h, hs) =
    (λ t. by_place t (h t), untagged-Covers i a rest v n hs)
  where
    by_place : is_tagged i b ≡ true → In (a ∷ rest) b → In rest b
    by_place t (inl r) = absurd (ground (arith, r.1, t, n))
    by_place t (inr k) = k

pub In-cons : (a : Address) (rest v : List Address) → All (In rest) v → All (In (a ∷ rest)) v
In-cons a rest [] h = tt
In-cons a rest (b ∷ v) (h, hs) = (inr h, In-cons a rest v hs)

pub In-self : (v : List Address) → All (In v) v
In-self [] = tt
In-self (a ∷ v) = (inl (refl, refl, inr refl), In-cons a v v (In-self v))

pub covered-none :
    (i : String) (v : List Address) → All (Covers i []) v → All (λ a. is_tagged i a ≡ false) v
covered-none i [] h = tt
covered-none i (a ∷ v) (h, hs) = (ground (arith, Bool-cases (is_tagged i a)), covered-none i v hs)
