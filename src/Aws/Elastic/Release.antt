-- ===== src/Aws/Elastic/Release.antt =====
-- The addresses of the account under `disassociate_and_release_ip` and `allocate_and_associate_ip`
-- of functions/aws.py.
use aws_iprotate_python.Prelude.{
  String, ◌≡◌, refl, sym, ap, subst, ◌∙◌, inl, inr, true, false, Bool-cases, Option, none, some,
  List, [], ◌∷◌, arith,
}
use aws_iprotate_python.Prelude.Lists.{All}
use aws_iprotate_python.Py.{ok, Exec, for_each, pure}
use aws_iprotate_python.Py.Keeps.{bind_ok}
use aws_iprotate_python.Outside.{Session, Tag, Address, Ec2}
use aws_iprotate_python.Aws.{Self}
use aws_iprotate_python.Aws.Client.{
  release_tag, release_each, disassociate_and_release_ip, allocate_and_associate_ip,
}
use aws_iprotate_python.Aws.Addresses.{
  Passes, disassociate_and_release_ip-Passes, release_tag-Passes, release_each-Passes,
}
use aws_iprotate_python.Aws.Elastic.{
  names, any_names, is_tagged, released, IsEc2, In, Covers, freed-Covers, released-All, free_of,
  free_of-none, free_of-some, both-Covers, untagged-Covers, In-self, covered-none,
}

-- The two calls for an address, and the loops.
module _ {W : Type 0} (ec2 : Ec2 W) (addresses : W → List Address) (laws : IsEc2 ec2 addresses)
    (session : Session) (i : String) where
  abbrev view : Self W → List Address
  view s = addresses s.host.world

  -- the object has a client and the instance
  record Logged (s : Self W) : Type 0 where
    client : s.aws.ec2 ≡ some session
    instance' : s.aws.aws_config.instance_id ≡ i

  Logged-Passes :
      (m : Exec (Self W) (Unit {0})) (s : Self W) → Passes m s → Logged s → Logged (m s).1
  Logged-Passes m s p l = record {
    client = ap (λ a. a.ec2) p.object ∙ l.client;
    instance' = ap (λ a. a.aws_config.instance_id) p.object ∙ l.instance';
  }

  release_tag_other :
      (a : Address) (t : Tag) (s : Self W)
      → Logged s
      → names i t ≡ false
      → view (release_tag ec2 a t s).1 ≡ view s
  unfolding release_tag
  release_tag_other a t s l n = ground (arith, l.client, l.instance')

  release_tag_same :
      (a : Address) (t : Tag) (s : Self W) (o : Option String)
      → a.association_id ≡ o
      → Logged s
      → names i t ≡ true
      → view (release_tag ec2 a t s).1 ≡ released a.allocation_id (free_of o (view s))
  unfolding release_tag
  release_tag_same a t s none e l n = ground (
    arith,
    l.client,
    l.instance',
    laws.release session a.allocation_id s.host.world,
    free_of-none (addresses s.host.world),
  )
  release_tag_same a t s (some x) e l n = ground (
    arith,
    l.client,
    l.instance',
    laws.disassociate session x s.host.world,
    laws.release session a.allocation_id (ec2.disassociate_address session x s.host.world).1,
    free_of-some x (addresses s.host.world),
  )

  loop_step :
      {A : Type 0} (body : A → Exec (Self W) (Unit {0})) (x : A) (xs : List A) (s : Self W)
      → Passes (body x) s
      → for_each (x ∷ xs) body s ≡ for_each xs body (body x s).1
  unfolding for_each
  loop_step body x xs s p =
      bind_ok (body x) (λ _. for_each xs body) s (ap (λ r. (r, (body x s).1)) p.returns)

  free_of-Covers :
      (o : Option String) (rest v : List Address)
      → All (Covers i rest) v
      → All (Covers i rest) (free_of o v)
  free_of-Covers none rest v h = subst (All (Covers i rest)) (sym (free_of-none v)) h
  free_of-Covers (some x) rest v h =
      subst (All (Covers i rest)) (sym (free_of-some x v)) (freed-Covers i x rest v h)

  tag_keeps :
      (a : Address) (t : Tag) (rest : List Address) (s : Self W)
      → Logged s
      → All (Covers i rest) (view s)
      → All (Covers i rest) (view (release_tag ec2 a t s).1)
  tag_keeps a t rest s l h = elim (Bool-cases (names i t)) [
    | inl n ↦ subst (All (Covers i rest)) (sym (release_tag_same a t s a.association_id refl l n)) (
        released-All (Covers i rest) a.allocation_id (free_of a.association_id (view s))
          (free_of-Covers a.association_id rest (view s) h))
    | inr n ↦ subst (All (Covers i rest)) (sym (release_tag_other a t s l n)) h
  ]

  tags_keep :
      (a : Address) (ts : List Tag) (rest : List Address) (s : Self W)
      → Logged s
      → All (Covers i rest) (view s)
      → All (Covers i rest) (view (for_each ts (release_tag ec2 a) s).1)
  tags_keep a [] rest s l h = unfold for_each in h
  tags_keep a (t ∷ ts) rest s l h =
      subst (λ x. All (Covers i rest) (view x.1))
        (sym (loop_step (release_tag ec2 a) t ts s (release_tag-Passes ec2 a t s)))
        (tags_keep a ts rest (release_tag ec2 a t s).1
          (Logged-Passes (release_tag ec2 a t) s (release_tag-Passes ec2 a t s) l)
          (tag_keeps a t rest s l h))

  tags_clear :
      (a : Address) (ts : List Tag) (rest : List Address) (s : Self W)
      → Logged s
      → any_names i ts ≡ true
      → All (Covers i (a ∷ rest)) (view s)
      → All (Covers i rest) (view (for_each ts (release_tag ec2 a) s).1)
  tags_clear a [] rest s l n h = absurd (ground arith)
  tags_clear a (t ∷ ts) rest s l n h =
      let p = release_tag-Passes ec2 a t s in
      let l' = Logged-Passes (release_tag ec2 a t) s p l in
      subst (λ x. All (Covers i rest) (view x.1)) (sym (loop_step (release_tag ec2 a) t ts s p))
        (elim (Bool-cases (names i t)) [
          | inl e ↦ tags_keep a ts rest (release_tag ec2 a t s).1 l' (
              subst (All (Covers i rest)) (sym (release_tag_same a t s a.association_id refl l e))
                (both-Covers i a rest a.association_id (view s) refl h))
          | inr e ↦
              tags_clear a ts rest (release_tag ec2 a t s).1 l' (ground (arith, e, n))
                (tag_keeps a t (a ∷ rest) s l h)
        ])

  address_clears :
      (a : Address) (rest : List Address) (s : Self W)
      → Logged s
      → All (Covers i (a ∷ rest)) (view s)
      → All (Covers i rest) (view (release_each ec2 a s).1)
  unfolding release_each
  address_clears a rest s l h = by_tags a.tags refl
    where
      by_tags :
          (o : Option (List Tag))
          → a.tags ≡ o
          → All (Covers i rest) (
              let m : Exec (Self W) (Unit {0}) = elim o [
                | none ↦ pure tt
                | some ts ↦ for_each ts (release_tag ec2 a)
              ] in
              view (m s).1)
      by_tags none e = untagged-Covers i a rest (view s) (ground (arith, e)) h
      by_tags (some ts) e = elim (Bool-cases (any_names i ts)) [
        | inl n ↦ tags_clear a ts rest s l n h
        | inr n ↦
            tags_keep a ts rest s l (untagged-Covers i a rest (view s) (ground (arith, e, n)) h)
      ]

  addresses_clear :
      (as' : List Address) (s : Self W)
      → Logged s
      → All (Covers i as') (view s)
      → All (Covers i []) (view (for_each as' (release_each ec2) s).1)
  addresses_clear [] s l h = unfold for_each in h
  addresses_clear (a ∷ rest) s l h =
      subst (λ x. All (Covers i []) (view x.1))
        (sym (loop_step (release_each ec2) a rest s (release_each-Passes ec2 a s)))
        (addresses_clear rest (release_each ec2 a s).1
          (Logged-Passes (release_each ec2 a) s (release_each-Passes ec2 a s) l)
          (address_clears a rest s l h))

  loop_clears :
      (s : Self W)
      → Logged s
      → All (λ a. is_tagged i a ≡ false) (view (for_each (view s) (release_each ec2) s).1)
  loop_clears s l =
      covered-none i _
        (addresses_clear (view s) s l (covers_all (view s) (view s) (In-self (view s))))
    where
      covers_all : (v rest : List Address) → All (In rest) v → All (Covers i rest) v
      covers_all [] rest h = tt
      covers_all (a ∷ v) rest (h, hs) = (λ _. h, covers_all v rest hs)

  cleared :
      (s : Self W)
      → Logged s
      → ((disassociate_and_release_ip ec2 s).0 ≡ ok tt)
        × All (λ a. is_tagged i a ≡ false) (view (disassociate_and_release_ip ec2 s).1)
  unfolding disassociate_and_release_ip
  cleared s l =
      let e : disassociate_and_release_ip ec2 s ≡ for_each (view s) (release_each ec2) s =
        ground (arith, l.client, laws.describe session s.host.world) in
      (
        (disassociate_and_release_ip-Passes ec2 s l.client
            (ap (λ r. r.0) (laws.describe session s.host.world))).returns,
        subst (λ r. All (λ a. is_tagged i a ≡ false) (view r.1)) (sym e) (loop_clears s l),
      )

module _ {W : Type 0} (ec2 : Ec2 W) (addresses : W → List Address) (laws : IsEc2 ec2 addresses)
    (session : Session) (s : Self W) (client : s.aws.ec2 ≡ some session) where
  abbrev instance_of : String
  instance_of = s.aws.aws_config.instance_id

  -- Where EC2 keeps its addresses as documented, and allocates and associates the new one,
  -- `allocate_and_associate_ip` returns and leaves the account without an address that has the
  -- instance's tag: the new one, which has it, is released as well as all before it.
  pub allocate_and_associate_ip_lem :
      (x : String)
      → (ec2.allocate_address session instance_of s.host.world).0 ≡ ok x
      → (ec2.associate_address session instance_of x
          (ec2.allocate_address session instance_of s.host.world).1).0
        ≡ ok tt
      → ((allocate_and_associate_ip ec2 s).0 ≡ ok tt)
        × All
            (λ a. is_tagged instance_of a ≡ false)
            (addresses (allocate_and_associate_ip ec2 s).1.host.world)
  unfolding allocate_and_associate_ip
  allocate_and_associate_ip_lem x allocates associates =
      let w : W = (ec2.allocate_address session instance_of s.host.world).1 in
      let w' : W = (ec2.associate_address session instance_of x w).1 in
      let s' : Self W = record s { host = record s.host { world = w' } } in
      let e : allocate_and_associate_ip ec2 s ≡ disassociate_and_release_ip ec2 s' =
        ground (arith, client, allocates, associates) in
      let (r, none_left) =
        cleared ec2 addresses laws session instance_of s'
          (record { client = client; instance' = refl }) in
      (
        ap (λ y. y.0) e ∙ r,
        subst (λ y. All (λ a. is_tagged instance_of a ≡ false) (addresses y.1.host.world)) (sym e)
            none_left,
      )
