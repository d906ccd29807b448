-- ===== src/Aws/Pages.antt =====
-- The pages of `get_instance_type_free_tier` of functions/aws.py.
use mathlib.Core.List.{append_assoc, append-nil}
use aws_iprotate_python.Prelude.{
  ℕ, zero, suc, ◌<◌, String, ◌≡◌, ◌⊎◌, inl, inr, false, Option, none, some, List, [], ◌∷◌, ◌++◌,
  ◌==◌, arith,
}
use aws_iprotate_python.Prelude.Lists.{length}
use aws_iprotate_python.Py.{ok}
use aws_iprotate_python.Outside.{Session, InstanceType, TypesPage, Ec2}
use aws_iprotate_python.Aws.{Self}
use aws_iprotate_python.Aws.Launch.{more_pages, one_core, get_instance_type_free_tier}

-- What is documented of `describe_instance_types`: the page behind a token is the token's, and
-- asking changes nothing.
pub record IsPaged {W : Type 0} (ec2 : Ec2 W) (session : Session)
    (serves : Option String → TypesPage) : Type 0 where
  pub asked :
      (token : Option String) (w : W)
      → ec2.describe_instance_types session token w ≡ (ok (serves token), w)

-- The pages behind `page`, by their tokens; the last has no token, or the empty one.
abbrev pub IsChain : (Option String → TypesPage) → TypesPage → List TypesPage → Type 0
IsChain serves page [] = (page.next_token ≡ none) ⊎ (page.next_token ≡ some "")
IsChain serves page (p ∷ ps) =
    (token : String) × (page.next_token ≡ some token)
    × ((token == "") ≡ false)
    × (serves (some token) ≡ p)
    × IsChain serves p ps

abbrev pub all_types : List TypesPage → List InstanceType
all_types [] = []
all_types (p ∷ ps) = p.instance_types ++ all_types ps

module _ {W : Type 0} (ec2 : Ec2 W) (session : Session) (serves : Option String → TypesPage)
    (paged : IsPaged ec2 session serves) (s : Self W) (client : s.aws.ec2 ≡ some session) where
  loop :
      (fuel : ℕ) (page : TypesPage) (ps : List TypesPage) (types : List InstanceType)
      → length ps < fuel
      → IsChain serves page ps
      → more_pages ec2 fuel page types s ≡ (ok (types ++ all_types ps), s)
  unfolding more_pages
  loop zero page ps types le chain = absurd (omega arith)
  loop (suc fuel) page [] types le (inl e) = ground (arith, append-nil types)
  loop (suc fuel) page [] types le (inr e) = ground (arith, append-nil types)
  loop (suc fuel) page (p ∷ ps) types le (token, e, new, q, chain) = ground (
    arith,
    paged.asked (some token) s.host.world,
    loop fuel p ps (types ++ p.instance_types) (omega arith) chain,
    append_assoc types p.instance_types (all_types ps),
  )

  -- Where the service sends the pages `ps` behind the first one, and these are fewer than the limit,
  -- the loop reads them all and no more: the result is the first type with one core among those of
  -- all pages in their order, or none, and nothing changes.
  pub get_instance_type_free_tier_lem :
      (ps : List TypesPage)
      → length ps < ec2.page_limit
      → IsChain serves (serves none) ps
      → get_instance_type_free_tier ec2 s ≡ (ok (one_core (all_types (serves none ∷ ps))), s)
  unfolding get_instance_type_free_tier
  get_instance_type_free_tier_lem ps le chain = ground (
    arith,
    paged.asked none s.host.world,
    loop ec2.page_limit (serves none) ps (serves none).instance_types le chain,
  )
