-- ===== src/ConfigParser/Laws.antt =====
-- The laws of the parser's operations.
use aws_iprotate_python.Prelude.{String, ◌≡◌, some, [], ◌∷◌, arith, ◌==◌, eq_iff, ◌&&◌, cond}
use aws_iprotate_python.Prelude.Dict.{
  lookup, insert, keys, IsDistinct, lookup-insert, keys-insert, insert-IsDistinct,
}
use aws_iprotate_python.ConfigParser.{Section, Conf, option, set, AllDistinct, IsValid}

module _ (s k v : String) {sec : Section} (c : Conf) (there : lookup s c ≡ some sec) where
  -- A successful `set` changes one option of one section.
  pub option-set :
      (s' k' : String)
      → option (set s k v c).1 s' k' ≡ cond ((s == s') && (k == k')) (some v) (option c s' k')
  unfolding set option
  option-set s' k' =
      ground (arith, eq_iff s s', lookup-insert s s' (insert k v sec) c, lookup-insert k k' v sec)

  pub keys-set : keys (set s k v c).1 ≡ keys c
  unfolding set
  keys-set = ground (arith, keys-insert s (insert k v sec) sec c)

pub option-there :
    (s : String) (c : Conf) (sec : Section)
    → lookup s c ≡ some sec
    → (k : String) → option c s k ≡ lookup k sec
unfolding option
option-there s c sec h k = ground arith

pub option-insert :
    (s : String) (sec : Section) (c : Conf) (s' k : String)
    → option (insert s sec c) s' k ≡ cond (s == s') (lookup k sec) (option c s' k)
unfolding option
option-insert s sec c s' k = ground (arith, lookup-insert s s' sec c)

pub lookup-AllDistinct :
    (s : String) (c : Conf) (sec : Section) → AllDistinct c → lookup s c ≡ some sec → IsDistinct sec
unfolding lookup
lookup-AllDistinct s [] sec h e = cc
lookup-AllDistinct s ((j, sec') ∷ c) sec h e = ground (arith, lookup-AllDistinct s c sec h.1)

pub insert-AllDistinct :
    (s : String) (sec : Section) (c : Conf)
    → IsDistinct sec
    → AllDistinct c
    → AllDistinct (insert s sec c)
unfolding insert
insert-AllDistinct s sec [] d h = (d, tt)
insert-AllDistinct s sec ((j, old) ∷ c) d h = ground (arith, insert-AllDistinct s sec c d h.1)

pub insert-IsValid :
    (s : String) (sec : Section) (c : Conf) → IsDistinct sec → IsValid c → IsValid (insert s sec c)
insert-IsValid s sec c d h = record {
  names = insert-IsDistinct s sec c h.names;
  options = insert-AllDistinct s sec c d h.options;
}
