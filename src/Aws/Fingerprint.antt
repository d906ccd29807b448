-- ===== src/Aws/Fingerprint.antt =====
-- `format_fingerprint` of functions/aws.py: the form in which EC2 shows the MD5 of a key.
use Prim.Native.String.{[] as empty, ◌∷◌ as ◌:>◌}
use Prim.Native.Nat.{compare, Ordering}
use text.Mathlib.TextLemmas.{cons-append, nil-append}
use aws_iprotate_python.Prelude.Lists.{All}
use aws_iprotate_python.Prelude.{
  ℕ, zero, suc, ◌+◌, ◌-◌, ◌*◌, ◌/◌, ◌%◌, ◌<◌, Char, code, String, ◌<>◌, ◌≡◌, refl, ap, ◌∙◌, List,
  [], ◌∷◌, arith,
}

hex_digit : ℕ → Char
hex_digit zero = "0"
hex_digit (suc zero) = "1"
hex_digit (suc (suc zero)) = "2"
hex_digit (suc (suc (suc zero))) = "3"
hex_digit (suc (suc (suc (suc zero)))) = "4"
hex_digit (suc (suc (suc (suc (suc zero))))) = "5"
hex_digit (suc (suc (suc (suc (suc (suc zero)))))) = "6"
hex_digit (suc (suc (suc (suc (suc (suc (suc zero))))))) = "7"
hex_digit (suc (suc (suc (suc (suc (suc (suc (suc zero)))))))) = "8"
hex_digit (suc (suc (suc (suc (suc (suc (suc (suc (suc zero))))))))) = "9"
hex_digit (suc (suc (suc (suc (suc (suc (suc (suc (suc (suc zero)))))))))) = "a"
hex_digit (suc (suc (suc (suc (suc (suc (suc (suc (suc (suc (suc zero))))))))))) = "b"
hex_digit (suc (suc (suc (suc (suc (suc (suc (suc (suc (suc (suc (suc zero)))))))))))) = "c"
hex_digit (suc (suc (suc (suc (suc (suc (suc (suc (suc (suc (suc (suc (suc zero))))))))))))) = "d"
hex_digit (suc (suc (suc (suc (suc (suc (suc (suc (suc (suc (suc (suc (suc (suc zero)))))))))))))) =
    "e"
hex_digit _ = "f"

-- `binascii.hexlify(b).decode()`
hexlify : List ℕ → String
hexlify [] = ""
hexlify (b ∷ bs) = hex_digit (b / 16) :> hex_digit (b % 16) :> hexlify bs

-- `(s[i : i + 2] for i in range(0, len(s), 2))`
chunks : String → List String
chunks empty = []
chunks (a :> empty) = (a :> empty) ∷ []
chunks (a :> b :> s) = (a :> b :> empty) ∷ chunks s

-- `":".join(xs)`
join : List String → String
join [] = ""
join (x ∷ []) = x
join (x ∷ y ∷ xs) = x <> (":" <> join (y ∷ xs))

unfoldable pub format_fingerprint : List ℕ → String
unfolding hexlify chunks join hex_digit
format_fingerprint fingerprint = join (chunks (hexlify fingerprint))

test_fingerprint : format_fingerprint (10 ∷ 255 ∷ 3 ∷ []) ≡ "0a:ff:03"
unfolding format_fingerprint
test_fingerprint = refl

-- the value of a hex digit
pub value : Char → ℕ
value c = elim (compare (code c) 58) [ Ordering.lt ↦ code c - 48 | _ ↦ code c - 87 ]

value-hex_digit : (n : ℕ) → n < 16 → value (hex_digit n) ≡ n
unfolding hex_digit value
value-hex_digit zero h = refl
value-hex_digit (suc zero) h = refl
value-hex_digit (suc (suc zero)) h = refl
value-hex_digit (suc (suc (suc zero))) h = refl
value-hex_digit (suc (suc (suc (suc zero)))) h = refl
value-hex_digit (suc (suc (suc (suc (suc zero))))) h = refl
value-hex_digit (suc (suc (suc (suc (suc (suc zero)))))) h = refl
value-hex_digit (suc (suc (suc (suc (suc (suc (suc zero))))))) h = refl
value-hex_digit (suc (suc (suc (suc (suc (suc (suc (suc zero)))))))) h = refl
value-hex_digit (suc (suc (suc (suc (suc (suc (suc (suc (suc zero))))))))) h = refl
value-hex_digit (suc (suc (suc (suc (suc (suc (suc (suc (suc (suc zero)))))))))) h = refl
value-hex_digit (suc (suc (suc (suc (suc (suc (suc (suc (suc (suc (suc zero))))))))))) h = refl
value-hex_digit (suc (suc (suc (suc (suc (suc (suc (suc (suc (suc (suc (suc zero)))))))))))) h =
    refl
value-hex_digit (suc (suc (suc (suc (suc (suc (suc (suc (suc (suc (suc (suc (suc zero)))))))))))))
      h =
    refl
value-hex_digit
      (suc (suc (suc (suc (suc (suc (suc (suc (suc (suc (suc (suc (suc (suc zero)))))))))))))) h =
    refl
value-hex_digit
      (suc (suc (suc (suc (suc (suc (suc (suc (suc (suc (suc (suc (suc (suc (suc zero)))))))))))))))
      h =
    refl
value-hex_digit
      (suc
        (suc (suc (suc (suc (suc (suc (suc (suc (suc (suc (suc (suc (suc (suc (suc n))))))))))))))))
      h =
    absurd (omega arith)

-- an inverse: two digits for each byte, and a colon before the next
unfoldable pub read_fingerprint : String → List ℕ
read_fingerprint empty = []
read_fingerprint (a :> empty) = []
read_fingerprint (a :> b :> empty) = (value a * 16 + value b) ∷ []
read_fingerprint (a :> b :> _ :> s) = (value a * 16 + value b) ∷ read_fingerprint s

byte : (b : ℕ) → b < 256 → value (hex_digit (b / 16)) * 16 + value (hex_digit (b % 16)) ≡ b
byte b h =
    ground (arith, value-hex_digit (b / 16) (omega arith), value-hex_digit (b % 16) (omega arith))

joined :
    (a b : Char) (s : String)
    → read_fingerprint ((a :> b :> empty) <> (":" <> s))
      ≡ (value a * 16 + value b) ∷ read_fingerprint s
unfolding read_fingerprint
joined a b s =
    simp (cons-append, nil-append)
      (ap (λ t. read_fingerprint (a :> b :> t))
        (cons-append ":" empty s ∙ ap (λ t. ":" :> t) (nil-append s)))

-- The text of a fingerprint determines the bytes: no two differ and read the same.
pub read-format_fingerprint :
    (bs : List ℕ) → All (λ b. b < 256) bs → read_fingerprint (format_fingerprint bs) ≡ bs
unfolding format_fingerprint read_fingerprint hexlify join chunks
read-format_fingerprint [] h = refl
read-format_fingerprint (b ∷ []) (h, _) = ap (λ v. v ∷ []) (byte b h)
read-format_fingerprint (b ∷ c ∷ bs) (h, hs) =
    joined (hex_digit (b / 16)) (hex_digit (b % 16)) (format_fingerprint (c ∷ bs))
    ∙ ap (λ v. v ∷ read_fingerprint (format_fingerprint (c ∷ bs))) (byte b h)
    ∙ ap (λ l. b ∷ l) (read-format_fingerprint (c ∷ bs) hs)
