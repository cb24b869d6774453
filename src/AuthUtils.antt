-- ===== src/AuthUtils.antt =====
-- autobahn/wamp_auth_utils.hpp: secrets for WAMP-CRA. OpenSSL's functions and `rand` are parameters;
-- a text is the list of its bytes.
use autobahn_cpp_aw.Common.{
  ℕ, zero, suc, ◌+◌, ◌≤◌, ◌<◌, ◌-◌, ◌%◌, ℤ, pos, negsuc, Option, none, some, List, [], ◌∷◌, ◌++◌,
  ◌≡◌, refl, arith, length, ◌⊎◌, if◌then◌else◌, ltb,
}
use autobahn_cpp_aw.Exception.{Exception, Result, ok, err, std_exception}

-- PBKDF2-HMAC-SHA256 of a password, a salt, a number of iterations and a length, if it succeeds;
-- HMAC-SHA256 of a key and a text; base64 without line breaks; what `resize` raises
pub record OpenSsl : Type 0 where
  pub pbkdf2 : List ℕ → List ℕ → ℤ → ℕ → Option (List ℕ)
  pub hmac : List ℕ → List ℕ → List ℕ
  pub base_64_encode : List ℕ → List ℕ
  pub length_error : Exception

module _ (ssl : OpenSsl) where
  unfoldable derive_key : List ℕ → List ℕ → ℤ → ℤ → Result (List ℕ)
  derive_key passwd salt iterations (negsuc keylen) = err ssl.length_error
  derive_key passwd salt iterations (pos keylen) = elim (ssl.pbkdf2 passwd salt iterations keylen) [
    | none ↦ err (std_exception "Error occured when calulcate a derived key")
    | some out ↦ ok (ssl.base_64_encode out)
  ]

  unfoldable pub compute_wcs : List ℕ → List ℕ → List ℕ
  compute_wcs key challenge = ssl.base_64_encode (ssl.hmac key challenge)

-- `count` characters from `first` on
abbrev characters : ℕ → ℕ → List ℕ
characters first zero = []
characters first (suc count) = first ∷ characters (first + 1) count

-- the upper and lower case letters and the digits, and the null at the end of the array
abbrev wcs_secret_charset : List ℕ
wcs_secret_charset = characters 65 26 ++ characters 97 26 ++ characters 48 10 ++ 0 ∷ []

abbrev at : List ℕ → ℕ → ℕ
at [] i = 0
at (x ∷ xs) zero = x
at (x ∷ xs) (suc i) = at xs i

at-characters :
    (first n : ℕ) (rest : List ℕ) (i : ℕ)
    → at (characters first n ++ rest) i ≡ (if ltb i n then first + i else at rest (i - n))
at-characters first zero rest i = ground arith
at-characters first (suc n) rest zero = ground arith
at-characters first (suc n) rest (suc i) = ground (arith, at-characters (first + 1) n rest i)

module _ {S : Type 0} (rand : S → ℕ × S) where
  unfoldable pub push_characters : ℕ → S → List ℕ × S
  push_characters zero s = ([], s)
  push_characters (suc n) s =
      let (r, s') = rand s in
      let (rest, s'') = push_characters n s' in
      (at wcs_secret_charset (r % (length wcs_secret_charset - 1)) ∷ rest, s'')

  unfoldable pub generate_wcs : ℤ → S → List ℕ × S
  generate_wcs (pos n) s = push_characters n s
  generate_wcs (negsuc n) s = ([], s)

  abbrev pub IsAlphanumeric : ℕ → Type 0
  IsAlphanumeric x = ((65 ≤ x) × (x ≤ 90)) ⊎ ((97 ≤ x) × (x ≤ 122)) ⊎ ((48 ≤ x) × (x ≤ 57))

  abbrev pub AllAlphanumeric : List ℕ → Type 0
  AllAlphanumeric [] = Unit {0}
  AllAlphanumeric (x ∷ xs) = IsAlphanumeric x × AllAlphanumeric xs

  at-below : (i : ℕ) → i < 62 → IsAlphanumeric (at wcs_secret_charset i)
  at-below i h = ground (
    arith,
    at-characters 65 26 (characters 97 26 ++ characters 48 10 ++ 0 ∷ []) i,
    at-characters 97 26 (characters 48 10 ++ 0 ∷ []) (i - 26),
    at-characters 48 10 (0 ∷ []) (i - 26 - 26),
  )

  push_characters-AllAlphanumeric :
      (n : ℕ) (s : S)
      → (length (push_characters n s).0 ≡ n) × AllAlphanumeric (push_characters n s).0
  unfolding push_characters
  push_characters-AllAlphanumeric zero s = (refl, tt)
  push_characters-AllAlphanumeric (suc n) s =
      let (l, all) = push_characters-AllAlphanumeric n (rand s).1 in
      (omega (arith, l), (at-below ((rand s).0 % 62) (omega arith), all))

  -- the number of passes of the loop
  abbrev pub passes : ℤ → ℕ
  passes (pos n) = n
  passes (negsuc n) = 0

  -- A secret has as many characters as was asked for, none where the number is negative, and each is
  -- a letter or a digit, whatever `rand` returns.
  pub generate_wcs-AllAlphanumeric :
      (count : ℤ) (s : S)
      → (length (generate_wcs count s).0 ≡ passes count) × AllAlphanumeric (generate_wcs count s).0
  unfolding generate_wcs
  generate_wcs-AllAlphanumeric (pos n) s = push_characters-AllAlphanumeric n s
  generate_wcs-AllAlphanumeric (negsuc n) s = (refl, tt)
