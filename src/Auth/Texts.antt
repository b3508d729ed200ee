-- ===== src/Auth/Texts.antt =====
-- The texts of the auth service: lower case, the wallet's pattern, the bearer token.
use Prim.Native.Char.{Char, code}
use Prim.Native.String.{char_at}
use agroasys_web3layer.Prelude.{
  ℕ, zero, suc, ◌-◌, String, Bool, true, false, ◌&&◌, ◌||◌, leb, ◌==◌, if◌then◌else◌, is_digit,
  Option, none, some,
}

abbrev is_upper : ℕ → Bool
is_upper n = leb 65 n && leb n 90

-- The letters A to Z: addresses and hashes are hexadecimal and have no others that change.
lower_char : Char → Char
lower_char c = if is_upper (code c) then char_at "abcdefghijklmnopqrstuvwxyz" (code c - 65) else c

-- `text.toLowerCase()`
unfoldable pub to_lower_case : String → String
unfolding lower_char
to_lower_case String.[] = String.[]
to_lower_case (String.◌∷◌ c s) = String.◌∷◌ (lower_char c) (to_lower_case s)

-- `[0-9a-f]` without regard to case
abbrev is_hex_digit : ℕ → Bool
is_hex_digit n = is_digit n || leb 65 n && leb n 70 || leb 97 n && leb n 102

hex_digits : ℕ → String → Bool
hex_digits zero String.[] = true
hex_digits zero (String.◌∷◌ c s) = false
hex_digits (suc n) String.[] = false
hex_digits (suc n) (String.◌∷◌ c s) = is_hex_digit (code c) && hex_digits n s

after_zero : String → Bool
unfolding hex_digits
after_zero String.[] = false
after_zero (String.◌∷◌ c s) = (code c == 120 || code c == 88) && hex_digits 40 s

-- `WALLET_REGEX.test(wallet)`
unfoldable pub is_wallet : String → Bool
unfolding after_zero
is_wallet String.[] = false
is_wallet (String.◌∷◌ c s) = code c == 48 && after_zero s

-- The text after a prefix, where it has that prefix.
unfoldable pub strip_prefix : String → String → Option String
strip_prefix String.[] s = some s
strip_prefix (String.◌∷◌ p ps) String.[] = none
strip_prefix (String.◌∷◌ p ps) (String.◌∷◌ c s) =
    let rest = strip_prefix ps s in if code p == code c then rest else none
