-- ===== src/Prelude/Texts.antt =====
-- Texts as the services use them: substring tests, truthiness and decimal numbers.
use Prim.Native.Char.{code}
use Prim.Native.Nat.{ℕ, zero, suc, ◌+◌, ◌-◌, ◌*◌, ◌/◌, ◌%◌}
use Prim.Native.String.{String, ◌++◌}
use mathlib.Core.Bool.{Bool, true, false, ◌&&◌, ◌||◌}
use mathlib.Core.Option.{none, some}
use text.Mathlib.Text.{find?}
use agroasys_web3layer.Prelude.Tests.{ltb, ◌==◌, leb, if◌then◌else◌}

-- `${a}${b}`
infixr 66 ◌<>◌
abbrev pub ◌<>◌ : String → String → String
a <> b = a ++ b

-- `text.includes(part)`
unfoldable pub includes : String → String → Bool
includes text part = elim (find? text part) [ none ↦ false | some _ ↦ true ]

-- `!text`: the empty text is falsy.
abbrev pub is_empty : String → Bool
is_empty String.[] = true
is_empty (String.◌∷◌ c s) = false

abbrev pub digit : ℕ → String
digit zero = "0"
digit (suc zero) = "1"
digit (suc (suc zero)) = "2"
digit (suc (suc (suc zero))) = "3"
digit (suc (suc (suc (suc zero)))) = "4"
digit (suc (suc (suc (suc (suc zero))))) = "5"
digit (suc (suc (suc (suc (suc (suc zero)))))) = "6"
digit (suc (suc (suc (suc (suc (suc (suc zero))))))) = "7"
digit (suc (suc (suc (suc (suc (suc (suc (suc zero)))))))) = "8"
digit _ = "9"

unfoldable pub decimal_digits : ℕ → ℕ → String
decimal_digits zero n = ""
decimal_digits (suc fuel) n =
    let rest = decimal_digits fuel (n / 10) in
    if n / 10 == 0 then digit (n % 10) else rest ++ digit (n % 10)

-- A number printed in a template: `n + 1` rounds are enough for its digits.
unfoldable pub decimal : ℕ → String
unfolding decimal_digits
decimal n = decimal_digits (suc n) n

abbrev pub is_digit : ℕ → Bool
is_digit n = leb 48 n && leb n 57

-- `/^\d*$/`
abbrev pub all_digits : String → Bool
all_digits String.[] = true
all_digits (String.◌∷◌ c s) = is_digit (code c) && all_digits s

-- `Number.parseInt(text, 10)` of digits that follow a number.
abbrev pub parse_int : ℕ → String → ℕ
parse_int n String.[] = n
parse_int n (String.◌∷◌ c s) = parse_int (n * 10 + (code c - 48)) s

-- The white space of `trim`.
abbrev is_space : ℕ → Bool
is_space n =
    leb 9 n && leb n 13
    || n == 32
    || n == 160
    || n == 5760
    || leb 8192 n && leb n 8202
    || n == 8232
    || n == 8233
    || n == 8239
    || n == 8287
    || n == 12288
    || n == 65279

abbrev trim_start : String → String
trim_start String.[] = String.[]
trim_start (String.◌∷◌ c s) =
    let rest = trim_start s in if is_space (code c) then rest else String.◌∷◌ c s

abbrev trim_end : String → String
trim_end String.[] = String.[]
trim_end (String.◌∷◌ c s) =
    let rest = trim_end s in
    if is_space (code c) && is_empty rest then String.[] else String.◌∷◌ c rest

-- `text.trim()`
abbrev pub trim : String → String
trim s = trim_end (trim_start s)

-- `text.length`: the UTF-16 code units.
abbrev pub utf16_length : String → ℕ
utf16_length String.[] = 0
utf16_length (String.◌∷◌ c s) = (if ltb 65535 (code c) then 2 else 1) + utf16_length s
