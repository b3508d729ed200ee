-- ===== src/Prelude/Decimal.antt =====
-- The digits that `decimal` prints are read back as the number.
use Prim.Native.Char.{Char, code}
use Prim.Native.Nat.{ℕ, zero, suc, ◌+◌, ◌-◌, ◌*◌, ◌/◌, ◌%◌, ◌<◌}
use Prim.Native.String.{String, ◌++◌}
use Prim.Native.String.append
use mathlib.Core.Path.{◌≡◌, refl, ap, ◌∙◌}
use mathlib.Core.Logic.{inl, inr}
use mathlib.Core.Bool.{true, false}
use native.Mathlib.Omega.{arith}
use agroasys_web3layer.Prelude.Tests.{◌==◌, Bool-cases}
use agroasys_web3layer.Prelude.Texts.{
  is_empty, digit, decimal_digits, decimal, all_digits, parse_int,
}

abbrev one : Char → String
one c = String.◌∷◌ c String.[]

digit_char : (d : ℕ) → d < 10 → (c : Char) × (digit d ≡ one c) × (code c ≡ 48 + d)
digit_char zero h = (_, refl, refl)
digit_char (suc zero) h = (_, refl, refl)
digit_char (suc (suc zero)) h = (_, refl, refl)
digit_char (suc (suc (suc zero))) h = (_, refl, refl)
digit_char (suc (suc (suc (suc zero)))) h = (_, refl, refl)
digit_char (suc (suc (suc (suc (suc zero))))) h = (_, refl, refl)
digit_char (suc (suc (suc (suc (suc (suc zero)))))) h = (_, refl, refl)
digit_char (suc (suc (suc (suc (suc (suc (suc zero))))))) h = (_, refl, refl)
digit_char (suc (suc (suc (suc (suc (suc (suc (suc zero)))))))) h = (_, refl, refl)
digit_char (suc (suc (suc (suc (suc (suc (suc (suc (suc zero))))))))) h = (_, refl, refl)
digit_char (suc (suc (suc (suc (suc (suc (suc (suc (suc (suc n)))))))))) h = ground (arith, h)

-- A text that is the digits of a number.
abbrev pub Reads : String → ℕ → Type 0
Reads s n = (is_empty s ≡ false) × (all_digits s ≡ true) × (parse_int 0 s ≡ n)

all_digits-append :
    (s : String) (c : Char) (d : ℕ)
    → code c ≡ 48 + d
    → d < 10
    → all_digits (s ++ one c) ≡ all_digits s
all_digits-append String.[] c d e h = rw (append.nil (one c), e) (ground (arith, h))
all_digits-append (String.◌∷◌ b s) c d e h =
    rw (append.cons b s (one c), all_digits-append s c d e h) refl

parse_int-append :
    (s : String) (c : Char) (d n : ℕ)
    → code c ≡ 48 + d
    → parse_int n (s ++ one c) ≡ parse_int n s * 10 + d
parse_int-append String.[] c d n e = rw (append.nil (one c), e) (omega arith)
parse_int-append (String.◌∷◌ b s) c d n e =
    rw (append.cons b s (one c)) (parse_int-append s c d (n * 10 + (code b - 48)) e)

append-nonempty : (s : String) (c : Char) → is_empty (s ++ one c) ≡ false
append-nonempty String.[] c = rw (append.nil (one c)) refl
append-nonempty (String.◌∷◌ b s) c = rw (append.cons b s (one c)) refl

Reads-append : (s : String) (n d : ℕ) → Reads s n → d < 10 → Reads (s ++ digit d) (n * 10 + d)
Reads-append s n d (filled, digits, value) h =
    let (c, same, e) = digit_char d h in
    rw same (
      append-nonempty s c,
      all_digits-append s c d e h ∙ digits,
      parse_int-append s c d 0 e ∙ ap (λ k. k * 10 + d) value,
    )

Reads-digit : (d : ℕ) → d < 10 → Reads (digit d) d
Reads-digit d h =
    let (c, same, e) = digit_char d h in
    rw same (refl, rw e (ground (arith, h)), rw e (omega arith))

Reads-value : (s : String) (n m : ℕ) → n ≡ m → Reads s n → Reads s m
Reads-value s n m same (filled, digits, value) = (filled, digits, value ∙ same)

decimal_digits-Reads : (fuel n : ℕ) → n < fuel → Reads (decimal_digits fuel n) n
unfolding decimal_digits
decimal_digits-Reads zero n h = ground (arith, h)
decimal_digits-Reads (suc fuel) n h =
    let small : n % 10 < 10 = omega arith in
    let whole : n / 10 * 10 + n % 10 ≡ n = omega arith in
    elim (Bool-cases (n / 10 == 0)) [
      | inl single ↦
          let last : n % 10 ≡ n = ground (arith, single, whole) in
          rw single (Reads-value _ _ n last (Reads-digit (n % 10) small))
      | inr more ↦
          let left : n / 10 < fuel = ground (arith, more, h, whole) in
          rw more (
            Reads-value _ _ n whole
              (Reads-append _ (n / 10) (n % 10) (decimal_digits-Reads fuel (n / 10) left) small))
    ]

pub decimal-Reads : (n : ℕ) → Reads (decimal n) n
unfolding decimal
decimal-Reads n = decimal_digits-Reads (suc n) n (omega arith)
