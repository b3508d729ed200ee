-- ===== src/Reconciliation/Address.antt =====
-- reconciliation/src/utils/address.ts, and the conditions on texts.
use agroasys_web3layer.Prelude.{
  String, Bool, true, false, Option, none, some, str_eq, is_empty, if◌then◌else◌,
}
use agroasys_web3layer.Reconciliation.{Addresses}

-- A text as a condition: the empty one is falsy.
abbrev pub truthy : Option String → Option String
truthy none = none
truthy (some text) = if is_empty text then none else some text

-- `a === b` of two texts or null.
abbrev pub same_text : Option String → Option String → Bool
same_text none none = true
same_text none (some b) = false
same_text (some a) none = false
same_text (some a) (some b) = str_eq a b

abbrev pub zero_address : String
zero_address = "0x0000000000000000000000000000000000000000"

module _ (ethers : Addresses) where
  unfoldable pub normalize_address_or_null : String → Option String
  normalize_address_or_null value =
      if ethers.is_address value then some (ethers.get_address value) else none

  unfoldable pub is_zero_address : String → Bool
  unfolding normalize_address_or_null
  is_zero_address value = same_text (normalize_address_or_null value) (some zero_address)

  -- The normalized address as a condition.
  abbrev pub normalized : String → Option String
  normalized value = truthy (normalize_address_or_null value)
