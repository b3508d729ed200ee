-- ===== src/Reconciliation/Classifier.antt =====
-- reconciliation/src/core/classifier.ts and utils/address.ts.
use agroasys_web3layer.Prelude.{
  ℕ, zero, suc, String, Bool, true, false, Option, none, some, List, [], ◌∷◌, ◌++◌, str_eq, decimal,
  if◌then◌else◌, ◌<>◌, ◌==◌,
}
use agroasys_web3layer.Exec.{Result, ok, err}
use agroasys_web3layer.Auth.Texts.{to_lower_case}
use agroasys_web3layer.Reconciliation.{
  Date, critical, high, medium, DriftCode, onchain_read_error, onchain_trade_missing,
  status_mismatch, participant_mismatch, amount_mismatch, hash_mismatch, arrival_timestamp_mismatch,
  indexed_invalid_address, onchain_invalid_address, IndexedTradeRecord, Trade, DriftFinding,
  CompareInput, Addresses,
}
use agroasys_web3layer.Reconciliation.Address.{truthy, same_text, normalized, is_zero_address}

abbrev pub status_label : ℕ → String
status_label zero = "LOCKED"
status_label (suc zero) = "IN_TRANSIT"
status_label (suc (suc zero)) = "ARRIVAL_CONFIRMED"
status_label (suc (suc (suc zero))) = "FROZEN"
status_label (suc (suc (suc (suc zero)))) = "CLOSED"
status_label n = "UNKNOWN_" <> decimal n

-- One of the amounts: a finding where the two differ.
unfoldable pub compare_amount : String → String → ℕ → ℕ → List DriftFinding
compare_amount trade_id field indexed onchain =
    if onchain == indexed
    then []
    else record {
      trade_id = trade_id;
      severity = critical;
      mismatch_code = amount_mismatch;
      compared_field = field;
      onchain_value = some (decimal onchain);
      indexed_value = some (decimal indexed);
      details = ("field", field) ∷ ("impact", "financial") ∷ [];
    }
      ∷ []

unfoldable pub compare_amounts : IndexedTradeRecord → Trade → List DriftFinding
compare_amounts indexed onchain =
    compare_amount indexed.trade_id "totalAmountLocked" indexed.total_amount_locked
      onchain.total_amount_locked
    ++ (compare_amount indexed.trade_id "logisticsAmount" indexed.logistics_amount
          onchain.logistics_amount
        ++ (compare_amount indexed.trade_id "platformFeesAmount" indexed.platform_fees_amount
              onchain.platform_fees_amount
            ++ (compare_amount indexed.trade_id "supplierFirstTranche"
                  indexed.supplier_first_tranche onchain.supplier_first_tranche
                ++ compare_amount indexed.trade_id "supplierSecondTranche"
                    indexed.supplier_second_tranche onchain.supplier_second_tranche)))

pub data Source : Type 0 where
  from_index : Source
  from_chain : Source

abbrev pub invalid_code : Source → DriftCode
invalid_code from_index = indexed_invalid_address
invalid_code from_chain = onchain_invalid_address

abbrev pub source_name : Source → String
source_name from_index = "indexed"
source_name from_chain = "onchain"

abbrev pub where_onchain : Source → String → Option String
where_onchain from_index value = none
where_onchain from_chain value = some value

abbrev pub where_indexed : Source → String → Option String
where_indexed from_index value = some value
where_indexed from_chain value = none

abbrev pub invalid_address_finding : String → Source → String → String → DriftFinding
invalid_address_finding trade_id source field value = record {
  trade_id = trade_id;
  severity = critical;
  mismatch_code = invalid_code source;
  compared_field = field;
  onchain_value = where_onchain source value;
  indexed_value = where_indexed source value;
  details =
      ("source", source_name source)
      ∷ ("field", field)
      ∷ ("reason", "address is not a valid hex EVM address")
      ∷ [];
}

-- `if (!normalized) findings.push(…)`
abbrev pub invalid_address : Option String → DriftFinding → List DriftFinding
invalid_address none finding = finding ∷ []
invalid_address (some address) finding = []

abbrev pub participant_finding : String → String → String → String → DriftFinding
participant_finding trade_id field onchain indexed = record {
  trade_id = trade_id;
  severity = critical;
  mismatch_code = participant_mismatch;
  compared_field = field;
  onchain_value = some onchain;
  indexed_value = some indexed;
  details = ("field", field) ∷ [];
}

-- `if (indexed && onchain && onchain !== indexed) findings.push(…)`
abbrev pub participants : Option String → Option String → DriftFinding → List DriftFinding
participants none onchain finding = []
participants (some indexed) none finding = []
participants (some indexed) (some onchain) finding =
    if str_eq onchain indexed then [] else finding ∷ []

unfoldable pub compare_status : IndexedTradeRecord → Trade → List DriftFinding
compare_status indexed onchain =
    if str_eq (status_label onchain.status) indexed.status
    then []
    else record {
      trade_id = indexed.trade_id;
      severity = high;
      mismatch_code = status_mismatch;
      compared_field = "status";
      onchain_value = some (status_label onchain.status);
      indexed_value = some indexed.status;
      details = ("impact", "workflow divergence") ∷ [];
    }
      ∷ []

unfoldable pub compare_hash : IndexedTradeRecord → Trade → List DriftFinding
compare_hash indexed onchain =
    if str_eq (to_lower_case onchain.ricardian_hash) (to_lower_case indexed.ricardian_hash)
    then []
    else record {
      trade_id = indexed.trade_id;
      severity = critical;
      mismatch_code = hash_mismatch;
      compared_field = "ricardianHash";
      onchain_value = some onchain.ricardian_hash;
      indexed_value = some indexed.ricardian_hash;
      details = ("impact", "legal linkage divergence") ∷ [];
    }
      ∷ []

-- `date ? date.toISOString() : null`: an invalid date throws.
abbrev pub iso : Option Date → Result String (Option String)
iso none = ok none
iso (some none) = err "Invalid time value"
iso (some (some text)) = ok (some text)

abbrev pub arrival_finding : String → Option String → Option String → DriftFinding
arrival_finding trade_id onchain indexed = record {
  trade_id = trade_id;
  severity = medium;
  mismatch_code = arrival_timestamp_mismatch;
  compared_field = "arrivalTimestamp";
  onchain_value = onchain;
  indexed_value = indexed;
  details = ("impact", "timeline divergence") ∷ [];
}

-- The findings so far, and the one on the arrival.
unfoldable pub with_arrival :
    String
    → List DriftFinding
    → Result String (Option String)
    → Result String (Option String)
    → Result String (List DriftFinding)
with_arrival trade_id findings (err e) indexed = err e
with_arrival trade_id findings (ok onchain) (err e) = err e
with_arrival trade_id findings (ok onchain) (ok indexed) = ok (
    findings
    ++ (if same_text onchain indexed then [] else arrival_finding trade_id onchain indexed ∷ []))

abbrev pub read_error_finding : IndexedTradeRecord → String → DriftFinding
read_error_finding indexed error = record {
  trade_id = indexed.trade_id;
  severity = critical;
  mismatch_code = onchain_read_error;
  compared_field = "tradeLookup";
  onchain_value = none;
  indexed_value = some indexed.status;
  details = ("error", error) ∷ [];
}

abbrev pub missing_finding : IndexedTradeRecord → DriftFinding
missing_finding indexed = record {
  trade_id = indexed.trade_id;
  severity = critical;
  mismatch_code = onchain_trade_missing;
  compared_field = "tradePresence";
  onchain_value = none;
  indexed_value = some indexed.trade_id;
  details = ("reason", "trade not found on-chain") ∷ [];
}

module _ (ethers : Addresses) where
  unfoldable pub compare_addresses : IndexedTradeRecord → Trade → List DriftFinding
  compare_addresses indexed onchain =
      invalid_address (normalized ethers indexed.buyer)
        (invalid_address_finding indexed.trade_id from_index "buyer" indexed.buyer)
      ++ (invalid_address (normalized ethers indexed.supplier)
            (invalid_address_finding indexed.trade_id from_index "supplier" indexed.supplier)
          ++ (invalid_address (normalized ethers onchain.buyer)
                (invalid_address_finding indexed.trade_id from_chain "buyer" onchain.buyer)
              ++ (invalid_address (normalized ethers onchain.supplier) (
                    invalid_address_finding indexed.trade_id from_chain "supplier" onchain.supplier)
                  ++ (participants (normalized ethers indexed.buyer)
                        (normalized ethers onchain.buyer)
                        (participant_finding indexed.trade_id "buyer" onchain.buyer indexed.buyer)
                      ++ participants (normalized ethers indexed.supplier)
                          (normalized ethers onchain.supplier)
                          (participant_finding indexed.trade_id "supplier" onchain.supplier
                            indexed.supplier)))))

  unfoldable pub compare_trades : IndexedTradeRecord → Trade → Result String (List DriftFinding)
  unfolding compare_addresses
  compare_trades indexed onchain =
      with_arrival indexed.trade_id
        (compare_status indexed onchain
          ++ (compare_addresses indexed onchain
              ++ (compare_amounts indexed onchain ++ compare_hash indexed onchain)))
        (iso onchain.arrival_timestamp) (iso indexed.arrival_timestamp)

  -- The trade that was read, and whether its buyer is the zero address.
  abbrev pub classify_present :
      IndexedTradeRecord → Trade → Bool → Result String (List DriftFinding)
  classify_present indexed onchain true = ok (missing_finding indexed ∷ [])
  classify_present indexed onchain false = compare_trades indexed onchain

  abbrev pub classify_read :
      IndexedTradeRecord → Option Trade → Option String → Result String (List DriftFinding)
  classify_read indexed trade (some error) = ok (read_error_finding indexed error ∷ [])
  classify_read indexed none none = ok (missing_finding indexed ∷ [])
  classify_read indexed (some trade) none =
      classify_present indexed trade (is_zero_address ethers trade.buyer)

  unfoldable pub classify_drifts : CompareInput → Result String (List DriftFinding)
  unfolding is_zero_address compare_trades
  classify_drifts input =
      classify_read input.indexed_trade input.onchain_trade (truthy input.onchain_read_error)
