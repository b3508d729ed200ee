-- ===== src/Reconciliation/Agreement.antt =====
-- When reconciliation/src/core/classifier.ts finds no drift.
use mathlib.Core.Path.{subst}
use agroasys_web3layer.Prelude.{
  String, ◌≡◌, ◌↔◌, ◌≢◌, refl, inl, inr, Bool, true, false, Option, none, some, [], Bool-cases,
}
use agroasys_web3layer.Exec.{ok}
use agroasys_web3layer.Auth.Texts.{to_lower_case}
use agroasys_web3layer.Reconciliation.{IndexedTradeRecord, Trade, CompareInput, Addresses}
use agroasys_web3layer.Reconciliation.Address.{
  truthy, same_text, zero_address, normalize_address_or_null, is_zero_address, normalized,
}
use agroasys_web3layer.Reconciliation.Classifier.{
  status_label, compare_addresses, compare_trades, classify_present, classify_read, classify_drifts,
}
use agroasys_web3layer.Reconciliation.Findings.{
  append_nil, texts_iff, addresses_iff, arrival_iff, both_iff, amounts_iff, status_iff, hash_iff,
  SameAddress, SameArrival, SameAmounts,
}

module _ (ethers : Addresses) where
  compare_addresses_iff :
      (indexed : IndexedTradeRecord) (onchain : Trade)
      → (compare_addresses ethers indexed onchain ≡ []) ↔ (
          SameAddress (normalized ethers indexed.buyer) (normalized ethers onchain.buyer)
          × SameAddress (normalized ethers indexed.supplier) (normalized ethers onchain.supplier))
  unfolding compare_addresses
  compare_addresses_iff indexed onchain =
      let buyers =
        addresses_iff (normalized ethers indexed.buyer) (normalized ethers onchain.buyer) _ _ _ in
      let suppliers =
        addresses_iff (normalized ethers indexed.supplier) (normalized ethers onchain.supplier) _ _
          _ in
      (
        λ e.
            let (a, r) = (append_nil _ _).0 e in
            let (b, r) = (append_nil _ _).0 r in
            let (c, r) = (append_nil _ _).0 r in
            let (d, r) = (append_nil _ _).0 r in
            let (f, g) = (append_nil _ _).0 r in (buyers.0 (a, c, f), suppliers.0 (b, d, g)),
        λ (same, other).
            let (a, c, f) = buyers.1 same in
            let (b, d, g) = suppliers.1 other in
            (append_nil _ _).1 (
              a,
              (append_nil _ _).1
                  (b, (append_nil _ _).1 (c, (append_nil _ _).1 (d, (append_nil _ _).1 (f, g)))),
            ),
      )

  -- The two trades agree in every field that is compared.
  pub record TradesAgree (indexed : IndexedTradeRecord) (onchain : Trade) : Type 0 where
    pub status : status_label onchain.status ≡ indexed.status
    pub buyer : SameAddress (normalized ethers indexed.buyer) (normalized ethers onchain.buyer)
    pub supplier :
        SameAddress (normalized ethers indexed.supplier) (normalized ethers onchain.supplier)
    pub amounts : SameAmounts indexed onchain
    pub hash : to_lower_case onchain.ricardian_hash ≡ to_lower_case indexed.ricardian_hash
    pub arrival : SameArrival onchain.arrival_timestamp indexed.arrival_timestamp

  compare_trades_iff :
      (indexed : IndexedTradeRecord) (onchain : Trade)
      → (compare_trades ethers indexed onchain ≡ ok []) ↔ TradesAgree indexed onchain
  unfolding compare_trades
  compare_trades_iff indexed onchain =
      let parts = both_iff (status_iff indexed onchain) (
        both_iff (compare_addresses_iff indexed onchain)
          (both_iff (amounts_iff indexed onchain) (hash_iff indexed onchain))) in
      let whole =
        arrival_iff indexed.trade_id _ onchain.arrival_timestamp indexed.arrival_timestamp in
      (
        λ e.
            let (found, arrival) = whole.0 e in
            let (status, ((buyer, supplier), (amounts, hash))) = parts.0 found in
            record {
              status = status;
              buyer = buyer;
              supplier = supplier;
              amounts = amounts;
              hash = hash;
              arrival = arrival;
            },
        λ a. whole.1 (parts.1 (a.status, ((a.buyer, a.supplier), (a.amounts, a.hash))), a.arrival),
      )

  present_iff :
      (indexed : IndexedTradeRecord) (onchain : Trade) (zero_buyer : Bool)
      → (classify_present ethers indexed onchain zero_buyer ≡ ok [])
        ↔ ((zero_buyer ≡ false) × TradesAgree indexed onchain)
  present_iff indexed onchain true = (λ e. cc, λ (e, _). cc)
  present_iff indexed onchain false = (
    λ e. (refl, (compare_trades_iff indexed onchain).0 e),
    λ (_, a). (compare_trades_iff indexed onchain).1 a,
  )

  zero_iff :
      (value : String)
      → (is_zero_address ethers value ≡ false)
        ↔ (normalize_address_or_null ethers value ≢ some zero_address)
  unfolding is_zero_address
  zero_iff value =
      let same = texts_iff (normalize_address_or_null ethers value) (some zero_address) in
      (
        λ e is. let not_same = same.1 is in cc,
        λ n.
            elim (Bool-cases
              (same_text (normalize_address_or_null ethers value) (some zero_address))) [
                | inl is ↦ elim (n (same.0 is)) [ ]
                | inr is_not ↦ is_not
              ],
      )

  -- The chain was read, has the trade with a buyer other than the zero address, and agrees with it.
  pub Agrees : IndexedTradeRecord → Option Trade → Option String → Type 0
  Agrees indexed trade error =
      (error ≡ none)
      × ((t : Trade) × (trade ≡ some t)
          × (normalize_address_or_null ethers t.buyer ≢ some zero_address)
          × TradesAgree indexed t)

  read_iff :
      (indexed : IndexedTradeRecord) (trade : Option Trade) (error : Option String)
      → (classify_read ethers indexed trade error ≡ ok []) ↔ Agrees indexed trade error
  unfolding Agrees
  read_iff indexed trade (some error) = (λ e. cc, λ (e, _). cc)
  read_iff indexed none none = (λ e. cc, λ (_, (t, e, _, _)). cc)
  read_iff indexed (some onchain) none =
      let present = present_iff indexed onchain (is_zero_address ethers onchain.buyer) in
      (
        λ e.
            let (nonzero, a) = present.0 e in
            (refl, (onchain, refl, (zero_iff onchain.buyer).0 nonzero, a)),
        λ (_, (t, e, nonzero, a)).
            let is : t ≡ onchain = cc in
            present.1 (
              (zero_iff onchain.buyer).1 (
                  subst (λ u. normalize_address_or_null ethers u.buyer ≢ some zero_address) is
                    nonzero),
              subst (λ u. TradesAgree indexed u) is a,
            ),
      )

  -- The classifier finds no drift just where the chain was read without an error, has the trade,
  -- with a buyer that does not normalize to the zero address, and agrees with the indexer on the
  -- status, on buyer and supplier, which are valid addresses on both sides and normalize to the
  -- same, on the five amounts, on the hash up to case, and on the arrival, absent on both sides or
  -- the same valid date.
  pub classify_drifts_iff :
      (input : CompareInput)
      → (classify_drifts ethers input ≡ ok [])
        ↔ Agrees input.indexed_trade input.onchain_trade (truthy input.onchain_read_error)
  unfolding classify_drifts
  classify_drifts_iff input =
      read_iff input.indexed_trade input.onchain_trade (truthy input.onchain_read_error)
