-- ===== src/Treasury/Controller.antt =====
-- `appendState` of treasury/src/api/controller.ts.
use agroasys_web3layer.Prelude.{
  ℕ, String, ◌≡◌, refl, ◌⊎◌, inl, inr, Option, none, some, ◌∷◌, find, ◌==◌, str_eq, if◌then◌else◌,
}
use agroasys_web3layer.Exec.{Result, ok, err, pure, lift, catch, ◌>>=◌, ◌>>◌}
use agroasys_web3layer.Exec.Triple.{
  Outcome, Triple, Triple-bind, Triple-lift, Triple-catch, Triple-pre, Triple-post,
}
use agroasys_web3layer.Treasury.Payout.{
  PayoutState, pending_review, ready_for_payout, processing, paid, cancelled,
  assert_valid_transition, Step, assert_valid_transition-Step,
}
use agroasys_web3layer.Treasury.Ledger.{
  Books, LedgerEntry, PayoutLifecycleEvent, Surroundings, Office, Act, latest_event, insert_event,
  or_null, transact, unless_failed, append_payout_state, get_latest_payout_state,
  get_ledger_entry_by_id,
}

-- What `Number.parseInt(req.params.entryId, 10)` comes to.
pub data EntryId : Type 0 where
  not_a_number negative : EntryId
  number : ℕ → EntryId

pub data AppendReply : Type 0 where
  appended : PayoutLifecycleEvent → AppendReply
  refused : ℕ → String → AppendReply

-- `assertPayoutState`
unfoldable pub assert_payout_state : String → Result String PayoutState
assert_payout_state value =
    if str_eq value "PENDING_REVIEW"
    then ok pending_review
    else if str_eq value "READY_FOR_PAYOUT"
    then ok ready_for_payout
    else if str_eq value "PROCESSING"
    then ok processing
    else if str_eq value "PAID"
    then ok paid
    else if str_eq value "CANCELLED"
    then ok cancelled
    else err "Invalid payout state"

-- `latest?.state || 'PENDING_REVIEW'`
abbrev pub current_state : Option PayoutLifecycleEvent → PayoutState
current_state none = pending_review
current_state (some event) = event.state

abbrev message_or : String → String → String
message_or text fallback = if str_eq text "" then fallback else text

module _ (env : Surroundings) where
  append_to : ℕ → String → Option String → Option String → Act AppendReply
  append_to id value remark actor = do
    state ← lift (assert_payout_state value)
    latest ← get_latest_payout_state env id
    lift (assert_valid_transition (current_state latest) state)
    event ← append_payout_state env id state remark actor
    pure (appended event)

  on_entry : Option LedgerEntry → ℕ → String → Option String → Option String → Act AppendReply
  unfolding append_to
  on_entry none id value remark actor = pure (refused 404 "Ledger entry not found")
  on_entry (some entry) id value remark actor = append_to id value remark actor

  look_up : EntryId → String → Option String → Option String → Act AppendReply
  unfolding on_entry
  look_up not_a_number value remark actor = pure (refused 400 "Invalid entryId")
  look_up negative value remark actor = pure (refused 404 "Ledger entry not found")
  look_up (number id) value remark actor = do
    entry ← get_ledger_entry_by_id env id
    on_entry entry id value remark actor

  pub append_state : EntryId → String → Option String → Option String → Act AppendReply
  unfolding look_up
  append_state id value remark actor =
      catch (look_up id value remark actor)
        (λ text. pure (refused 400 (message_or text "Failed to append payout state")))

-- The books are unchanged, or hold one more event: a step from the latest state of its entry.
abbrev pub IsExtended : Books → Books → Type 0
IsExtended old new =
    (new ≡ old)
    ⊎ ((event : PayoutLifecycleEvent) × (new.events ≡ event ∷ old.events)
        × (new.entries ≡ old.entries)
        × Step (current_state (latest_event event.ledger_entry_id old.events)) event.state)

module _ (env : Surroundings) (b : Books) where
  abbrev HasBooks : Office → Type 0
  HasBooks o = o.books ≡ b

  abbrev Extends : Office → Type 0
  Extends o = IsExtended b o.books

  unless_failed-Outcome :
      {A : Type 0} (statement : ℕ → Books → A × Books) (fault : Option String) (o : Office) (a : A)
      (books : Books) (now : ℕ)
      → a ≡ (statement now b).0
      → books ≡ (statement now b).1
      → HasBooks o
      → Outcome
          (λ a o. (now : ℕ) × (a ≡ (statement now b).0) × (o.books ≡ (statement now b).1))
          HasBooks
          (unless_failed fault o (ok a, books)).0
          (unless_failed fault o (ok a, books)).1
  unless_failed-Outcome statement none o a books now x y p = (now, x, y)
  unless_failed-Outcome statement (some e) o a books now x y p = p

  transact-Triple :
      {A : Type 0} (statement : ℕ → Books → A × Books)
      → Triple HasBooks
          (transact env statement)
          (λ a o. (now : ℕ) × (a ≡ (statement now b).0) × (o.books ≡ (statement now b).1))
          HasBooks
  unfolding transact
  transact-Triple statement = record {
    at = λ o p.
        unless_failed-Outcome statement (env.query_fault o.moment) o _ _ (env.now o.moment)
          (rw p refl) (rw p refl) p;
  }

  -- The books are as before, and the fact holds.
  abbrev Knows : Type 0 → Office → Type 0
  Knows fact o = HasBooks o × fact

  known :
      {A : Type 0} {fact : Type 0} {m : Act A} {Q : A → Office → Type 0} {R : Office → Type 0}
      → (fact → Triple HasBooks m Q R)
      → Triple (Knows fact) m Q R
  known t = record { at = λ o p. (t p.1).at o p.0 }

  append_payout_state-Extends :
      (id : ℕ) (s : PayoutState) (remark actor : Option String)
      → Step (current_state (latest_event id b.events)) s
      → Triple HasBooks (append_payout_state env id s remark actor) (λ _. Extends) HasBooks
  unfolding append_payout_state insert_event
  append_payout_state-Extends id s remark actor step =
      Triple-post
        (λ event o q. inr (
          (insert_event q.0 id s (or_null remark) (or_null actor) b).0,
          rw q.2 refl,
          rw q.2 refl,
          step,
        ))
        (λ o p. p) (transact-Triple (λ now. insert_event now id s (or_null remark) (or_null actor)))

  append_to-Extends :
      (id : ℕ) (value : String) (remark actor : Option String)
      → Triple HasBooks (append_to env id value remark actor) (λ _. Extends) HasBooks
  unfolding append_to get_latest_payout_state pure
  append_to-Extends id value remark actor =
      Triple-bind _ _ (λ s o. HasBooks o × (assert_payout_state value ≡ ok s))
        (Triple-lift _ (λ o p. p))
        (λ s.
          Triple-pre (λ o p. p.0)
            (Triple-bind _ _ (λ latest. Knows (latest ≡ latest_event id b.events))
              (Triple-post (λ latest o q. (q.2, q.1)) (λ o p. p)
                (transact-Triple (λ now books. (latest_event id books.events, books))))
              (λ latest. known (λ e.
                Triple-bind _ _
                  (λ _. Knows (assert_valid_transition (current_state latest) s ≡ ok tt))
                  (Triple-post (λ u o q. q) (λ o p. p) (Triple-lift _ (λ o p. p)))
                  (λ _. known (λ valid.
                    let step = (assert_valid_transition-Step (current_state latest) s).0 valid in
                    Triple-bind _ _ (λ _. Extends)
                      (append_payout_state-Extends id s remark actor (rw e at step))
                      (λ event. record { at = λ o p. p })))))))

  on_entry-Extends :
      (o : Option LedgerEntry) (id : ℕ) (value : String) (remark actor : Option String)
      → Triple HasBooks (on_entry env o id value remark actor) (λ _. Extends) HasBooks
  unfolding on_entry pure
  on_entry-Extends none id value remark actor = record { at = λ o p. inl p }
  on_entry-Extends (some entry) id value remark actor = append_to-Extends id value remark actor

  look_up-Extends :
      (id : EntryId) (value : String) (remark actor : Option String)
      → Triple HasBooks (look_up env id value remark actor) (λ _. Extends) HasBooks
  unfolding look_up get_ledger_entry_by_id pure
  look_up-Extends not_a_number value remark actor = record { at = λ o p. inl p }
  look_up-Extends negative value remark actor = record { at = λ o p. inl p }
  look_up-Extends (number id) value remark actor =
      Triple-bind _ _ (λ _. HasBooks)
        (Triple-post (λ a o q. q.2) (λ o p. p)
          (transact-Triple (λ now books. (find (λ e. e.id == id) books.entries, books))))
        (λ entry. on_entry-Extends entry id value remark actor)

-- A call of the route leaves the books as they are or appends one event, whose state is a step of the
-- lifecycle from the latest state of its entry, PENDING_REVIEW where it has none; it always replies,
-- whatever the database does.
pub append_state-IsExtended :
    (env : Surroundings) (id : EntryId) (value : String) (remark actor : Option String) (o : Office)
    → let (r, o') = append_state env id value remark actor o in
      ((reply : AppendReply) × (r ≡ ok reply)) × IsExtended o.books o'.books
unfolding append_state pure
append_state-IsExtended env id value remark actor o =
    let (r, o') = append_state env id value remark actor o in
    replied r o' (
      (Triple-catch (HasBooks env o.books) _ _ (look_up-Extends env o.books id value remark actor)
          (λ text. record { at = λ v p. inl p })).at
        o refl)
  where
    replied :
        (r : Result String AppendReply) (o' : Office)
        → Outcome (λ _ v. IsExtended o.books v.books) (λ v. ⊥) r o'
        → ((reply : AppendReply) × (r ≡ ok reply)) × IsExtended o.books o'.books
    replied (ok reply) o' h = ((reply, refl), h)
    replied (err e) o' h = absurd h
