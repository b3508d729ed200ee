-- ===== src/Gateway/Idempotency/Once.antt =====
-- How often the middleware of gateway/src/middleware/idempotency.ts runs a handler for a key.
pub mod Replay
use agroasys_web3layer.Prelude.{
  ℕ, zero, suc, ◌-◌, ◌≤◌, String, Bool, true, false, ◌≡◌, ◌≢◌, ◌⊎◌, refl, sym, ap, ◌∙◌, inl, inr,
  Option, none, some, List, [], ◌∷◌, Bool-cases, Option-cases, arith, str_eq, eq_iff, eq_refl, leb,
  ◌==◌, ==_iff, if◌then◌else◌,
}
use agroasys_web3layer.Gateway.{Failure}
use agroasys_web3layer.Gateway.Idempotency.{
  IdempotencyRecord, Request, Response, Answer, proceeds, replayed, fails, Gate, fresh_gate, set,
  key_of, stored_response, response_of, completed_record, complete_row, release_row, Event, arrives,
  ends, is_lost, fingerprint_of, pending_record, is_same, tick, unless_down, reply_stored,
  check_stored, reserve, admit_key, admit, finish, lose, happen, happen_all,
}

-- No handler runs for the key, or one does and the key's row is pending.
abbrev pub IsGuarded : ℕ → Option IdempotencyRecord → Type 0
IsGuarded n row =
    (n ≡ 0) ⊎ ((n ≡ 1) × ((e : IdempotencyRecord) × (row ≡ some e) × (e.completed_at ≡ none)))

abbrev pub IsSound : Gate → Type 0
IsSound g = (k : String) → IsGuarded (g.running k) (g.records k)

unanswered :
    (e : IdempotencyRecord) (at status : Option ℕ) → at ≡ none → response_of e at status ≡ none
unanswered e none status h = refl
unanswered e (some at) status h = cc

-- Setting a key's row and its number of handlers keeps the others.
set-IsSound :
    (key : String) (n : ℕ) (row : Option IdempotencyRecord) (g : Gate)
    → IsSound g
    → IsGuarded n row
    → (k : String) → IsGuarded (set key n g.running k) (set key row g.records k)
set-IsSound key n row g sound here k = elim (Bool-cases (str_eq k key)) [
  | inl is ↦ rw is here
  | inr other ↦ rw other (sound k)
]

module _ (sha256 : String → String) (now : ℕ → ℕ) (down : ℕ → Option Failure) where
  -- A row that is there guards its key.
  guarded_none : (n : ℕ) (row : Option IdempotencyRecord) → row ≡ none → IsGuarded n row → n ≡ 0
  guarded_none n row missing (inl idle) = idle
  guarded_none n row missing (inr (one, (e, at, pending))) = cc

  -- What does not concern the moment: the rows and the handlers.
  abbrev pub IsTimeless : (Gate → Type 0) → Type 0
  IsTimeless P = (g : Gate) → P g → P (tick sha256 now down g)

  unless_down-keeps :
      (P : Gate → Type 0) (fault : Option Failure) (r : Answer × Gate) (g : Gate)
      → IsTimeless P
      → P g
      → P r.1
      → P (unless_down sha256 now down fault r g).1
  unless_down-keeps P none r g timeless here there = there
  unless_down-keeps P (some e) r g timeless here there = timeless g here

  reply_stored-keeps :
      (P : Gate → Type 0) (response : Option Response) (g : Gate)
      → IsTimeless P
      → P g
      → P (reply_stored sha256 now down response g).1
  reply_stored-keeps P none g timeless here = here
  reply_stored-keeps P (some response) g timeless here =
      unless_down-keeps P (down g.moment) _ g timeless here (timeless g here)

  check_stored-keeps :
      (P : Gate → Type 0) (r : Request) (e : IdempotencyRecord) (g : Gate)
      → IsTimeless P
      → P g
      → P (check_stored sha256 now down r e g).1
  unfolding check_stored
  check_stored-keeps P r e g timeless here = elim (Bool-cases (is_same sha256 now down r e)) [
    | inl same ↦ rw same (reply_stored-keeps P (stored_response e) g timeless here)
    | inr other ↦ rw other here
  ]

  -- A key that is taken.
  reserve-keeps :
      (P : Gate → Type 0) (key : String) (r : Request) (e : IdempotencyRecord) (g : Gate)
      → IsTimeless P
      → P g
      → P (reserve sha256 now down key r (some e) g).1
  unfolding reserve
  reserve-keeps P key r e g timeless here =
      let later = timeless g here in
      unless_down-keeps P (down g.moment) _ g timeless here (
        unless_down-keeps P (down (suc g.moment)) _ (tick sha256 now down g) timeless later
          (check_stored-keeps P r e _ timeless (timeless _ later)))

  reserve-IsSound :
      (key : String) (r : Request) (row : Option IdempotencyRecord) (g : Gate)
      → g.records key ≡ row
      → IsSound g
      → IsSound (reserve sha256 now down key r row g).1
  unfolding reserve
  reserve-IsSound key r (some e) g at sound =
      reserve-keeps IsSound key r e g (λ g' sound'. sound') sound
  reserve-IsSound key r none g at sound =
      let idle : g.running key ≡ 0 = guarded_none _ _ at (sound key) in
      let e = pending_record sha256 now down key r (now g.moment) in
      unless_down-keeps IsSound (down g.moment) _ g (λ g' sound'. sound') sound
        (set-IsSound key (suc (g.running key)) (some e) g sound
          (inr (ap suc idle, (e, refl, refl))))

  admit-IsSound : (r : Request) (g : Gate) → IsSound g → IsSound (admit sha256 now down r g).1
  unfolding admit
  admit-IsSound r g sound = go (key_of r.idempotency_key)
    where
      go : (key : Option String) → IsSound (admit_key sha256 now down key r g).1
      go none = sound
      go (some key) = reserve-IsSound key r (g.records key) g refl sound

  none_left : (n : ℕ) (row : Option IdempotencyRecord) → IsGuarded n row → n - 1 ≡ 0
  none_left n row (inl idle) = omega (arith, idle)
  none_left n row (inr (one, (e, at, pending))) = omega (arith, one)

  pub happen-IsSound : (e : Event) (g : Gate) → IsSound g → IsSound (happen sha256 now down e g)
  unfolding happen finish lose
  happen-IsSound (arrives r) g sound = admit-IsSound r g sound
  happen-IsSound (ends key response) g sound = elim (Bool-cases (g.running key == 0)) [
    | inl idle ↦ rw idle sound
    | inr busy ↦
        rw busy (set-IsSound key (g.running key - 1) _ g sound (inl (none_left _ _ (sound key))))
  ]
  happen-IsSound (is_lost key) g sound = elim (Bool-cases (g.running key == 0)) [
    | inl idle ↦ rw idle sound
    | inr busy ↦ rw busy (λ k. elim (Bool-cases (str_eq k key)) [
      | inl is ↦ rw is (inl (none_left _ _ (sound key)))
      | inr other ↦ rw other (sound k)
    ])
  ]

  pub happen_all-IsSound :
      (events : List Event) (g : Gate) → IsSound g → IsSound (happen_all sha256 now down events g)
  unfolding happen_all
  happen_all-IsSound [] g sound = sound
  happen_all-IsSound (e ∷ events) g sound =
      happen_all-IsSound events (happen sha256 now down e g) (happen-IsSound e g sound)

  at_most_one : (n : ℕ) (row : Option IdempotencyRecord) → IsGuarded n row → n ≤ 1
  at_most_one n row (inl idle) = omega (arith, idle)
  at_most_one n row (inr (one, (e, at, pending))) = omega (arith, one)

  -- However requests arrive and responses end or are lost, at most one handler runs for a key at a time.
  pub happen_all-running :
      (events : List Event) (key : String)
      → (happen_all sha256 now down events fresh_gate).running key ≤ 1
  happen_all-running events key =
      at_most_one _ _ (happen_all-IsSound events fresh_gate (λ k. inl refl) key)

  -- The key's row, and how many handlers were started for the key.
  abbrev pub IsStored : String → IdempotencyRecord → ℕ → Gate → Type 0
  IsStored key e n g = (g.records key ≡ some e) × (g.started key ≡ n)

  module _ (key : String) (e : IdempotencyRecord) (n : ℕ) where
    pub differs :
        (k : String) (g : Gate) (row : Option IdempotencyRecord)
        → g.records key ≡ some e
        → g.records k ≡ row
        → row ≢ some e
        → str_eq key k ≡ false
    differs k g row at at' other = elim (Bool-cases (str_eq key k)) [
      | inl is ↦
          let same : key ≡ k = ground (arith, is, eq_iff key k) in
          elim (other (sym at' ∙ (ap g.records (sym same) ∙ at))) [ ]
      | inr no_match ↦ no_match
    ]

    reserve-IsStored :
        (k : String) (r : Request) (row : Option IdempotencyRecord) (g : Gate)
        → g.records k ≡ row
        → IsStored key e n g
        → IsStored key e n (reserve sha256 now down k r row g).1
    unfolding reserve
    reserve-IsStored k r (some e') g at stored =
        reserve-keeps (IsStored key e n) k r e' g (λ g' stored'. stored') stored
    reserve-IsStored k r none g at (here, count) =
        let other : str_eq key k ≡ false = differs k g none here at (λ h. cc h) in
        unless_down-keeps (IsStored key e n) (down g.moment) _ g (λ g' stored'. stored')
          (here, count) (rw other here, rw other count)

    pub admit-IsStored :
        (r : Request) (g : Gate)
        → IsStored key e n g
        → IsStored key e n (admit sha256 now down r g).1
    unfolding admit
    admit-IsStored r g stored = go (key_of r.idempotency_key)
      where
        go : (k : Option String) → IsStored key e n (admit_key sha256 now down k r g).1
        go none = stored
        go (some k) = reserve-IsStored k r (g.records k) g refl stored

  module _ (key : String) (e : IdempotencyRecord) (response : Response) (n : ℕ)
      (complete : stored_response e ≡ some response) where
    absurd_pending : e.completed_at ≡ none → ⊥
    absurd_pending pending = cc (complete, unanswered e e.completed_at e.response_status pending)

    -- No handler runs for the key.
    is_idle : (m : ℕ) (row : Option IdempotencyRecord) → row ≡ some e → IsGuarded m row → m ≡ 0
    is_idle m row at (inl idle) = idle
    is_idle m row at (inr (one, (e', at', pending))) =
        let same : e' ≡ e = cc (at, at') in elim (absurd_pending (rw same at pending)) [ ]

    -- A key for which a handler runs is another one.
    busy_other :
        (k : String) (g : Gate)
        → IsSound g
        → IsStored key e n g
        → (g.running k == 0) ≡ false
        → str_eq key k ≡ false
    busy_other k g sound (here, count) busy = elim (Bool-cases (str_eq key k)) [
      | inl is ↦
          let same : key ≡ k = ground (arith, is, eq_iff key k) in
          let idle : g.running k ≡ 0 =
            is_idle (g.running k) (g.records k) (ap g.records (sym same) ∙ here) (sound k) in
          ground (arith, busy, idle)
      | inr no_match ↦ no_match
    ]

    happen-IsStored :
        (event : Event) (g : Gate)
        → IsSound g
        → IsStored key e n g
        → IsStored key e n (happen sha256 now down event g)
    unfolding happen finish lose
    happen-IsStored (arrives r) g sound stored = admit-IsStored key e n r g stored
    happen-IsStored (ends k response') g sound (here, count) =
        elim (Bool-cases (g.running k == 0)) [
          | inl idle ↦ rw idle (here, count)
          | inr busy ↦
              let other = busy_other k g sound (here, count) busy in rw busy (rw other here, count)
        ]
    happen-IsStored (is_lost k) g sound (here, count) = elim (Bool-cases (g.running k == 0)) [
      | inl idle ↦ rw idle (here, count)
      | inr busy ↦ rw busy (here, count)
    ]

    pub happen_all-IsStored :
        (events : List Event) (g : Gate)
        → IsSound g
        → IsStored key e n g
        → IsStored key e n (happen_all sha256 now down events g)
    unfolding happen_all
    happen_all-IsStored [] g sound stored = stored
    happen_all-IsStored (event ∷ events) g sound stored =
        happen_all-IsStored events (happen sha256 now down event g) (happen-IsSound event g sound)
          (happen-IsStored event g sound stored)
