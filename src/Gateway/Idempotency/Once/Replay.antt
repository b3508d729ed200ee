-- ===== src/Gateway/Idempotency/Once/Replay.antt =====
-- What a repeated request gets from gateway/src/middleware/idempotency.ts.
use agroasys_web3layer.Prelude.{
  ℕ, suc, ◌-◌, ◌<◌, String, false, ◌≡◌, refl, inl, inr, Option, none, some, List, [], ◌∷◌, All,
  arith, eq_refl, str_eq, leb, ◌==◌, Bool-cases,
}
use agroasys_web3layer.Gateway.{Failure}
use agroasys_web3layer.Gateway.Idempotency.{
  IdempotencyRecord, Request, Response, replayed, arrives, ends, is_lost, happen, lose,
  check_stored, Gate, fresh_gate, key_of, completed_record, Event, pending_record, fingerprint_of,
  admit, finish, happen_all,
}
use agroasys_web3layer.Gateway.Idempotency.Once.{
  IsSound, IsStored, set-IsSound, none_left, admit-IsSound, admit-IsStored, happen_all-IsSound,
  happen_all-IsStored,
}

module _ (sha256 : String → String) (now : ℕ → ℕ) (down : ℕ → Option Failure) where
  finish-IsSound :
      (key : String) (response : Response) (g : Gate)
      → IsSound g
      → IsSound (finish sha256 now down key response g)
  unfolding finish
  finish-IsSound key response g sound =
      set-IsSound key (g.running key - 1) _ g sound
        (inl (none_left sha256 now down _ _ (sound key)))

  admitted-IsStored :
      (r : Request) (key : String) (g : Gate)
      → key_of r.idempotency_key ≡ some key
      → g.records key ≡ none
      → down g.moment ≡ none
      → IsStored sha256 now down key
          (pending_record sha256 now down key r (now g.moment))
          (suc (g.started key))
          (admit sha256 now down r g).1
  unfolding admit
  admitted-IsStored r key g keyed vacant up = rw (keyed, vacant) (rw (up, eq_refl key) (refl, refl))

  -- The event does not end the response of the key's handler.
  abbrev pub IsElsewhere : String → Event → Type 0
  IsElsewhere key (arrives r) = Unit
  IsElsewhere key (ends k response) = str_eq key k ≡ false
  IsElsewhere key (is_lost k) = str_eq key k ≡ false

  module _ (key : String) (e : IdempotencyRecord) (n : ℕ) where
    happen-IsStored :
        (event : Event) (g : Gate)
        → IsElsewhere key event
        → IsStored sha256 now down key e n g
        → IsStored sha256 now down key e n (happen sha256 now down event g)
    unfolding happen finish lose
    happen-IsStored (arrives r) g other stored = admit-IsStored sha256 now down key e n r g stored
    happen-IsStored (ends k response) g other (here, count) = elim (Bool-cases (g.running k == 0)) [
      | inl idle ↦ rw idle (here, count)
      | inr busy ↦ rw busy (rw other here, count)
    ]
    happen-IsStored (is_lost k) g other (here, count) = elim (Bool-cases (g.running k == 0)) [
      | inl idle ↦ rw idle (here, count)
      | inr busy ↦ rw busy (here, count)
    ]

    happen_all-IsWaiting :
        (events : List Event) (g : Gate)
        → All (IsElsewhere key) events
        → IsStored sha256 now down key e n g
        → IsStored sha256 now down key e n (happen_all sha256 now down events g)
    unfolding happen_all
    happen_all-IsWaiting [] g others stored = stored
    happen_all-IsWaiting (event ∷ events) g (other, others) stored =
        happen_all-IsWaiting events _ others (happen-IsStored event g other stored)

    finish-IsStored :
        (response : Response) (g : Gate)
        → response.status < 500
        → IsStored sha256 now down key e n g
        → IsStored sha256 now down key
            (completed_record response (now g.moment) e)
            n
            (finish sha256 now down key response g)
    unfolding finish
    finish-IsStored response g fine (here, count) =
        let small : leb 500 response.status ≡ false = ground (arith, fine) in
        rw (here, small, eq_refl key) (refl, count)

  replays :
      (r : Request) (key id : String) (response : Response) (at at' : ℕ) (g : Gate)
      → key_of r.idempotency_key ≡ some key
      → g.records key
        ≡ some (completed_record response at' (pending_record sha256 now down key r at))
      → down g.moment ≡ none
      → down (suc g.moment) ≡ none
      → down (suc (suc g.moment)) ≡ none
      → (admit sha256 now down (record r { request_id = id }) g).0 ≡ replayed response
  unfolding admit check_stored
  replays r key id response at at' g keyed stored up up' up'' =
      rw (keyed, stored)
        (rw (up, up')
          (rw (eq_refl (fingerprint_of sha256 now down r), eq_refl r.method, eq_refl r.path, up'')
            refl))

  -- A request under a key that has no row, whose handler answered with a status below 500, is, when it
  -- comes again and the store answers, given that response, and its handler was started once for the
  -- two, whatever requests arrive, the same or others under its key among them, and whatever responses
  -- end or are lost, before it, while its handler runs, where that does not end its own response, and
  -- afterwards, and whatever failures of the store these meet.
  pub admit-replays :
      (before during events : List Event) (r : Request) (key id : String) (response : Response)
      → key_of r.idempotency_key ≡ some key
      → All (IsElsewhere key) during
      → response.status < 500
      → let g = happen_all sha256 now down before fresh_gate in
        let g' = happen_all sha256 now down events (
          finish sha256 now down key response
            (happen_all sha256 now down during (admit sha256 now down r g).1)) in
        g.records key ≡ none
        → down g.moment ≡ none
        → down g'.moment ≡ none
        → down (suc g'.moment) ≡ none
        → down (suc (suc g'.moment)) ≡ none
        → ((admit sha256 now down (record r { request_id = id }) g').0 ≡ replayed response)
          × (g'.started key ≡ suc (g.started key))
  admit-replays before during events r key id response keyed others fine vacant up first second
        third =
      let g = happen_all sha256 now down before fresh_gate in
      let e = pending_record sha256 now down key r (now g.moment) in
      let sound = happen_all-IsSound sha256 now down before fresh_gate (λ k. inl refl) in
      let waits = happen_all sha256 now down during (admit sha256 now down r g).1 in
      let waiting =
        happen_all-IsWaiting key e (suc (g.started key)) during _ others
          (admitted-IsStored r key g keyed vacant up) in
      let (stored, count) =
        happen_all-IsStored sha256 now down key _ response (suc (g.started key)) refl events
          (finish sha256 now down key response waits)
          (finish-IsSound key response waits
            (happen_all-IsSound sha256 now down during _ (admit-IsSound sha256 now down r g sound)))
          (finish-IsStored key e (suc (g.started key)) response waits fine waiting) in
      (
        replays r key id response (now g.moment) (now waits.moment) _ keyed stored first second
            third,
        count,
      )
