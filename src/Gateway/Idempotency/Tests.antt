-- ===== src/Gateway/Idempotency/Tests.antt =====
-- A mutation that is sent twice, and one whose response is lost.
use agroasys_web3layer.Prelude.{ℕ, suc, ◌≤◌, String, ◌≡◌, refl, Option, none, some, [], ◌∷◌, arith}
use agroasys_web3layer.Gateway.{Failure}
use agroasys_web3layer.Gateway.Idempotency.{
  Request, Response, replayed, fresh_gate, arrives, ends, is_lost, admit, finish, happen_all,
}
use agroasys_web3layer.Gateway.Idempotency.Once.{happen_all-running}
use agroasys_web3layer.Gateway.Idempotency.Once.Replay.{admit-replays}

abbrev plain_hash : String → String
plain_hash text = text

abbrev clock : ℕ → ℕ
clock n = n

-- The store always answers.
abbrev up : ℕ → Option Failure
up n = none

abbrev mutation : Request
mutation = record {
  idempotency_key = some "k1";
  method = "POST";
  path = "/compliance/decisions";
  raw_body = "{}";
  request_id = "r1";
}

abbrev other_mutation : Request
other_mutation = record mutation { idempotency_key = some "k2" }

abbrev created : Response
created = record { status = 201; content_type = some "application/json"; body = "{}" }

happen_all-running_example :
    (happen_all plain_hash clock up
        (arrives mutation
          ∷ arrives mutation
          ∷ ends "k1" created
          ∷ arrives other_mutation
          ∷ is_lost "k2"
          ∷ [])
        fresh_gate).running
      "k1"
    ≤ 1
happen_all-running_example =
    happen_all-running plain_hash clock up
      (arrives mutation
        ∷ arrives mutation
        ∷ ends "k1" created
        ∷ arrives other_mutation
        ∷ is_lost "k2"
        ∷ [])
      "k1"

-- The same key with another body.
abbrev changed : Request
changed = record mutation { raw_body = "{1}" }

admit-replays_example :
    let g = happen_all plain_hash clock up (arrives other_mutation ∷ []) fresh_gate in
    let g' = happen_all plain_hash clock up (ends "k2" created ∷ []) (
      finish plain_hash clock up "k1" created (
        happen_all plain_hash clock up
          (arrives mutation ∷ arrives changed ∷ is_lost "k3" ∷ [])
          (admit plain_hash clock up mutation g).1)) in
    ((admit plain_hash clock up (record mutation { request_id = "r2" }) g').0 ≡ replayed created)
    × (g'.started "k1" ≡ suc (g.started "k1"))
unfolding happen_all
admit-replays_example =
    admit-replays plain_hash clock up (arrives other_mutation ∷ [])
      (arrives mutation ∷ arrives changed ∷ is_lost "k3" ∷ []) (ends "k2" created ∷ []) mutation
      "k1" "r2" created refl (tt, (tt, (refl, tt))) (omega arith) refl refl refl refl refl
