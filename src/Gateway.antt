-- ===== src/Gateway.antt =====
-- gateway/src: the platform's API. This file has its error type, gateway/src/errors.ts.
pub mod Compliance
pub mod Idempotency
use agroasys_web3layer.Prelude.{ℕ, String}

pub data GatewayErrorCode : Type 0 where
  auth_required forbidden validation_error upstream_unavailable : GatewayErrorCode
  conflict not_found internal_error : GatewayErrorCode

-- The details are left out.
pub record GatewayError : Type 0 where
  pub status_code : ℕ
  pub code : GatewayErrorCode
  pub message : String

-- What is thrown: an error of the gateway, or another one with its text.
pub data Failure : Type 0 where
  gateway : GatewayError → Failure
  plain : String → Failure

abbrev pub conflict_error : String → Failure
conflict_error message = gateway (record { status_code = 409; code = conflict; message = message })

abbrev pub invalid : String → Failure
invalid message = gateway (record { status_code = 400; code = validation_error; message = message })
