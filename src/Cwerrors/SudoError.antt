-- ===== src/Cwerrors/SudoError.antt =====
-- The message SudoError (proto/archway/cwerrors/v1/cwerrors.proto).
use archway.Common.{ℕ}
use archway.Common.Key.{Text}

pub record SudoError : Type 0 where
  pub module_name : Text
  pub error_code : ℕ
  pub contract_address : Text
  pub input_payload : Text
  pub error_message : Text
