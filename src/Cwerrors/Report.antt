-- ===== src/Cwerrors/Report.antt =====
-- A callback that fails is reported in the state.
use archway.Common.Key.{nat_key}
use archway.Sdk.{Sdk}
use archway.Cwerrors.SudoError.{SudoError}
use archway.Cwerrors.State.{State, contract_error_key, deletion_key}
