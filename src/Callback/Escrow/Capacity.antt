-- ===== src/Callback/Escrow/Capacity.antt =====
-- What a request that is accepted says of its height, its fees and the block it falls in.
use archway.Common.Store.{Store}
use archway.Common.Int.{int_key}
use archway.Sdk.{Sdk}
use archway.Callback.State.{Callback, State, callback_key}
