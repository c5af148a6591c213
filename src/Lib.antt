-- ===== src/Lib.antt =====
-- Archway is a chain of the Cosmos SDK that adds, to contracts of x/wasm, rewards, callbacks,
-- error reports and fee grants. This library models the code of its own modules that keeps money
-- and state: x/callback, x/cwerrors, x/cwfees, x/cwica, x/tracking, x/rewards, and the helpers of
-- pkg/.
--
-- Common holds the shared types and lemmas. Common.Store is a store of the state machine, an
-- association list in the order of its iteration, with the laws of get, set and remove;
-- Common.Fallible is the outcome of a Go call, which is a value, an error or a panic; Common.Int
-- is int64 and uint64 with their wrap-around.
--
-- Sdk is what the code calls of the Cosmos SDK and is not in the repository: coins, decimals,
-- addresses and the bank, as operations with their documented behaviour. Every module takes it as
-- a parameter. Sim is a small SDK that meets all of it, at which the theorems are run.
--
-- Pkg models pkg/utils.go (Gas: a call under a gas limit, on a branch of the state) and
-- pkg/coins.go (Split).
--
-- Callback models x/callback. State has the messages of proto/archway/callback/v1, the stores of
-- the keeper, and the keepers that the module calls (x/wasm, x/rewards, x/cwerrors) as parameters.
-- Reserve is keeper/callback.go, Fees is keeper/fees.go and the transfers of keeper/keeper.go,
-- Msgs is keeper/msg_server.go, and Exec is abci.go. A contract call is a function from a state to
-- how the call ends, so that a contract may send messages to the module while it is called back.
-- Escrow states that the module account holds what the pending callbacks have paid; Trace joins
-- all steps.
--
-- Cwerrors models x/cwerrors. State has the stores of the keeper, Errors is keeper/sudo_errors.go,
-- Subscriptions is keeper/subscriptions.go and keeper/msg_server.go, and Block is abci.go. The
-- transient store is a part of the state, which the chain empties after each block. Queue, Stored
-- and Report relate the stored errors to their index by contract and to the queue of deletions,
-- Expiry the subscriptions to their end blocks.
--
-- Rewards models x/rewards: State has the stores of the keeper with the index of the records,
-- Records is the creation of records in keeper/keeper.go and keeper/withdraw.go, and Metadata is
-- keeper/metadata.go and keeper/flat_fee.go. Pool, Payment and Withdraw are about the pool that
-- the records are paid from, Ownership about the metadata.
--
-- Cwfees models x/cwfees: Granters is keeper.go and msg_server.go, and Genesis is about them.
--
-- Tracking models x/tracking: Records is keeper/state_tx_info.go, keeper/state_contract_op.go,
-- keeper/state.go and keeper/keeper.go.
--
-- In Rewards, Distribution is keeper/distribution.go, with the maps of Go that are iterated in the
-- order of their keys as stores; MinFee is keeper/min_cons_fee.go, keeper/tracking.go and the
-- validation of the parameters; Mint is mintbankkeeper/keeper.go; Ante is ante/, where a message
-- of x/authz holds a list of messages. Creation, Estimation, Allocation and EndOfBlock are about
-- the distribution, ConsensusFee about the fee, MintSplit about minted coins, and FlatFees,
-- Messages, Deduction, TxFees and TxCharges about the fees of a transaction.
--
-- Cwica models x/cwica: State has the parameters with the state of x/cwerrors and of the channels,
-- Handlers is keeper/ibc_handlers.go, Msgs is keeper/msg_server.go and the validation in types/,
-- and Reports is about the errors that go to x/cwerrors.
--
-- In Rewards, Msgs is types/msg.go and keeper/msg_server.go, Identifiers is about withdrawals by
-- identifiers, and Parameters about the parameters that are accepted. Wasmbinding models the
-- custom messages of wasmbinding/: Msgs has them with their handlers, which call the operations of
-- Rewards, and Dispatch is about what they do.
--
-- In Tracking, Ingest is keeper/gas_processor.go, with the constants and the gas register of
-- x/wasm as parameters, and the steps of the module; Homed, Cascade and Listing are about an index
-- with its objects, Finalize and Complete about the end of a block, Tracked and Trace about runs,
-- Recorded about what the gas records store, and Removal about the removal of a block. Genesis is
-- types/genesis.go, keeper/genesis.go and the imports of the two stores; Imported and Start are
-- about the start from a genesis state.
--
-- Events, logs, queries, genesis files (save those of x/cwfees and x/tracking), the command line
-- and the generated code are not modelled. The gas that the module's own store operations take is
-- not modelled either: the meter of a block has no limit. The determination of the payer of a
-- transaction's fees in x/rewards is not modelled. Decimals of the SDK are taken as rounded to a
-- nearest one and without their panic on an overflow of 315 bits; a quotient there is cut off
-- after 36 digits before it is rounded, which can add less than 10 ^ -18 of a unit to the half.
-- Every loop is structural recursion, save the printing of a decimal number (Common.Str), which
-- runs on a fuel of twenty digits: a uint64 has no more, and the lemma value_from-decimal there
-- states that its digits stand for it.
pub mod Callback
pub mod Common
pub mod Cwerrors
pub mod Cwfees
pub mod Cwica
pub mod Pkg
pub mod Rewards
pub mod Sdk
pub mod Sim
pub mod Tracking
pub mod Wasmbinding
