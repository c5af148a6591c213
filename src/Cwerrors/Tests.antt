-- ===== src/Cwerrors/Tests.antt =====
-- A subscription and two errors at the small SDK.
use archway.Common.{
  value_or, ℕ, ◌+◌, ◌≡◌, ◌≢◌, refl, true, none, some, [], ok, if◌then◌else◌, arith,
}
use archway.Common.Key.{Text, Bytes, bytes_key, bytes_eq, bytes_lt, nat_key}
use archway.Common.Store.{get, set, has, add_new, remove}
use archway.Common.Str.{codes}
use archway.Common.Int.{pos, ◌+ℤ◌, int64, wrap64}
use archway.Sdk.{Coin}
use archway.Pkg.Gas.{failed}
use archway.Pkg.Fold.{equal_fold, to_lower}
use archway.Sim.Ledger.{move, withdraw, deposit, within}
use archway.Sim.Instance.{sim, parse}
use archway.Cwerrors.SudoError.{SudoError}
use archway.Cwerrors.State.{Params, State, Keepers, contract_error_key, deletion_key, end_block_key}
use archway.Cwerrors.Errors.{
  validate, next_error_id, store_error_in_state, store_error_callback, has_subscription, set_error,
  prune_errors_current_block,
}
use archway.Cwerrors.Subscriptions.{
  max, get_subscription, is_authorized_to_subscribe, is_metadata_owner, drop_end_block,
  set_subscription, prune_subscriptions_end_block,
}
use archway.Cwerrors.Queue.{IsQueued, prune_errors_current_block-IsQueued}
use archway.Cwerrors.Stored.{IsKept, set_error-IsQueued}
use archway.Cwerrors.Expiry.{
  IsTimed, set_subscription-IsTimed, prune_subscriptions_end_block-IsTimed,
}

abbrev pub contract : Text
contract = codes "contract"

abbrev pub stake : ℕ → Coin
stake n = record { denom = codes "stake"; amount = n }

-- Contracts that fail on every call.
abbrev pub failing : Keepers sim
failing = record {
  World = ℕ;
  has_contract_info = λ w a. true;
  contract_admin = λ w a. some (codes "admin");
  metadata_owner = λ w a. none;
  Failure = Text;
  err_out_of_gas = codes "out of gas";
  failure_text = λ e. e;
  sudo = λ limit a msg s. failed 3 (codes "failed");
  consume_gas = λ w g. some (w + g);
  json = λ e. e.error_message;
}

abbrev pub params : Params
params = record {
  error_stored_time = pos 5;
  subscription_fee = stake 2;
  subscription_period = pos 7;
}

abbrev pub start : State sim ℕ
start = record {
  params = some params;
  error_id = 0;
  contract_errors = [];
  errors = [];
  deletion_blocks = [];
  contract_subscriptions = [];
  subscription_end_block = [];
  error_callbacks = [];
  bank = λ x d. 100;
  world = 0;
}

pub start-IsQueued : IsQueued sim failing start
unfolding get
start-IsQueued = record {
  keyed = tt;
  stored = λ h id e. ground arith;
  once = λ h k id e f. ground arith;
  listed = λ c id e. ground arith;
  indexed = λ id e c f at. ground (arith, f);
  queued = λ id e f. ground (arith, f);
  fresh = λ id e f. ground arith;
}

abbrev error : SudoError
error = record {
  module_name = codes "callback";
  error_code = 1;
  contract_address = contract;
  input_payload = [];
  error_message = codes "out of gas";
}

abbrev stored : State sim ℕ
stored = value_or start (set_error sim failing (pos 10) start error)

is_stored : set_error sim failing (pos 10) start error ≡ ok stored
unfolding set_error validate parse bytes_eq bytes_lt has_subscription store_error_in_state
    store_error_callback next_error_id get set add_new remove ◌+ℤ◌ wrap64 int64
is_stored = refl

set_error-IsQueued_example :
    IsQueued sim failing stored
    × ((c : Bytes) × (sim.from_bech32 contract ≡ some c)
        × IsKept sim failing (pos 10) params start error c stored)
set_error-IsQueued_example =
    set_error-IsQueued sim failing (pos 10) start error params start-IsQueued refl (omega arith)
      is_stored

prune_errors_current_block-IsQueued_example :
    (s' : State sim ℕ) × (prune_errors_current_block sim failing (pos 15) stored ≡ ok s')
    × IsQueued sim failing s'
    × ((id : ℕ)
        → get s'.errors id
          ≡ (if has stored.deletion_blocks (pos 15, id) then none else get stored.errors id))
prune_errors_current_block-IsQueued_example =
    prune_errors_current_block-IsQueued sim failing (pos 15) stored
      (set_error-IsQueued sim failing (pos 10) start error params start-IsQueued refl (omega arith)
        is_stored).0

start-IsTimed : IsTimed sim failing start
unfolding get
start-IsTimed c h = (λ e. ground arith, λ e. ground arith)

abbrev subscribed : State sim ℕ
subscribed =
    (value_or (pos 0, start)
      (set_subscription sim failing (pos 10) start contract contract (stake 2))).1

is_subscribed :
    set_subscription sim failing (pos 10) start contract contract (stake 2)
    ≡ ok (pos 17, subscribed)
unfolding set_subscription is_authorized_to_subscribe equal_fold to_lower is_metadata_owner
    get_subscription drop_end_block bytes_eq bytes_lt get set add_new remove ◌+ℤ◌ wrap64 int64 move
    withdraw deposit within
is_subscribed = refl

set_subscription-IsTimed_example :
    IsTimed sim failing subscribed
    × (pos 17 ≡ max (pos 10) (get_subscription sim failing start contract).1 +ℤ pos 7)
    × (get subscribed.contract_subscriptions contract ≡ some (pos 17))
    × ((c : Bytes)
        → c ≢ contract
        → get subscribed.contract_subscriptions c ≡ get start.contract_subscriptions c)
set_subscription-IsTimed_example =
    set_subscription-IsTimed sim failing (pos 10) start contract contract (stake 2) params
      start-IsTimed refl is_subscribed

prune_subscriptions_end_block-IsTimed_example :
    IsTimed sim failing (prune_subscriptions_end_block sim failing (pos 17) subscribed)
    × ((c : Bytes)
        → (get subscribed.contract_subscriptions c ≡ some (pos 17)
            → get
                (prune_subscriptions_end_block sim failing
                  (pos 17)
                  subscribed).contract_subscriptions
                c
              ≡ none)
          × (get subscribed.contract_subscriptions c ≢ some (pos 17)
              → get
                  (prune_subscriptions_end_block sim failing
                    (pos 17)
                    subscribed).contract_subscriptions
                  c
                ≡ get subscribed.contract_subscriptions c))
prune_subscriptions_end_block-IsTimed_example =
    prune_subscriptions_end_block-IsTimed sim failing (pos 17) subscribed
      (set_subscription-IsTimed sim failing (pos 10) start contract contract (stake 2) params
        start-IsTimed refl is_subscribed).0
