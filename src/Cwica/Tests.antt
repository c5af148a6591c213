-- ===== src/Cwica/Tests.antt =====
-- Packets and transactions of one contract at the small SDK.
use archway.Common.{ℕ, ◌≡◌, refl, false, some, [], ◌∷◌, ok}
use archway.Common.Key.{Text}
use archway.Common.Str.{codes}
use archway.Sim.Instance.{sim, parse}
use archway.Cwerrors.Tests.{contract, failing, params, start}
use archway.Cwica.State.{State, Keepers}
use archway.Cwica.Msgs.{MsgSendTx, contract_of, submit_tx, timeout_timestamp}

-- Packets and messages are texts, and a packet is its port.
abbrev channel_keepers : Keepers sim failing
channel_keepers = record {
  Channels = ℕ;
  Packet = Text;
  AnyMsg = Text;
  source_port = λ p. p;
  packet_json = λ p. p;
  controller_port_prefix = codes "icacontroller-";
  metadata_address = λ v. some v;
  parse_acknowledgement = λ t. some (record { error = t; result = [] });
  sudo = λ a m s. some (s, false);
  get_connection = λ w c. some (codes "connection-1");
  ica_metadata = λ c d. c;
  register_interchain_account = λ w c o v. some w;
  new_controller_port_id = λ o. some o;
  get_active_channel_id = λ w c p. some (codes "channel-0");
  get_next_sequence_send = λ w p c. some w;
  send_tx = λ w c p d m t. some 4;
  serialize_cosmos_txs = λ ms. some [];
}

abbrev opened : State sim ℕ ℕ
opened = record { params = some 5; cwerrors = start; channels = 3 }

abbrev packet : Text
packet = codes "icacontroller-contract"

abbrev refused : Text
refused = codes "refused"

abbrev sending : MsgSendTx Text
sending = record {
  contract_address = contract;
  connection_id = codes "connection-0";
  msgs = some (codes "send" ∷ []);
  memo = [];
  timeout = 60;
}

is_sent :
    submit_tx sim failing channel_keepers 1000 opened sending
    ≡ ok (record { sequence_id = 3; channel = codes "channel-0" }, record opened { channels = 4 })
unfolding submit_tx contract_of timeout_timestamp parse
is_sent = refl
