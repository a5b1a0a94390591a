-- ===== src/Persistence.antt =====
-- The rows of persistence/*.entity.ts that the services read and write. `F` is a JavaScript number.
use pl_backend_sdk_demo.Prelude.{ℕ, Bool, Option, Text}

pub record HdAccount : Type 0 where
  pub hd_index : ℕ
  pub public_key : Text
  pub private_address : Option Text
  pub funded : Bool
  pub registered : Bool
  pub sent_count : Text
  pub sent_volume_stroops : Text

pub data SimulatorStatus : Type 0 where
  starting : SimulatorStatus
  running : SimulatorStatus
  stopped : SimulatorStatus
  error : SimulatorStatus

pub record SimulatorRow (F : Type 0) : Type 0 where
  pub id : Text
  pub status : SimulatorStatus
  pub transaction_count : Text
  pub total_volume_stroops : Text
  pub interval_minutes : F
  pub min_amount_xlm : Text
  pub max_amount_xlm : Text

-- What a caller gives `OperationLogService.append`; `at` and the row's number are the table's.
pub record LogEntry : Type 0 where
  pub kind : Text
  pub message : Text
  pub from_address : Option Text
  pub to_address : Option Text
  pub amount_stroops : Option Text
  pub tx_id : Option Text
  pub error : Option Text
