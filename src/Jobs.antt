-- ===== src/Jobs.antt =====
-- privacy/jobs/privacy-jobs.ts and privacy/disclosures/disclosures.ts: what the service asks of a
-- proving worker and what the worker answers.
use pl_backend_sdk_demo.Prelude.{Bool, Option, Text}

pub data PrivacyWorkerJob : Type 0 where
  register_job : Text → PrivacyWorkerJob
  deposit_job : Text → Text → PrivacyWorkerJob
  transfer_job : Text → Text → Text → PrivacyWorkerJob
  withdraw_job : Text → Text → PrivacyWorkerJob

pub record PrivacyWorkerSuccess : Type 0 where
  pub kind : Text
  pub tx_id : Option Text
  pub private_address : Option Text
  pub from_address : Option Text
  pub to_address : Option Text
  pub amount_stroops : Option Text

pub record PrivacyWorkerFailure : Type 0 where
  pub error : Text
  pub kyt_unauthenticated : Bool

pub data PrivacyWorkerResult : Type 0 where
  success : PrivacyWorkerSuccess → PrivacyWorkerResult
  failure : PrivacyWorkerFailure → PrivacyWorkerResult

pub record PrivacyWorkerRequest : Type 0 where
  pub id : Text
  pub job : PrivacyWorkerJob

pub data PrivacyWorkerResponse : Type 0 where
  ready : PrivacyWorkerResponse
  result : Text → PrivacyWorkerResult → PrivacyWorkerResponse

pub data Visibility : Type 0 where
  public : Visibility
  private : Visibility

pub record Disclosure : Type 0 where
  pub sender_address : Visibility
  pub recipient_address : Visibility
  pub asset_address : Visibility
  pub amount : Visibility

unfoldable pub deposit_disclosure : Disclosure
deposit_disclosure = record {
  sender_address = public;
  recipient_address = private;
  asset_address = public;
  amount = public;
}

unfoldable pub private_transfer_disclosure : Disclosure
private_transfer_disclosure = record {
  sender_address = private;
  recipient_address = private;
  asset_address = private;
  amount = private;
}

unfoldable pub public_withdraw_disclosure : Disclosure
public_withdraw_disclosure = record {
  sender_address = private;
  recipient_address = public;
  asset_address = public;
  amount = public;
}
