-- ===== src/Notes/Spent.antt =====
-- privacy/notes/spent-records.ts.
use pl_backend_sdk_demo.Prelude.{
  Bool, true, false, ◌||◌, Option, some, List, map, Text, codes, includes, Thrown, error, string,
  other,
}
use pl_backend_sdk_demo.Notes.Spendable.{is_text}

-- `X` is what a record holds besides.
pub record SpendableRecord (X : Type 0) : Type 0 where
  pub id : Text
  pub consumed : Bool
  pub status : Option Text
  pub rest : X

module _ {X : Type 0} where
  mark : SpendableRecord X → SpendableRecord X
  mark r = record r { consumed = true; status = some (codes "spent") }

  unfoldable pub mark_records_spent : List (SpendableRecord X) → List (SpendableRecord X)
  unfolding mark
  mark_records_spent records = map mark records

abbrev pub nullifiers_spent : Text
nullifiers_spent = codes "nullifiers_spent"

-- A thrown object has the reason, or an `Error` has it in its message.
unfoldable pub is_nullifiers_spent_error : Thrown → Bool
is_nullifiers_spent_error (error f) =
    is_text f.public_reason nullifiers_spent || includes f.message nullifiers_spent
is_nullifiers_spent_error (string s) = false
is_nullifiers_spent_error (other f) = is_text f.public_reason nullifiers_spent
