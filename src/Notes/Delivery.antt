-- ===== src/Notes/Delivery.antt =====
-- privacy/notes/delivery-remap.ts.
pub mod Remap
pub mod Groups
use pl_backend_sdk_demo.Prelude.{
  Bool, true, false, ◌&&◌, ◌||◌, not, Option, none, some, List, [], ◌∷◌, ◌++◌, map, ℤ, pos, Text,
  text_eq, trim, Dict, lookup, insert, find, Result, ok, if◌then◌else◌,
}
use pl_backend_sdk_demo.Notes.Spendable.{CoinNote, coin_value, value_or, is_some}

-- `X` is what a record of the SDK holds besides.
pub record DeliveryRecord (X : Type 0) : Type 0 where
  pub owner : Text
  pub private_address : Option Text
  pub commitment_hex : Option Text
  pub coin_note : Option CoinNote
  pub amount : Option ℤ
  pub rest : X

pub record DeliveryAccount : Type 0 where
  pub public_key : Text
  pub private_address : Text

-- A text that counts as absent when it is empty.
abbrev pub nonempty : Text → Option Text
nonempty [] = none
nonempty (c ∷ s) = some (c ∷ s)

-- `text?.trim()`, absent when it is empty.
abbrev pub trimmed : Option Text → Option Text
trimmed none = none
trimmed (some s) = nonempty (trim s)

abbrev pub truthy : Option Text → Bool
truthy none = false
truthy (some s) = is_some (nonempty s)

-- The owner that a record at an address is given.
unfoldable pub owner_of : List DeliveryAccount → Text → Text → Text → Text
owner_of accounts sender address owner =
    elim (find (λ a. text_eq a.private_address address) accounts) [
      | none ↦ owner
      | some recipient ↦ if text_eq recipient.public_key sender then owner else recipient.public_key
    ]

-- `record.amount ?? 0n`
abbrev pub amount_or_zero : Option ℤ → ℤ
amount_or_zero none = pos 0
amount_or_zero (some z) = z

module _ {X : Type 0} where
  unfoldable pub remap : List DeliveryAccount → Text → DeliveryRecord X → DeliveryRecord X
  remap accounts sender r = elim (trimmed r.private_address) [
    | none ↦ r
    | some address ↦ record r { owner = owner_of accounts sender address r.owner }
  ]

  unfoldable pub remap_recipient_owners :
      List (DeliveryRecord X) → List DeliveryAccount → Text → List (DeliveryRecord X)
  remap_recipient_owners records accounts sender = map (remap accounts sender) records

  unfoldable pub is_deliverable_output_record : DeliveryRecord X → Bool
  is_deliverable_output_record r =
      is_some (trimmed r.private_address) && truthy r.commitment_hex && is_some r.coin_note

  unfoldable pub amount_from_coin_note : DeliveryRecord X → Result ℤ
  amount_from_coin_note r = value_or (coin_value r.coin_note) (amount_or_zero r.amount)

  -- One round of the loop: the record is pushed to the group of its owner.
  unfoldable pub push :
      Dict (List (DeliveryRecord X)) → DeliveryRecord X → Dict (List (DeliveryRecord X))
  push grouped r = elim (lookup r.owner grouped) [
    | some existing ↦ insert r.owner (existing ++ r ∷ []) grouped
    | none ↦ insert r.owner (r ∷ []) grouped
  ]

  unfoldable pub group_from :
      Dict (List (DeliveryRecord X)) → List (DeliveryRecord X) → Dict (List (DeliveryRecord X))
  group_from grouped [] = grouped
  group_from grouped (r ∷ records) = group_from (push grouped r) records

  unfoldable pub group_records_by_owner : List (DeliveryRecord X) → Dict (List (DeliveryRecord X))
  group_records_by_owner records = group_from [] records
