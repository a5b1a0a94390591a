-- ===== src/Tests/Notes.antt =====
-- Notes, deliveries and balances.
use pl_backend_sdk_demo.Prelude.{
  ◌≡◌, refl, ◌↔◌, Bool, true, false, Option, none, some, List, [], ◌∷◌, ℤ, pos, ◌≤ℤ◌, Text, codes,
  text_eq, is_blank, lookup, numbers, trim, trim_start, trim_end, is_white, ok, arith,
}
use pl_backend_sdk_demo.Json.{big}
use pl_backend_sdk_demo.Notes.Spendable.{
  CoinNote, SpendableNote, candidates, map_results, read_note_spend_amount, value_or, sort, insert,
  sum_from, spendable_transfer_stroops,
}
use pl_backend_sdk_demo.Notes.Spendable.Greatest.{
  Pays, NoNegative, none_left, one_more, spendable_greatest,
}
use pl_backend_sdk_demo.Notes.Delivery.{DeliveryRecord, group_records_by_owner}
use pl_backend_sdk_demo.Notes.Delivery.Groups.{group, owned, lookup-group_records_by_owner}
use pl_backend_sdk_demo.State.Balance.{BalanceRecord, private_balance_stroops_from_records}
use pl_backend_sdk_demo.State.Balance.Sum.{Holds, balance_iff}

abbrev coin : Text → Option CoinNote
coin s = some (record { value = some s })

abbrev note_of : ℤ → Option Bool → Text → SpendableNote
note_of amount consumed value = record {
  amount = amount;
  consumed = consumed;
  status = none;
  private_address = some (codes "tpl1");
  coin_note = coin value;
}

-- Three notes that can be spent, and one that has been.
abbrev notes : List SpendableNote
notes =
    note_of (pos 5) none (codes "")
    ∷ note_of (pos 0) (some true) (codes "90")
    ∷ note_of (pos 1) (some false) (codes "30")
    ∷ note_of (pos 7) none (codes " ")
    ∷ []

spendable_of_notes : spendable_transfer_stroops notes (codes "tpl1") 2 ≡ ok (pos 37)
unfolding spendable_transfer_stroops candidates map_results read_note_spend_amount value_or sort
    insert sum_from text_eq is_blank trim trim_start trim_end is_white numbers
spendable_of_notes = refl

notes-NoNegative : NoNegative (codes "tpl1") notes
unfolding read_note_spend_amount value_or is_blank trim trim_start trim_end is_white numbers
notes-NoNegative =
    one_more _ (λ v _ e. ground (arith, e))
      (one_more _ (λ v _ e. ground (arith, e))
        (one_more _ (λ v _ e. ground (arith, e))
          (one_more _ (λ v _ e. ground (arith, e)) none_left)))

spendable_greatest_example :
    Pays (codes "tpl1") 2 notes (pos 37) × ((t : ℤ) → Pays (codes "tpl1") 2 notes t → t ≤ℤ pos 37)
spendable_greatest_example =
    spendable_greatest notes (codes "tpl1") 2 (pos 37) spendable_of_notes notes-NoNegative

abbrev delivery : Text → Option Text → DeliveryRecord (Unit {0})
delivery owner address = record {
  owner = owner;
  private_address = address;
  commitment_hex = none;
  coin_note = none;
  amount = none;
  rest = tt;
}

abbrev deliveries : List (DeliveryRecord (Unit {0}))
deliveries = delivery (codes "A") (some (codes " b ")) ∷ delivery (codes "A") none ∷ []

lookup-group_records_by_owner_example :
    lookup (codes "A") (group_records_by_owner deliveries) ≡ group (owned (codes "A") deliveries)
lookup-group_records_by_owner_example = lookup-group_records_by_owner (codes "A") deliveries

abbrev balance_records : List BalanceRecord
balance_records =
    record {
      owner = some (codes "A");
      consumed = none;
      status = none;
      amount = big (pos 4);
      coin_note = none;
    }
    ∷ record {
      owner = some (codes "A");
      consumed = some true;
      status = none;
      amount = big (pos 9);
      coin_note = none;
    }
    ∷ []

balance_iff_example :
    (private_balance_stroops_from_records balance_records (codes "A") ≡ ok (pos 4))
    ↔ Holds (codes "A") balance_records (pos 4)
balance_iff_example = balance_iff balance_records (codes "A") (pos 4)
