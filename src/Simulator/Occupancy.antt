-- ===== src/Simulator/Occupancy.antt =====
-- simulator/transfer-occupancy.ts.
pub mod Pairs
use pl_backend_sdk_demo.Prelude.{
  ℕ, min, max, ◌/◌, Bool, true, false, not, ◌&&◌, ◌||◌, Option, none, some, List, [], ◌∷◌, Text,
  text_eq, filter, length, get_elem?, and_then, if◌then◌else◌,
}
use pl_backend_sdk_demo.Simulator.Rules.{Draw}

unfoldable pub max_simulator_concurrency : ℕ → ℕ → ℕ
max_simulator_concurrency registered_count prove_workers =
    max 1 (min prove_workers (registered_count / 2))

-- `busy.has(key)`
unfoldable pub has : List Text → Text → Bool
has [] k = false
has (j ∷ busy) k = text_eq j k || has busy k

module _ {A : Type 0} (key : A → Text) where
  -- The filters of the senders and of the recipients.
  abbrev pub senders : List Text → List A → List A
  senders busy funded = filter (λ a. not (has busy (key a))) funded

  abbrev pub recipients : List Text → Text → List A → List A
  recipients busy sender_key registered =
      filter (λ a. not (text_eq (key a) sender_key) && not (has busy (key a))) registered

  -- A recipient for a sender that has been drawn. No draw is out of range.
  abbrev pub with_recipient : Draw → List A → List Text → A → Option (A × A)
  with_recipient draw registered busy sender =
      let free = recipients busy (key sender) registered in
      and_then (get_elem? free (draw (length free))) (λ recipient. some (sender, recipient))

  unfoldable pub pick_disjoint_transfer_pair :
      Draw → Draw → List A → List A → List Text → Option (A × A)
  pick_disjoint_transfer_pair draw_sender draw_recipient funded registered busy =
      let free = senders busy funded in
      and_then (get_elem? free (draw_sender (length free)))
        (with_recipient draw_recipient registered busy)
