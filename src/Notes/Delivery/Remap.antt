-- ===== src/Notes/Delivery/Remap.antt =====
-- privacy/notes/delivery-remap.ts: who owns a record after `remapRecipientOwners`.
use pl_backend_sdk_demo.Prelude.{
  ◌≡◌, refl, sym, ◌≢◌, ◌⊎◌, inl, inr, Bool, Option, none, some, List, [], ◌∷◌, Text, text_eq,
  text_eq_iff, text_eq-false_iff, ap, ◌∙◌, All₂, All₂-map, Among, first, later, find, find-Among,
  find-none, Bool-cases, Option-cases, if◌then◌else◌, arith,
}
use pl_backend_sdk_demo.Notes.Delivery.{
  DeliveryRecord, DeliveryAccount, trimmed, owner_of, remap, remap_recipient_owners,
}

some_inj : {s t : Text} → ◌≡◌ {A = Option Text} (some s) (some t) → s ≡ t
some_inj e = cc

-- No two accounts share an address.
abbrev HasOwnAddress : DeliveryAccount → List DeliveryAccount → Type 0
HasOwnAddress a [] = Unit {0}
HasOwnAddress a (b ∷ r) = (a.private_address ≢ b.private_address) × HasOwnAddress a r

abbrev pub HasDistinctAddresses : List DeliveryAccount → Type 0
HasDistinctAddresses [] = Unit {0}
HasDistinctAddresses (a ∷ r) = HasOwnAddress a r × HasDistinctAddresses r

-- How a record `r'` is delivered from `r`.
pub record Delivered {X : Type 0} (accounts : List DeliveryAccount) (sender : Text)
    (r r' : DeliveryRecord X) : Type 0 where
  pub rest_kept : r' ≡ record r { owner = r'.owner }
  pub to_recipient :
      (a : DeliveryAccount)
      → Among a accounts
      → a.public_key ≢ sender
      → trimmed r.private_address ≡ some a.private_address
      → r'.owner ≡ a.public_key
  pub from_recipient :
      (r'.owner ≡ r.owner)
      ⊎ ((a : DeliveryAccount) × Among a accounts
          × (a.public_key ≢ sender)
          × (trimmed r.private_address ≡ some a.private_address)
          × (r'.owner ≡ a.public_key))

other_address :
    (a : DeliveryAccount) (xs : List DeliveryAccount) (b : DeliveryAccount)
    → HasOwnAddress a xs
    → Among b xs
    → a.private_address ≢ b.private_address
other_address a [] b h m = elim m [ ]
other_address a (x ∷ xs) b h first = h.0
other_address a (x ∷ xs) b h (later m) = other_address a xs b h.1 m

-- With distinct addresses the account at an address is unique.
unique_address :
    (accounts : List DeliveryAccount) (a b : DeliveryAccount)
    → HasDistinctAddresses accounts
    → Among a accounts
    → Among b accounts
    → a.private_address ≡ b.private_address
    → a ≡ b
unique_address [] a b h m n e = elim m [ ]
unique_address (x ∷ xs) a b h first first e = refl
unique_address (x ∷ xs) a b h first (later n) e = absurd (other_address a xs b h.0 n e)
unique_address (x ∷ xs) a b h (later m) first e = absurd (other_address b xs a h.0 m (sym e))
unique_address (x ∷ xs) a b h (later m) (later n) e = unique_address xs a b h.1 m n e

module _ (accounts : List DeliveryAccount) (sender : Text)
    (distinct : HasDistinctAddresses accounts) (address owner : Text) where
  abbrev is_at : DeliveryAccount → Bool
  is_at a = text_eq a.private_address address

  abbrev IsOwner : Text → Type 0
  IsOwner o =
      ((a : DeliveryAccount)
        → Among a accounts
        → a.public_key ≢ sender
        → address ≡ a.private_address
        → o ≡ a.public_key)
      × ((o ≡ owner)
          ⊎ ((a : DeliveryAccount) × Among a accounts
              × (a.public_key ≢ sender)
              × (address ≡ a.private_address)
              × (o ≡ a.public_key)))

  nobody_there : find is_at accounts ≡ none → IsOwner owner
  nobody_there e = (
    λ a m h k.
        let missed = find-none is_at accounts a e m in
        absurd ((text_eq-false_iff a.private_address address).0 missed (sym k)),
    inl refl,
  )

  module _ (b : DeliveryAccount) (found : find is_at accounts ≡ some b) where
    at_address : b.private_address ≡ address
    at_address = (text_eq_iff _ _).0 (find-Among is_at accounts b found).1

    only_one : (a : DeliveryAccount) → Among a accounts → address ≡ a.private_address → a ≡ b
    only_one a m k =
        unique_address accounts a b distinct m (find-Among is_at accounts b found).0
          (sym k ∙ sym at_address)

    sender_there : b.public_key ≡ sender → IsOwner owner
    sender_there e = (
      λ a m h k. absurd (h (ap (λ (x : DeliveryAccount). x.public_key) (only_one a m k) ∙ e)),
      inl refl,
    )

    recipient_there : b.public_key ≢ sender → IsOwner b.public_key
    recipient_there h = (
      λ a m _ k. sym (ap (λ (x : DeliveryAccount). x.public_key) (only_one a m k)),
      inr (b, (find-Among is_at accounts b found).0, h, sym at_address, refl),
    )

  owner_of-none : find is_at accounts ≡ none → owner_of accounts sender address owner ≡ owner
  unfolding owner_of
  owner_of-none e = ground arith

  owner_of-some :
      (b : DeliveryAccount)
      → find is_at accounts ≡ some b
      → owner_of accounts sender address owner
        ≡ (if text_eq b.public_key sender then owner else b.public_key)
  unfolding owner_of
  owner_of-some b e = ground arith

  owner_of-IsOwner : IsOwner (owner_of accounts sender address owner)
  owner_of-IsOwner = elim (Option-cases (find is_at accounts)) [
    | inl none_there ↦ rw (owner_of-none none_there) (nobody_there none_there)
    | inr (b, found) ↦ rw (owner_of-some b found) (elim (Bool-cases (text_eq b.public_key sender)) [
      | inl same ↦ rw same (sender_there b found ((text_eq_iff _ _).0 same))
      | inr differs ↦ rw differs (recipient_there b found ((text_eq-false_iff _ _).0 differs))
    ])
  ]

module _ {X : Type 0} (accounts : List DeliveryAccount) (sender : Text)
    (distinct : HasDistinctAddresses accounts) where
  abbrev moved : DeliveryRecord X → Option Text → DeliveryRecord X
  moved r none = r
  moved r (some address) = record r { owner = owner_of accounts sender address r.owner }

  remap-moved :
      (r : DeliveryRecord X) → remap accounts sender r ≡ moved r (trimmed r.private_address)
  unfolding remap
  remap-moved r = ground arith

  moved-Delivered :
      (r : DeliveryRecord X) (place : Option Text)
      → trimmed r.private_address ≡ place
      → Delivered accounts sender r (moved r place)
  moved-Delivered r none e = record {
    rest_kept = refl;
    to_recipient = λ a m h k. absurd (cc);
    from_recipient = inl refl;
  }
  moved-Delivered r (some address) e =
      let (to, from) = owner_of-IsOwner accounts sender distinct address r.owner in
      record {
        rest_kept = refl;
        to_recipient = λ a m h k. to a m h (some_inj (sym e ∙ k));
        from_recipient = elim from [
          | inl same ↦ inl same
          | inr (a, m, h, k, o) ↦ inr (a, m, h, e ∙ ap some k, o)
        ];
      }

  remap-Delivered : (r : DeliveryRecord X) → Delivered accounts sender r (remap accounts sender r)
  remap-Delivered r = rw (remap-moved r) (moved-Delivered r (trimmed r.private_address) refl)

-- Where the accounts have distinct addresses, remapping keeps the records in order and all of each
-- but its owner; a record at the (trimmed) address of an account other than the sender's gets that
-- account for its owner, and an owner changes in no other case.
pub remap-All₂ :
    {X : Type 0} (records : List (DeliveryRecord X)) (accounts : List DeliveryAccount)
    (sender : Text)
    → HasDistinctAddresses accounts
    → All₂ (Delivered accounts sender) records (remap_recipient_owners records accounts sender)
unfolding remap_recipient_owners
remap-All₂ records accounts sender distinct =
    All₂-map _ (remap accounts sender) records (remap-Delivered accounts sender distinct)
