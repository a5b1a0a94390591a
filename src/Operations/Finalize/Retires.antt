-- ===== src/Operations/Finalize/Retires.antt =====
-- privacy/operations/privacy-job-runner.ts: the records that a submission consumes.
use pl_backend_sdk_demo.Prelude.{
  true, false, ◌≡◌, refl, sym, subst, ◌⊎◌, inl, inr, List, ◌∷◌, Text, codes, Bool-cases, Thrown,
  Result, ok, thrown, Exec, pure, continue, on_throw, ◌>>=◌,
}
use pl_backend_sdk_demo.Notes.Spent.{SpendableRecord, mark_records_spent, is_nullifiers_spent_error}
use pl_backend_sdk_demo.Sdk.{Sdk, Prepared, DisplayMetadata}
use pl_backend_sdk_demo.Relay.{RelayEnv, submit_prepared}
use pl_backend_sdk_demo.Operations.Finalize.{
  Worker, Registry, on_world, get_client, retire_records, retire_marked, retire_consumed_records,
  deliver_outputs, retire_if_spent, submit_relay_and_finalize,
}

-- What the client of an account promises: it marks records as spent, and it prunes what is marked.
pub record Retiring (sdk : Sdk) (wallet : Text) (records : List (SpendableRecord sdk.Consumed))
    (Marked IsRetired : sdk.World → Type 0) : Type 0 where
  pub marks :
      (w : sdk.World)
      → (v : sdk.World) × (sdk.mark_records_status wallet
            (mark_records_spent records)
            (codes "spent")
            w
          ≡ (ok tt, v))
        × Marked v
  pub prunes :
      (w : sdk.World)
      → Marked w
      → (v : sdk.World) × (sdk.prune_consumed wallet w ≡ (ok tt, v)) × IsRetired v

-- How a submission ends: the records are retired, unless it threw for another reason than spent
-- nullifiers.
abbrev pub RetiresUnless : {W : Type 0} → (W → Type 0) → Result Text × Worker W → Type 0
RetiresUnless IsRetired (r, t) =
    ((tx_id : Text) × (r ≡ ok tx_id) × IsRetired t.world)
    ⊎ ((e : Thrown) × (r ≡ thrown e)
        × ((is_nullifiers_spent_error e ≡ false)
            ⊎ ((is_nullifiers_spent_error e ≡ true) × IsRetired t.world)))

module _ (sdk : Sdk) (env : RelayEnv) (registry : Registry sdk.World) (wallet : Text)
    (p : Prepared sdk.Consumed sdk.Details) (c : SpendableRecord sdk.Consumed)
    (cs : List (SpendableRecord sdk.Consumed)) (Marked IsRetired : sdk.World → Type 0)
    (some_consumed : p.consumed_records ≡ c ∷ cs) (known : registry.has_client wallet ≡ true)
    (retiring : Retiring sdk wallet p.consumed_records Marked IsRetired) where
  abbrev Retired : Result (Unit {0}) × Worker sdk.World → Type 0
  Retired r = (t : Worker sdk.World) × (r ≡ (ok tt, t)) × IsRetired t.world

  client_there : (s : Worker sdk.World) → get_client sdk env registry wallet s ≡ (ok tt, s)
  unfolding get_client
  client_there s = rw known refl

  records-Retired :
      (s : Worker sdk.World)
      → Retired (retire_records sdk env registry wallet (mark_records_spent p.consumed_records) s)
  records-Retired s =
      let (v, marked, m) = retiring.marks s.world in
      let (u, pruned, h) = retiring.prunes v m in
      (record s { world = u }, rw (client_there s) (rw marked (rw pruned refl)), h)

  marked_some :
      (records : List (SpendableRecord sdk.Consumed))
      → records ≡ c ∷ cs
      → retire_marked sdk env registry wallet (mark_records_spent records)
        ≡ retire_records sdk env registry wallet (mark_records_spent records)
  unfolding mark_records_spent
  marked_some records e = rw e refl

  consumed-Retired :
      (s : Worker sdk.World) → Retired (retire_consumed_records sdk env registry p wallet s)
  unfolding retire_consumed_records
  consumed-Retired s =
      subst (λ m. Retired (m s)) (sym (marked_some p.consumed_records some_consumed))
        (records-Retired s)

  abbrev handler : Thrown → Exec (Worker sdk.World) Text
  handler = retire_if_spent sdk env registry wallet p

  handler_ends : (e : Thrown) (s : Worker sdk.World) → RetiresUnless IsRetired (handler e s)
  handler_ends e s = elim (Bool-cases (is_nullifiers_spent_error e)) [
    | inl spent ↦
        let (t, done, h) = consumed-Retired s in rw spent (rw done (inr (e, refl, inr (spent, h))))
    | inr other ↦ rw other (inr (e, refl, inl other))
  ]

  retired_ends :
      (tx_id : Text) (s : Worker sdk.World)
      → RetiresUnless IsRetired (
          on_throw handler
            (continue (λ _. pure tx_id) (retire_consumed_records sdk env registry p wallet s)))
  retired_ends tx_id s = let (t, done, h) = consumed-Retired s in rw done (inl (tx_id, refl, h))

  delivered_ends :
      (tx_id : Text) (r : Result (Unit {0}) × Worker sdk.World)
      → RetiresUnless IsRetired (
          on_throw handler (
            continue
              (λ _. retire_consumed_records sdk env registry p wallet >>= λ _. pure tx_id)
              r))
  delivered_ends tx_id (ok _, s) = retired_ends tx_id s
  delivered_ends tx_id (thrown e, s) = handler_ends e s

  submitted_ends :
      (r : Result Text × Worker sdk.World)
      → RetiresUnless IsRetired (
          on_throw handler (
            continue
              (λ tx_id. deliver_outputs sdk env registry p wallet tx_id >>= λ _.
                retire_consumed_records sdk env registry p wallet >>= λ _. pure tx_id)
              r))
  submitted_ends (ok tx_id, s) =
      delivered_ends tx_id (deliver_outputs sdk env registry p wallet tx_id s)
  submitted_ends (thrown e, s) = handler_ends e s

-- Where the sender has a client that marks records as spent and prunes what is marked, and the
-- operation consumes a record: a submission that returns has retired the consumed records, and so has
-- one that throws because the nullifiers were spent before. Only one that throws for another reason
-- may leave them.
pub submit-RetiresUnless :
    (sdk : Sdk) (env : RelayEnv) (registry : Registry sdk.World) (wallet : Text)
    (p : Prepared sdk.Consumed sdk.Details) (execute : Exec sdk.World Text)
    (display : DisplayMetadata sdk.Float) (s : Worker sdk.World) (c : SpendableRecord sdk.Consumed)
    (cs : List (SpendableRecord sdk.Consumed)) (Marked IsRetired : sdk.World → Type 0)
    → p.consumed_records ≡ c ∷ cs
    → registry.has_client wallet ≡ true
    → Retiring sdk wallet p.consumed_records Marked IsRetired
    → RetiresUnless IsRetired
        (submit_relay_and_finalize sdk env registry wallet p execute display s)
unfolding submit_relay_and_finalize
submit-RetiresUnless sdk env registry wallet p execute display s c cs Marked IsRetired e known r =
    submitted_ends sdk env registry wallet p c cs Marked IsRetired e known r
      (on_world sdk env registry (submit_prepared sdk env wallet p execute display) s)
