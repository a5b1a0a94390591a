-- ===== src/Simulator/Service/Launch.antt =====
-- simulator/simulator.service.ts: a step of a tick beside the transfers in flight.
use pl_backend_sdk_demo.Prelude.{
  ℕ, suc, ◌≤◌, ◌<◌, max, ◌≡◌, refl, ◌≢◌, ap, subst, ◌⊎◌, inl, inr, Bool, true, false, Option, none,
  some, List, [], ◌∷◌, ℤ, Text, filter, length, Result, ok, thrown, Exec, pure, ◌>>=◌, Keeps,
  Keeps-Post, Post, Post-pure, Post-bind, Post-catch, Post-weaken, Post-lift, if◌then◌else◌, arith,
}
use pl_backend_sdk_demo.Money.{Floats, string, xlm_to_stroops}
use pl_backend_sdk_demo.Persistence.{HdAccount, SimulatorRow}
use pl_backend_sdk_demo.ProtocolFee.Spend.{can_cover_instructed_spend}
use pl_backend_sdk_demo.Simulator.Rules.{Draw}
use pl_backend_sdk_demo.Simulator.Occupancy.{
  has, max_simulator_concurrency, pick_disjoint_transfer_pair,
}
use pl_backend_sdk_demo.Simulator.Occupancy.Pairs.{pick-IsFreePair}
use pl_backend_sdk_demo.Simulator.Loop.{OverlappingLoop}
use pl_backend_sdk_demo.Simulator.Service.{
  Ports, SimulatorEnv, Work, State, on_world, log, get_state, max_in_flight, can_receive,
  address_of,
}
use pl_backend_sdk_demo.Simulator.Service.Tick.{
  TickPhase, reading, listing, quoting, checking, Phase, advance, on_tick, launch, launch_pair,
  asked, proceed, with_fee, with_place, found, required_fee, has_no_place, seek,
}
use pl_backend_sdk_demo.Simulator.Service.Busy.{IsOccupied, launch-IsOccupied}
use pl_backend_sdk_demo.Simulator.Service.Kept.{
  Quiet, get_state-Keeps, log_if_idle-Keeps, required_fee-Keeps,
}

-- A tick that has passed the check of the places.
abbrev pub has_passed : {F : Type 0} → TickPhase F → ℕ
has_passed reading = 0
has_passed (listing row) = 0
has_passed (quoting amount registered) = 1
has_passed (checking amount fee registered a todo funded) = 1

abbrev pub passed_of : {F : Type 0} → Option (TickPhase F) → ℕ
passed_of none = 0
passed_of (some p) = has_passed p

module _ (floats : Floats) (env : SimulatorEnv floats.Float) {W : Type 0} (ports : Ports W) where
  -- How many transfers there may be at once.
  abbrev pub places : ℕ
  places = max 1 ports.prove_worker_count

  -- No transfer starts; a tick passes the check only where there is a place.
  abbrev pub Stays :
      State floats env ports → ℕ → Option (Phase floats env ports) → State floats env ports → Type 0
  Stays s n o t =
      (t.in_flight ≡ s.in_flight)
      × (t.next_id ≡ s.next_id)
      × ((passed_of o ≤ n) ⊎ (length s.in_flight < places))

  -- A tick that had passed it starts a transfer, and ends.
  abbrev pub Launches :
      State floats env ports → ℕ → Option (Phase floats env ports) → State floats env ports → Type 0
  Launches s n o t =
      (w : Work) × (t.in_flight ≡ w ∷ s.in_flight)
      × (w.id ≡ s.next_id)
      × (t.next_id ≡ suc s.next_id)
      × (o ≡ none)
      × (n ≡ 1)

  -- What a step of a tick leaves of a state `s`, for a tick that passed the check `n` times.
  pub record Advanced (s : State floats env ports) (n : ℕ) (o : Option (Phase floats env ports))
      (t : State floats env ports) : Type 0 where
    pub occupied : IsOccupied t.busy t.in_flight t.next_id
    pub same_running : t.running ≡ s.running
    pub same_loop : t.loop ≡ s.loop
    pub change : Stays s n o t ⊎ Launches s n o t

  module _ (s : State floats env ports) (n : ℕ) where
    abbrev AsBefore : List Text → List Work → ℕ → Bool → OverlappingLoop → Type 0
    AsBefore busy in_flight next_id running loop =
        IsOccupied busy in_flight next_id
        × (in_flight ≡ s.in_flight)
        × (next_id ≡ s.next_id)
        × (running ≡ s.running)
        × (loop ≡ s.loop)

    abbrev Unmoved : State floats env ports → Type 0
    Unmoved = Quiet floats env ports AsBefore

    abbrev Goal : Result (Option (Phase floats env ports)) × State floats env ports → Type 0
    Goal r = Post (λ o t. Advanced s n o t) (λ _ t. Advanced s n none t) r

    stays :
        (o : Option (Phase floats env ports)) (t : State floats env ports)
        → (passed_of o ≤ n) ⊎ (length s.in_flight < places)
        → Unmoved t
        → Advanced s n o t
    stays o t b (i, f, d, r, l) = record {
      occupied = i;
      same_running = r;
      same_loop = l;
      change = inl (f, d, b);
    }

    ends : (t : State floats env ports) → Unmoved t → Advanced s n none t
    ends t u = stays none t (inl (omega arith)) u

    -- A part that moves nothing, before the rest.
    after :
        {A : Type 0} (m : Exec (State floats env ports) A)
        (f : A → Exec (State floats env ports) (Option (Phase floats env ports)))
        → Keeps Unmoved m
        → ((a : A) (t : State floats env ports) → Unmoved t → Goal (f a t))
        → (t : State floats env ports) → Unmoved t
        → Goal ((m >>= f) t)
    after m f k rest t u =
        Post-bind (m t) f
          (Post-weaken (Keeps-Post Unmoved m k t u) (λ a v q. q) (λ e v q. ends v q)) rest

    launched :
        (o : Option (HdAccount × HdAccount)) (amount : ℤ) (t : State floats env ports)
        → ((x y : HdAccount)
            → o ≡ some (x, y)
            → (has t.busy x.public_key ≡ false)
              × (has t.busy y.public_key ≡ false)
              × (x.public_key ≢ y.public_key))
        → n ≡ 1
        → Unmoved t
        → Goal ((launch_pair floats env ports o amount >>= λ _. pure none) t)
    unfolding launch
    launched none amount t free one u =
        after (launch_pair floats env ports none amount) _
          (log_if_idle-Keeps floats env ports AsBefore _ _ _) (λ _ v q. Post-pure none v (ends v q))
          t u
    launched (some (x, y)) amount t free one (i, f, d, r, l) =
        let (fx, fy, differ) = free x y refl in
        let w : Work = record { id = t.next_id; sender = x; recipient = y; amount = amount } in
        Post-pure none _ (record {
          occupied = launch-IsOccupied t.busy t.in_flight t.next_id w refl fx fy differ i;
          same_running = r;
          same_loop = l;
          change = inr (w, ap (λ ws. w ∷ ws) f, d, ap (λ k. suc k) d, refl, one);
        })

    asked-Advanced :
        (d e : Draw) (amount fee : ℤ) (registered funded todo : List HdAccount)
        (t : State floats env ports)
        → n ≡ 1
        → Unmoved t
        → Goal (asked floats env ports d e amount fee registered funded todo t)
    asked-Advanced d e amount fee registered funded [] t one u =
        launched (pick_disjoint_transfer_pair (λ a. a.public_key) d e funded registered t.busy)
          amount t
          (λ x y hit.
            let free = pick-IsFreePair (λ a. a.public_key) funded registered t.busy d e x y hit in
            (free.sender_free, free.recipient_free, free.differ))
          one u
    asked-Advanced d e amount fee registered funded (a ∷ todo) t one u =
        Post-pure _ t (stays _ t (inl (omega (arith, one))) u)

    proceed-Advanced :
        (d e : Draw) (amount fee : ℤ) (registered funded todo : List HdAccount)
        (t : State floats env ports)
        → n ≡ 1
        → Unmoved t
        → Goal (proceed floats env ports d e amount fee registered funded todo t)
    unfolding proceed
    proceed-Advanced d e amount fee registered funded todo t one u =
        asked-Advanced d e amount fee registered funded (seek floats env ports t.busy todo) t one u

    fee-Advanced :
        (d e : Draw) (amount : ℤ) (registered : List HdAccount) (fee : Option ℤ)
        (t : State floats env ports)
        → n ≡ 1
        → Unmoved t
        → Goal (with_fee floats env ports d e amount registered fee t)
    fee-Advanced d e amount registered none t one u = Post-pure none t (ends t u)
    fee-Advanced d e amount registered (some fee) t one u =
        proceed-Advanced d e amount fee registered [] registered t one u

    has_place :
        (count : ℕ) (t : State floats env ports)
        → has_no_place floats env ports count t ≡ false
        → length t.in_flight < places
    unfolding max_in_flight max_simulator_concurrency
    has_place count t h = ground arith

    place-Advanced :
        (c : Draw) (row : SimulatorRow floats.Float) (registered : List HdAccount) (b : Bool)
        (t : State floats env ports)
        → has_no_place floats env ports (length registered) t ≡ b
        → Unmoved t
        → Goal ((if b then pure none else with_place floats env ports c row registered) t)
    place-Advanced c row registered true t full u = Post-pure none t (ends t u)
    place-Advanced c row registered false t room u =
        let place : length s.in_flight < places =
          subst (λ ws. length ws < places) u.1 (has_place (length registered) t room) in
        Post-lift (xlm_to_stroops floats (string row.min_amount_xlm)) _ t (λ _ _. ends t u)
          (λ min _.
            Post-lift (xlm_to_stroops floats (string row.max_amount_xlm)) _ t (λ _ _. ends t u)
              (λ max _. Post-pure _ t (stays _ t (inr place) u)))

    step-Advanced :
        (c d e : Draw) (p : Phase floats env ports) (t : State floats env ports)
        → n ≡ has_passed p
        → Unmoved t
        → Goal (advance floats env ports c d e p t)
    unfolding advance
    step-Advanced c d e reading t none_passed u =
        after (get_state floats env ports) _ (get_state-Keeps floats env ports AsBefore)
          (λ row v q. Post-pure _ v (stays _ v (inl (omega arith)) q)) t u
    step-Advanced c d e (listing row) t none_passed u =
        after (on_world floats env ports ports.list) _ (λ v q. q)
          (λ accounts v q.
            place-Advanced c row (filter (can_receive) accounts)
              (has_no_place floats env ports (length (filter (can_receive) accounts)) v) v refl q)
          t u
    step-Advanced c d e (quoting amount registered) t one u =
        after (required_fee floats env ports amount) _
          (required_fee-Keeps floats env ports AsBefore amount)
          (λ fee v q. fee-Advanced d e amount registered fee v one q) t u
    step-Advanced c d e (checking amount fee registered a todo funded) t one u =
        after
          (on_world floats env ports (ports.spendable_private_stroops a.public_key (address_of a)))
          _ (λ v q. q)
          (λ balance v q.
            proceed-Advanced d e amount fee registered
              (found floats env ports (can_cover_instructed_spend balance amount fee) a funded) todo
              v one q)
          t u

    -- The log after a throw changes the world alone.
    logged :
        (kind message : Text) (failure : Option Text) (t : State floats env ports)
        → Advanced s n none t
        → Goal ((log floats env ports kind message failure >>= λ _. pure none) t)
    logged kind message failure t h =
        Post-bind (log floats env ports kind message failure t) _
          (Keeps-Post (λ u. Advanced s n none u) (log floats env ports kind message failure)
            (λ u q. record {
              occupied = q.occupied;
              same_running = q.same_running;
              same_loop = q.same_loop;
              change = q.change;
            })
            t h)
          (λ _ u q. Post-pure none u q)

    pub on_tick-Goal :
        (c d e : Draw) (p : Phase floats env ports)
        → n ≡ has_passed p
        → IsOccupied s.busy s.in_flight s.next_id
        → Goal (on_tick floats env ports c d e p s)
    unfolding on_tick
    on_tick-Goal c d e p passed i =
        Post-catch (advance floats env ports c d e p s) _
          (step-Advanced c d e p s passed (i, refl, refl, refl, refl)) (λ x t h. logged _ _ _ t h)

  -- Where a tick goes on: a step that throws ends it.
  abbrev pub next_of : Result (Option (Phase floats env ports)) → Option (Phase floats env ports)
  next_of (ok o) = o
  next_of (thrown e) = none

  outcome :
      (s : State floats env ports) (n : ℕ)
      (r : Result (Option (Phase floats env ports)) × State floats env ports)
      → Post (λ o t. Advanced s n o t) (λ _ t. Advanced s n none t) r
      → Advanced s n (next_of r.0) r.1
  outcome s n (ok o, t) h = h.returns o t refl
  outcome s n (thrown e, t) h = h.throws e t refl

  pub on_tick-Advanced :
      (c d e : Draw) (p : Phase floats env ports) (s : State floats env ports)
      → IsOccupied s.busy s.in_flight s.next_id
      → Advanced s
          (has_passed p)
          (next_of (on_tick floats env ports c d e p s).0)
          (on_tick floats env ports c d e p s).1
  on_tick-Advanced c d e p s i =
      outcome s (has_passed p) (on_tick floats env ports c d e p s)
        (on_tick-Goal s (has_passed p) c d e p refl i)
