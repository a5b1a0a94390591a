-- ===== src/Tests/Services.antt =====
-- Locks, clients, the relay's store, proving workers, the page, HTTP errors, KYT and the environment.
use pl_backend_sdk_demo.Prelude.{
  ◌==◌, if◌then◌else◌, List, later, ℕ, ◌≡◌, refl, ◌⊎◌, ◌≤◌, ◌<◌, ◌+◌, true, false, some, [], ◌∷◌,
  pos, Text, codes, text_eq, lookup, numbers, trim, trim_start, trim_end, is_white, ok, Exec, pure,
  first, arith,
}
use pl_backend_sdk_demo.Async.Mutex
use pl_backend_sdk_demo.Async.Mutex.{
  KeyedAsyncMutex, no_calls, run_exclusive, enter, finish, Move, granted, finished, Reach, start,
  called, moved, Moves, stay, more, leaving,
}
use pl_backend_sdk_demo.Async.Mutex.Requested.{Asked, nobody, asks, goes, calls_exclude}
use pl_backend_sdk_demo.Async.Mutex.Counted.{moves_left, AllFinished}
use pl_backend_sdk_demo.Async.Mutex.Drains.{calls_finish}
use pl_backend_sdk_demo.Json.{Tree, end, undef}
use pl_backend_sdk_demo.State.Adapter.{Memory}
use pl_backend_sdk_demo.Clients.{Sessions, refresh}
use pl_backend_sdk_demo.Clients.Refreshed.{Refreshed, refresh-Refreshed}
use pl_backend_sdk_demo.Relay.Store.{PendingOperation, PendingTable, row_of}
use pl_backend_sdk_demo.Relay.Store.Map.{IsMap, table-IsMap}
use pl_backend_sdk_demo.Jobs.{failure, result}
use pl_backend_sdk_demo.Proving.{WorkerSlot, dispatch, on_message, on_exit}
use pl_backend_sdk_demo.Proving.Settles.{
  Served, spawned, dispatched, told, gone, times, times_settled, settles_once,
}
use pl_backend_sdk_demo.Dashboard.Page
use pl_backend_sdk_demo.Dashboard.Page.{LogsAnswer, LogPane, opened, answered, logs_next}
use pl_backend_sdk_demo.Dashboard.Page.Latest.{
  opens, refreshes, goes_on, hears, ShowsInOrder, Visited-ShowsInOrder,
}
use pl_backend_sdk_demo.Http.{Exception, object, handle_exception}
use pl_backend_sdk_demo.Http.Answered.{IsAnswered, handle_exception-IsAnswered}
use pl_backend_sdk_demo.Kyt.{InspectResponse, guarded_fetch, without_slash}
use pl_backend_sdk_demo.Kyt.Guarded.{IsGuarded, guarded_fetch-IsGuarded}
use pl_backend_sdk_demo.Config.{
  Env, optional_env, optional_nonempty_env, require_decimal_application_id, required_env,
}
use pl_backend_sdk_demo.Config.Load.{
  Reals, DemoEnv, load_demo_env, parse_int, parse_positive_number,
}
use pl_backend_sdk_demo.Config.Loaded.{IsLoaded, load_demo_env-IsLoaded}

-- Two calls for two keys in the other order; the first has taken `A`, and the second waits for it.
abbrev two_calls : KeyedAsyncMutex
two_calls =
    run_exclusive (codes "A" ∷ codes "B" ∷ []) (run_exclusive (codes "B" ∷ codes "A" ∷ []) no_calls)

two_calls-Reach : Reach two_calls
two_calls-Reach = called (called start (codes "B" ∷ codes "A" ∷ [])) (codes "A" ∷ codes "B" ∷ [])

abbrev first_took : KeyedAsyncMutex
first_took = enter 0 (codes "A" ∷ []) (codes "B" ∷ []) two_calls

first_took-Move : Move two_calls first_took
unfolding run_exclusive enter Mutex.unique_keys Mutex.distinct Mutex.sort Mutex.insert
    Mutex.text_ltb text_eq
first_took-Move = granted 0 [] (codes "A") (codes "B" ∷ []) (1 ∷ []) refl refl

calls_finish_example :
    ((1 ≡ moves_left two_calls) × AllFinished first_took)
    ⊎ ((1 < moves_left two_calls) × (u : KeyedAsyncMutex) × Move first_took u)
calls_finish_example =
    calls_finish two_calls first_took 1 two_calls-Reach (more stay first_took-Move)

-- A memory that is its tree.
abbrev memory : Memory
memory = record { State = Tree; get_state = λ t. t; write = λ call. pure tt }

abbrev sessions : Sessions memory
sessions = record { memories = (codes "GA", end) ∷ []; rows = [] }

refresh-Refreshed_example :
    Refreshed memory
      (codes "GA" ∷ [])
      (codes "GA")
      []
      end
      (refresh memory (λ t. t) (codes "GA" ∷ []) sessions)
unfolding lookup text_eq
refresh-Refreshed_example =
    refresh-Refreshed memory (λ t. t) (codes "GA" ∷ []) (codes "GA") sessions end (λ t. refl) refl

abbrev operation : PendingOperation (Unit {0})
operation = record { id = codes "1"; wallet_public_key = codes "GA"; details = tt }

abbrev table : PendingTable (Unit {0})
table = row_of operation ∷ []

table-IsMap_example : IsMap table
table-IsMap_example = table-IsMap (Unit {0}) table (refl, tt, tt)

abbrev no_jobs : WorkerSlot
no_jobs = record { pending = []; settled = [] }

-- A job that a worker answers, and then exits.
abbrev served : WorkerSlot
served = on_exit 0 (some 1) (
    on_message (result (codes "a") (failure (record { error = []; kyt_unauthenticated = false })))
      (dispatch (codes "a") true no_jobs))

served-Served : Served (codes "a" ∷ []) served
served-Served = gone (told (dispatched spawned (codes "a") true refl) _) 0 (some 1)

settles_once_example :
    (times (codes "a") served.pending + times_settled (codes "a") served.settled
      ≡ times (codes "a") (codes "a" ∷ []))
    × (times (codes "a") (codes "a" ∷ []) ≤ 1)
settles_once_example = settles_once (codes "a" ∷ []) served (codes "a") served-Served

abbrev second_page : LogsAnswer
second_page = record { page = 2; page_count = 2; total = 21; lines = [] }

abbrev pane : LogPane
pane = answered 2 second_page (logs_next (Page.refresh opened))

Visited-ShowsInOrder_example : ShowsInOrder pane
Visited-ShowsInOrder_example =
    Visited-ShowsInOrder pane (hears (goes_on (refreshes opens)) 2 second_page (omega arith))

abbrev thrown_object : Exception
thrown_object = object undef (record { json = some (codes "{}"); string = codes "[object Object]" })

handle_exception-IsAnswered_example : IsAnswered thrown_object (handle_exception thrown_object)
handle_exception-IsAnswered_example = handle_exception-IsAnswered thrown_object (λ e. cc)

abbrev html : Text
html = codes "<HTML>"

abbrev inspect_url : Text
inspect_url = codes "https://kyt/kyt/passages/inspect"

abbrev serves_html : Text → Exec ℕ (ℕ × Text)
serves_html url = pure (200, html)

guarded_fetch-IsGuarded_example :
    (r : InspectResponse) × (guarded_fetch serves_html inspect_url 0 ≡ (ok r, 0))
    × IsGuarded inspect_url 200 html r
guarded_fetch-IsGuarded_example =
    guarded_fetch-IsGuarded ℕ serves_html inspect_url 0 0 200 html refl

-- An environment in which every variable is 7.
abbrev sevens : Env
sevens name = some (codes "7")

abbrev reals : Reals
reals = record {
  Number = Text;
  read = λ s. s;
  of_nat = λ n. [];
  is_finite = λ x. true;
  is_positive = λ x. true;
  times = λ x k. x;
  round = λ x. x;
  max = λ x y. y;
}

abbrev all_sevens : DemoEnv Text
all_sevens = record {
  port = some (pos 7);
  database_url = codes "7";
  relayer_origin = codes "7";
  mnemonic = codes "7";
  account_count = some (pos 7);
  prove_workers = some (pos 7);
  network_passphrase = codes "7";
  horizon_url = codes "7";
  soroban_rpc_url = codes "7";
  friendbot_url = codes "7";
  pool_contract = codes "7";
  registry_contract = codes "7";
  kyt_passage_registry_contract = codes "7";
  kyt_api_base_url = codes "7";
  kyt_inspect_token = some (codes "7");
  application_id = codes "7";
  audit_public_key_hex = codes "7";
  zk_config_nonce = pos 7;
  zk_artifact_base_url = some (codes "7");
  asset_id = codes "7";
  token_contract = codes "7";
  asset_name = codes "7";
  asset_decimals = some (pos 7);
  database_ca = some (codes "7");
  tx_interval_minutes = codes "7";
  tx_amount_xlm = codes "7";
  deposit_amount_xlm = codes "7";
}

load_demo_env-IsLoaded_example : IsLoaded reals sevens all_sevens
unfolding load_demo_env required_env optional_env optional_nonempty_env parse_int
    require_decimal_application_id parse_positive_number without_slash trim trim_start trim_end
    is_white numbers
load_demo_env-IsLoaded_example = load_demo_env-IsLoaded reals sevens sevens all_sevens refl

-- The first call holds both of its keys and runs.
abbrev first_runs : KeyedAsyncMutex
first_runs = enter 0 (codes "B" ∷ codes "A" ∷ []) [] first_took

first_runs-Move : Move first_took first_runs
unfolding run_exclusive enter Mutex.unique_keys Mutex.distinct Mutex.sort Mutex.insert
    Mutex.text_ltb text_eq
first_runs-Move = granted 0 (codes "A" ∷ []) (codes "B") [] [] refl refl

abbrev no_keys : ℕ → List Text
no_keys i = []

abbrev one_asked : ℕ → List Text
one_asked i = if no_calls.next == i then codes "B" ∷ codes "A" ∷ [] else no_keys i

abbrev both_asked : ℕ → List Text
both_asked i =
    if (run_exclusive (codes "B" ∷ codes "A" ∷ []) no_calls).next == i
    then codes "A" ∷ codes "B" ∷ []
    else one_asked i

first_runs-Asked : Asked first_runs both_asked
first_runs-Asked =
    goes
      (goes (asks (asks nobody (codes "B" ∷ codes "A" ∷ [])) (codes "A" ∷ codes "B" ∷ []))
        first_took-Move)
      first_runs-Move

calls_exclude_example : ◌≡◌ {A = ℕ} 0 0
unfolding run_exclusive enter Mutex.unique_keys Mutex.distinct Mutex.sort Mutex.insert
    Mutex.text_ltb text_eq
calls_exclude_example =
    calls_exclude first_runs both_asked (codes "A") 0 0 (codes "B" ∷ codes "A" ∷ [])
      (codes "B" ∷ codes "A" ∷ []) first_runs-Asked refl refl (later first) (later first)
