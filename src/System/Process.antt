-- ===== src/System/Process.antt =====
-- `main` of src/Client/Client.cpp in the build with CLIENT_SYNC: its arguments, its delays, its
-- rounds against the services, its summary and the file that its statistics end in. `stoi`, `stof`
-- and the product of `float` are arguments.
use async_rpc_fbthrift.Common.{
  ℕ, zero, suc, true, false, List, [], ◌∷◌, Option, none, some, ◌>>=◌, get_elem?, Text, text, ℤ,
  pos,
}
use async_rpc_fbthrift.Stats.Csv.{Files}
use async_rpc_fbthrift.Stats.Manager.{
  Manager, new_manager, default_entry_count, erase_previous, destroy,
}
use async_rpc_fbthrift.Rpc.{Reply, value, failed}
use async_rpc_fbthrift.Message.Handler.{Board}
use async_rpc_fbthrift.Client.Main.{Response, read_iterations, start, Summary, client_summary}
use async_rpc_fbthrift.System.Converse.{System, Plan, converse}

abbrev pub stats_file : Text
stats_file = text "/app/src/build/stats_files/client_stats.csv"

-- The global `client_stat_manager`.
abbrev pub client_stats : Manager
client_stats = new_manager stats_file false default_entry_count 2 false

-- `(argc > ++i) ? argv[i] : given`
unfoldable pub text_argument : List Text → ℕ → Text → Text
text_argument argv i given = elim (get_elem? argv i) [ none ↦ given | some arg ↦ arg ]

-- The same with a conversion that throws.
unfoldable pub converted_argument : {A : Type 0} → (Text → Option A) → List Text → ℕ → A → Option A
converted_argument convert argv i given = elim (get_elem? argv i) [
  | none ↦ some given
  | some arg ↦ convert arg
]

-- What `main` takes from the libraries for its numbers.
pub record Numbers : Type 1 where
  pub Float : Type 0
  pub stoi : Text → Option ℤ
  pub stof : Text → Option Float
  pub ten_thousand : Float
  pub one : Float
  pub times : Float → Float → Float

module _ (k : Numbers) where
  open k use {Float, stoi, stof, ten_thousand, one, times}

  pub record Arguments : Type 0 where
    pub iterations : ℕ
    pub client_id : Text
    pub message : Text
    pub waiting_time : Float
    pub decreasing_factor : Float
    pub timeout : ℤ

  unfoldable pub read_arguments : List Text → Option Arguments
  unfolding read_iterations text_argument converted_argument
  read_arguments argv = do
    iterations ← read_iterations stoi argv
    waiting_time ← converted_argument stof argv 4 ten_thousand
    decreasing_factor ← converted_argument stof argv 5 one
    timeout ← converted_argument stoi argv 6 (pos 90000)
    some (record {
      iterations = iterations;
      client_id = text_argument argv 2 (text "Albert");
      message = text_argument argv 3 (text "TEST MESSAGE");
      waiting_time = waiting_time;
      decreasing_factor = decreasing_factor;
      timeout = timeout;
    })

  -- The sleeps behind the rounds: `sleep_for(waiting_time*1us); waiting_time *= decreasing_factor`.
  unfoldable pub delays : ℕ → Float → Float → List Float
  delays zero waiting_time decreasing_factor = []
  delays (suc rounds) waiting_time decreasing_factor =
      waiting_time ∷ delays rounds (times waiting_time decreasing_factor) decreasing_factor

  -- What a run of the program shows: the responses that it prints, its sleeps and its summary.
  pub record Output : Type 0 where
    pub responses : List Response
    pub sleeps : List Float
    pub summary : Summary

  -- Behind the rounds, up to `delete &client_stat_manager`, which is where the statistics are
  -- written; behind it the behaviour is undefined, as the object is destroyed again. An exception
  -- ends the process, and the statistics are not written.
  unfoldable pub finish_main :
      Files → Arguments → Reply (List Response) → System → Option (Reply Output × Files × Board)
  unfolding delays
  finish_main fs args failed s = some (failed, fs, s.board)
  finish_main fs args (value responses) s = destroy fs s.client.client_stat_manager >>= λ written.
      some (
        value (record {
          responses = responses;
          sleeps = delays args.iterations args.waiting_time args.decreasing_factor;
          summary = client_summary s.client args.iterations;
        }),
        written,
        s.board,
      )

  -- An argument that cannot be converted ends the process before its rounds.
  unfoldable pub run_main :
      Files → Option Arguments → (ℕ → Plan) → ℕ → Board → Option (Reply Output × Files × Board)
  unfolding finish_main
  run_main fs none plan client_uid b = some (failed, fs, b)
  run_main fs (some args) plan client_uid b =
      converse args.iterations plan client_uid args.client_id args.message 0
        (record { client = (start client_stats).client; board = b })
      >>= λ out. finish_main fs args out.0 out.1

  unfoldable pub client_main :
      Files → List Text → (ℕ → Plan) → ℕ → Board → Option (Reply Output × Files × Board)
  unfolding run_main
  client_main fs argv plan client_uid b =
      run_main (erase_previous fs stats_file true) (read_arguments argv) plan client_uid b
