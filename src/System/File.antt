-- ===== src/System/File.antt =====
-- What the client's process leaves in its statistics file.
use async_rpc_fbthrift.Common.{
  ℕ, zero, suc, ◌+◌, ◌-◌, ◌/◌, ◌≤◌, ◌<◌, Bool, true, false, List, [], Option, some, length,
  length-append, Text, ℤ, pos, get_elem?, Option-cases, inl, inr, bind-some, some_inj, ◌≡◌, ◌≢◌,
  refl, sym, ap, subst, ◌∙◌, arith,
}
use async_rpc_fbthrift.Stats.Csv.{Files, write_file}
use async_rpc_fbthrift.Stats.Manager.{erase_previous, destroy, default_entry_count}
use async_rpc_fbthrift.Stats.Dump.{csv}
use async_rpc_fbthrift.Stats.Shape.{IsValid, new_manager-IsValid}
use async_rpc_fbthrift.Stats.Retention.{Entry, rows_of}
use async_rpc_fbthrift.Stats.Reader.{read_table, read_table-destroy}
use async_rpc_fbthrift.Rpc.{value}
use async_rpc_fbthrift.Uid.Make.{Address, generate_local_uid}
use async_rpc_fbthrift.Sanitize.Laws.{view}
use async_rpc_fbthrift.Message.Handler.{Board}
use async_rpc_fbthrift.Message.Laws.{IsBoard}
use async_rpc_fbthrift.Client.Main.{read_iterations}
use async_rpc_fbthrift.System.Converse.{Plan}
use async_rpc_fbthrift.System.Rounds.{IsLossless}
use async_rpc_fbthrift.System.Journal.{rounds_of, answers_of}
use async_rpc_fbthrift.System.Courses.{response_in, client_in}
use async_rpc_fbthrift.System.Laws.{converse-lossless}
use async_rpc_fbthrift.System.Process.{
  stats_file, client_stats, Numbers, Arguments, read_arguments, converted_argument, delays,
  finish_main, run_main, client_main,
}

length-rounds_of :
    (f : ℕ → List Entry) (n i : ℕ) → ((j : ℕ) → length (f j) ≡ 2) → length (rounds_of f n i) ≡ n + n
unfolding rounds_of
length-rounds_of f zero i two = refl
length-rounds_of f (suc n) i two =
    omega
      (arith, length-append (f i) (rounds_of f n (i + 1)), two i, length-rounds_of f n (i + 1) two)

pub client_stats-IsValid : IsValid client_stats
client_stats-IsValid =
    new_manager-IsValid stats_file false default_entry_count 2 false (omega arith) (omega arith)
      (omega arith) (omega arith)

pub erased_file : (fs : Files) → erase_previous fs stats_file true stats_file ≡ csv (rows_of [])
unfolding erase_previous write_file csv
erased_file fs = refl

pub stats_file-named : stats_file ≢ []
stats_file-named h = absurd (ground (arith, h))

read_iterations-positive :
    (stoi : Text → Option ℤ) (argv : List Text) (n : ℕ) → read_iterations stoi argv ≡ some n → 0 < n
unfolding read_iterations
read_iterations-positive stoi argv n h = elim (Option-cases (get_elem? argv 1)) [
  | inl nothing ↦ ground (arith, rw nothing at h)
  | inr (arg, given) ↦ elim (Option-cases (stoi arg)) [
    | inl throws ↦ absurd (ground (arith, rw (given, throws) at h))
    | inr (z, e) ↦ ground (arith, rw (given, e) at h)
  ]
]

-- Every run of the client has a round.
read_arguments-positive :
    (k : Numbers) (argv : List Text) (args : Arguments k)
    → read_arguments k argv ≡ some args
    → 0 < args.iterations
unfolding read_arguments
read_arguments-positive k argv args h =
    let (n, e, rest) = bind-some (read_iterations k.stoi argv) _ h in
    let (w, _, rest₁) = bind-some (converted_argument k.stof argv 4 k.ten_thousand) _ rest in
    let (f, _, rest₂) = bind-some (converted_argument k.stof argv 5 k.one) _ rest₁ in
    let (t, _, last) = bind-some (converted_argument k.stoi argv 6 (pos 90000)) _ rest₂ in
    subst (λ n. 0 < n) (ap (λ (x : Arguments k). x.iterations) (some_inj last))
      (read_iterations-positive k.stoi argv n e)

-- The synchronous client's process, whose arguments can be converted, against the three services,
-- whose logs are well formed, when every request and reply is delivered, for at most 16384 rounds:
-- it prints the response of each round and a summary in which every call was successful. When its
-- `main` has deleted the statistics, their file, whatever stood there before, is read back as two
-- rows for each round, in order: the query's identifier with the time of its call, and with the
-- time of its reply.
pub client_main-lossless :
    (k : Numbers) (fs : Files) (argv : List Text) (args : Arguments k) (plan : ℕ → Plan)
    (localhost : Bool) (hash : ℕ) (a : Address) (rand : ℕ) (b : Board)
    → read_arguments k argv ≡ some args
    → args.iterations ≤ 16384
    → ((j : ℕ) → IsLossless (plan j))
    → IsBoard b
    → let before = view b.backend.database args.client_id in
      let n = args.iterations in
      (fs' : Files) × (b' : Board) × (client_main k fs argv plan
          (generate_local_uid localhost hash a rand)
          b
        ≡ some (
          value (record {
            responses =
                answers_of
                  (response_in localhost hash a rand plan args.client_id args.message before)
                  n
                  0;
            sleeps = delays k n args.waiting_time args.decreasing_factor;
            summary = record {
              send_successes = n - n / 2;
              send_iterations = n - n / 2;
              find_successes = n / 2;
              find_iterations = n / 2;
            };
          }),
          fs',
          b',
        ))
      × (read_table (fs' stats_file)
          ≡ rows_of (
              rounds_of
                (client_in localhost hash a rand plan args.client_id args.message before)
                n
                0))
unfolding client_main run_main finish_main
client_main-lossless k fs argv args plan localhost hash a rand b parsed few lossless vb =
    let before = view b.backend.database args.client_id in
    let client = client_in localhost hash a rand plan args.client_id args.message before in
    let entries = rounds_of client args.iterations 0 in
    let (s, ran, summary, _, logged, _) =
      converse-lossless localhost hash a rand plan args.client_id args.message args.iterations
        client_stats b lossless client_stats-IsValid vb in
    let size = length-rounds_of client args.iterations 0 (λ j. refl) in
    let (m, written, logged', closed, read) =
      read_table-destroy (erase_previous fs stats_file true) stats_file false default_entry_count 2
        false [] [] entries stats_file-named (erased_file fs) (omega arith) (omega arith)
        (omega arith) (omega arith) tt
        (omega (arith, size, read_arguments-positive k argv args parsed)) (omega (arith, size)) in
    let same : m ≡ s.client.client_stat_manager = cc (logged, logged') in
    let closed' : destroy (erase_previous fs stats_file true) s.client.client_stat_manager
        ≡ some written =
      ap (destroy (erase_previous fs stats_file true)) (sym same) ∙ closed in
    (written, s.board, rw (parsed, ran, closed', summary) refl, read)
