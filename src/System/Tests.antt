-- ===== src/System/Tests.antt =====
-- The client and the services on a short conversation.
use async_rpc_fbthrift.Common.{
  ℕ, zero, suc, ◌<◌, ◌≢◌, ◌-◌, ◌/◌, ◌≡◌, refl, false, [], some, Option, arith, text, Text, pos,
}
use async_rpc_fbthrift.Stats.Retention.{add_entries, rows_of}
use async_rpc_fbthrift.Rpc.{value, failed, reply_lost, delivered}
use async_rpc_fbthrift.Uid.Make.{generate_local_uid}
use async_rpc_fbthrift.Database.Handler.{message_or_warning}
use async_rpc_fbthrift.Sanitize.Laws.{view}
use async_rpc_fbthrift.Message.Handler.{Board}
use async_rpc_fbthrift.Message.Logs.{Logged}
use async_rpc_fbthrift.Client.Main.{start, client_summary, is_find}
use async_rpc_fbthrift.System.Converse.{System, Plan, converse}
use async_rpc_fbthrift.System.Rounds.{IsLossless, held, answer}
use async_rpc_fbthrift.System.Journal.{rounds_of, answers_of}
use async_rpc_fbthrift.System.Courses.{
  response_in, client_in, service_in, sanitizer_in, database_in,
}
use async_rpc_fbthrift.Stats.Csv.{Files}
use async_rpc_fbthrift.Stats.Reader.{read_table}
use async_rpc_fbthrift.System.Process.{stats_file, delays, client_main}
use async_rpc_fbthrift.System.File.{client_main-lossless}
use async_rpc_fbthrift.System.Lost.{client_main-lost}
use async_rpc_fbthrift.System.Laws.{converse-lossless}
use async_rpc_fbthrift.System.Examples.{
  quiet, quiet-IsValid, fresh, fresh-IsBoard, host, smooth, smooth-IsLossless, albert, hello,
  whole_numbers, three_rounds, argv, argv_parsed, no_files,
}

abbrev nothing_yet : Option Text
nothing_yet = view fresh.backend.database albert

converse-lossless_example :
    (s : System) × (converse 3 smooth
        (generate_local_uid false 0 host 9)
        albert
        hello
        0
        (record { client = (start quiet).client; board = fresh })
      ≡ some
          (value (answers_of (response_in false 0 host 9 smooth albert hello nothing_yet) 3 0), s))
    × (client_summary s.client 3 ≡ record {
      send_successes = 3 - 3 / 2;
      send_iterations = 3 - 3 / 2;
      find_successes = 3 / 2;
      find_iterations = 3 / 2;
    })
    × (view s.board.backend.database albert ≡ held hello nothing_yet 3)
    × (add_entries quiet (rounds_of (client_in false 0 host 9 smooth albert hello nothing_yet) 3 0)
        ≡ some s.client.client_stat_manager)
    × Logged fresh s.board
        (rounds_of (service_in false 0 host 9 smooth albert hello nothing_yet) 3 0)
        (rounds_of (sanitizer_in false 0 host 9 smooth albert hello nothing_yet) 3 0)
        (rounds_of (database_in false 0 host 9 smooth albert hello nothing_yet) 3 0)
converse-lossless_example =
    converse-lossless false 0 host 9 smooth albert hello 3 quiet fresh smooth-IsLossless
      quiet-IsValid fresh-IsBoard

-- The second round finds what the first has sent.
second_answer : (answer albert hello nothing_yet 1 (pos 1)).message ≡ hello
unfolding is_find message_or_warning async_rpc_fbthrift.Sanitize.Regex.one_line
    async_rpc_fbthrift.Sanitize.Regex.has_special
second_answer = refl

client_main-lossless_example :
    (fs' : Files) × (b' : Board) × (client_main whole_numbers no_files argv smooth
        (generate_local_uid false 0 host 9)
        fresh
      ≡ some (
        value (record {
          responses =
              answers_of
                (response_in false 0 host 9 smooth
                  (text "Albert")
                  (text "TEST MESSAGE")
                  nothing_yet)
                3
                0;
          sleeps = delays whole_numbers 3 10000 1;
          summary = record {
            send_successes = 3 - 3 / 2;
            send_iterations = 3 - 3 / 2;
            find_successes = 3 / 2;
            find_iterations = 3 / 2;
          };
        }),
        fs',
        b',
      ))
    × (read_table (fs' stats_file)
        ≡ rows_of (
            rounds_of
              (client_in false 0 host 9 smooth (text "Albert") (text "TEST MESSAGE") nothing_yet)
              3
              0))
client_main-lossless_example =
    client_main-lossless whole_numbers no_files argv three_rounds smooth false 0 host 9 fresh
      argv_parsed (omega arith) smooth-IsLossless fresh-IsBoard

-- The reply of the second round is lost.
abbrev lossy : ℕ → Plan
lossy zero = smooth 0
lossy (suc i) = record (smooth (suc i)) { to_service = reply_lost }

lossy-start : (j : ℕ) → j < 1 → IsLossless (lossy j)
lossy-start zero h = smooth-IsLossless 0
lossy-start (suc j) h = absurd (omega arith)

lossy-lost : (lossy 1).to_service ≢ delivered
lossy-lost h = absurd (ground (arith, h))

client_main-lost_example :
    (fs' : Files) × (b' : Board) × (client_main whole_numbers no_files argv lossy
        (generate_local_uid false 0 host 9)
        fresh
      ≡ some (failed, fs', b'))
    × (fs' stats_file ≡ [])
client_main-lost_example =
    client_main-lost whole_numbers no_files argv three_rounds lossy false 0 host 9 1 fresh
      argv_parsed (omega arith) lossy-start lossy-lost fresh-IsBoard
