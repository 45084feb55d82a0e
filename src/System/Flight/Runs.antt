-- ===== src/System/Flight/Runs.antt =====
-- A run of the asynchronous client's process to its end.
use async_rpc_fbthrift.Common.{
  ℕ, ◌-◌, ◌/◌, true, false, List, [], some, text, ◌<◌, length, ◌≤◌, ◌≡◌, refl, arith,
}
use async_rpc_fbthrift.Uid.Make.{generate_local_uid}
use async_rpc_fbthrift.Client.Main.{is_finished}
use async_rpc_fbthrift.System.Examples.{
  fresh, fresh-IsBoard, albert, host, whole_numbers, three_rounds, argv, argv_parsed, no_files,
}
use async_rpc_fbthrift.Rpc.{value}
use async_rpc_fbthrift.Stats.Csv.{Files}
use async_rpc_fbthrift.Stats.Retention.{rows_of}
use async_rpc_fbthrift.Stats.Reader.{read_table}
use async_rpc_fbthrift.System.Process.{client_stats, stats_file, delays}
use async_rpc_fbthrift.System.Flight.{Flight, Move, fly, take_off}
use async_rpc_fbthrift.System.Flight.Course.{course_entries}
use async_rpc_fbthrift.System.Flight.Process.{async_main}
use async_rpc_fbthrift.System.Flight.File.{IsCut, async_main-lossless}
use async_rpc_fbthrift.System.Flight.Tests.{course, course-AreLossless, flown, flight_of}

abbrev own_uid : ℕ
own_uid = generate_local_uid false 0 host 9

abbrev process_flight : List Move → Flight
process_flight past =
    flight_of (fly 3 own_uid albert (text "TEST MESSAGE") past (take_off client_stats fresh))

process_landed :
    fly 3 own_uid albert (text "TEST MESSAGE") course (take_off client_stats fresh)
    ≡ some (process_flight course)
unfolding flown
process_landed = refl

process_over : is_finished 3 (process_flight course).run ≡ true
unfolding flown
process_over = refl

one_block :
    (past : List Move)
    → 0 < length (course_entries own_uid past)
    → length (course_entries own_uid past) ≤ 32768
    → IsCut (course_entries own_uid past) [] (course_entries own_uid past)
one_block past some_entry few = record {
  cut = refl;
  full = tt;
  some_entry = some_entry;
  fits = few;
}

course-IsCut : IsCut (course_entries own_uid course) [] (course_entries own_uid course)
unfolding course_entries
course-IsCut = one_block course (omega arith) (omega arith)

async_main-lossless_example :
    (fs' : Files) × (async_main whole_numbers no_files argv course own_uid fresh
      ≡ some (
        value (record {
          printed = (process_flight course).printed;
          sleeps = delays whole_numbers 3 10000 1;
          summary = record {
            send_successes = 3 - 3 / 2;
            send_iterations = 3 - 3 / 2;
            find_successes = 3 / 2;
            find_iterations = 3 / 2;
          };
        }),
        fs',
        (process_flight course).board,
      ))
    × (read_table (fs' stats_file) ≡ rows_of (course_entries own_uid course))
async_main-lossless_example =
    async_main-lossless whole_numbers no_files argv three_rounds course false 0 host 9 fresh
      (process_flight course) [] (course_entries own_uid course) argv_parsed course-AreLossless
      fresh-IsBoard process_landed course-IsCut process_over
