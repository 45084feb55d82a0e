-- ===== src/System/Flight/Tests.antt =====
-- Three rounds of the asynchronous client, the replies in another order than the calls.
use async_rpc_fbthrift.Common.{
  ◌-◌, ◌/◌, true, false, Bool, List, [], ◌∷◌, ◌++◌, some, map, All, length, ◌≤◌, ◌≡◌, refl, arith,
  i64_of_u64, Option, none,
}
use async_rpc_fbthrift.Uid.Make.{get_query_uid}
use async_rpc_fbthrift.Sanitize.Laws.{view}
use async_rpc_fbthrift.Database.Handler.{message_or_warning}
use async_rpc_fbthrift.Client.Main.{Client, client_summary, is_finished}
use async_rpc_fbthrift.System.Examples.{
  quiet, quiet-IsValid, fresh, fresh-IsBoard, smooth, smooth-IsLossless, albert, hello,
}
use async_rpc_fbthrift.Rpc.{value, reply_lost}
use async_rpc_fbthrift.Client.Successes.{successes}
use async_rpc_fbthrift.System.Flight.Tracks.{printed_of}
use async_rpc_fbthrift.System.Flight.Safe.{CanGet}
use async_rpc_fbthrift.System.Flight.Safety.{fly-safe}
use async_rpc_fbthrift.System.Rounds.{held}
use async_rpc_fbthrift.System.Flight.{Flight, Move, sends, serves, receives, fly, take_off}
use async_rpc_fbthrift.System.Flight.Serve.{held_if}
use async_rpc_fbthrift.System.Flight.Order.{AreLossless, expected, handled_send}
use async_rpc_fbthrift.System.Flight.Laws.{fly-printed, fly-finished}
use async_rpc_fbthrift.System.Flight.Landing.{fly-lands, work_left}
use async_rpc_fbthrift.System.Flight.Overtaking.{fly-overtaken}

-- The newest move first: round 2 is answered before round 1, and the call of round 1 was handled
-- between the two others.
abbrev pub course : List Move
course =
    receives 0 9
    ∷ receives 1 8
    ∷ receives 2 7
    ∷ serves 0 (smooth 6)
    ∷ serves 1 (smooth 5)
    ∷ serves 2 (smooth 4)
    ∷ sends 3
    ∷ sends 2
    ∷ sends 1
    ∷ []

pub course-AreLossless : AreLossless course
course-AreLossless = (smooth-IsLossless 6, (smooth-IsLossless 5, (smooth-IsLossless 4, tt)))

unfoldable pub flown : List Move → Option Flight
unfolding fly take_off async_rpc_fbthrift.System.Flight.move async_rpc_fbthrift.Client.Main.step
    async_rpc_fbthrift.Stats.Manager.add_entry async_rpc_fbthrift.Stats.Manager.rotate
    async_rpc_fbthrift.Stats.Manager.new_manager async_rpc_fbthrift.Stats.Manager.write_entry
    async_rpc_fbthrift.System.Converse.call async_rpc_fbthrift.Rpc.remote
    async_rpc_fbthrift.Message.Handler.send_message
    async_rpc_fbthrift.Sanitize.Handler.sanitize_message
    async_rpc_fbthrift.Sanitize.Regex.regex_match async_rpc_fbthrift.Database.Handler.store_message
    async_rpc_fbthrift.Message.Handler.find_last_message
    async_rpc_fbthrift.Database.Handler.find_last_message message_or_warning
    async_rpc_fbthrift.Database.Handler.lookup async_rpc_fbthrift.Database.Handler.insert
    is_finished async_rpc_fbthrift.Client.Main.is_empty
flown past = fly 3 4096 albert hello past (take_off quiet fresh)

abbrev pub flight_of : Option Flight → Flight
flight_of none = take_off quiet fresh
flight_of (some f) = f

abbrev pub landed : Flight
landed = flight_of (flown course)

course_landed : fly 3 4096 albert hello course (take_off quiet fresh) ≡ some landed
unfolding flown
course_landed = refl

-- Round 1 found the message of round 2.
printed_second : map (λ a. (a.1).message) landed.printed ≡ [] ∷ hello ∷ [] ∷ []
unfolding flown
printed_second = refl

fly-printed_example :
    let before = view fresh.backend.database albert in
    All (λ a. a.1 ≡ expected 4096 albert hello before course (a.0)) landed.printed
    × (view landed.board.backend.database albert ≡ held_if (handled_send course) hello before)
fly-printed_example =
    fly-printed 3 4096 albert hello quiet fresh quiet-IsValid fresh-IsBoard course landed
      course-AreLossless course_landed

landed_over : is_finished 3 landed.run ≡ true
unfolding flown
landed_over = refl

fly-finished_example :
    (client_summary landed.run.client 3 ≡ record {
      send_successes = 3 - 3 / 2;
      send_iterations = 3 - 3 / 2;
      find_successes = 3 / 2;
      find_iterations = 3 / 2;
    })
    × (view landed.board.backend.database albert
        ≡ held hello (view fresh.backend.database albert) 3)
fly-finished_example =
    fly-finished 3 4096 albert hello quiet fresh course landed quiet-IsValid fresh-IsBoard
      course-AreLossless course_landed landed_over

-- The first round has begun.
abbrev pub begun : List Move
begun = sends 1 ∷ []

abbrev aloft : Flight
aloft = flight_of (flown begun)

begun_flies : fly 3 4096 albert hello begun (take_off quiet fresh) ≡ some aloft
unfolding flown
begun_flies = refl

fly-lands_example :
    (more : List Move) × (f' : Flight) × (fly 3 4096 albert hello
        (more ++ begun)
        (take_off quiet fresh)
      ≡ some f')
    × (is_finished 3 f'.run ≡ true)
    × (length more ≤ work_left 3 aloft)
fly-lands_example =
    fly-lands 3 4096 albert hello quiet fresh begun aloft (smooth 1) quiet-IsValid fresh-IsBoard
      begun_flies

fly-overtaken_example :
    (past : List Move) × (f : Flight) × AreLossless past
    × (fly 3 4096 albert hello past (take_off quiet fresh) ≡ some f)
    × (f.run.pending ≡ 0 ∷ [])
    × (f.printed
        ≡ (
          1,
          record {
            message = message_or_warning albert (view fresh.backend.database albert);
            ok = false;
            query_uid = i64_of_u64 (get_query_uid 4096 1);
          },
        )
          ∷ [])
fly-overtaken_example =
    fly-overtaken 3 4096 albert hello quiet fresh (smooth 1) (omega arith) quiet-IsValid
      fresh-IsBoard (smooth-IsLossless 1)

-- The reply to the second round is lost.
abbrev lossy_course : List Move
lossy_course =
    receives 0 9
    ∷ receives 1 8
    ∷ serves 1 (record (smooth 5) { to_service = reply_lost })
    ∷ serves 0 (smooth 4)
    ∷ sends 2
    ∷ sends 1
    ∷ []

abbrev lossy_flight : Flight
lossy_flight = flight_of (flown lossy_course)

lossy_course_flown : fly 3 4096 albert hello lossy_course (take_off quiet fresh) ≡ some lossy_flight
unfolding flown
lossy_course_flown = refl

fly-safe_example :
    let before = view fresh.backend.database albert in
    ((kind : Bool) → successes kind lossy_flight.run.client ≡ printed_of kind lossy_flight.printed)
    × All (λ a. CanGet 4096 albert hello before lossy_course (a.0) (a.1)) lossy_flight.printed
    × ((handled : Bool) × (view lossy_flight.board.backend.database albert
          ≡ held_if handled hello before)
        × (handled ≡ true → handled_send lossy_course ≡ true))
fly-safe_example =
    fly-safe 3 4096 albert hello quiet fresh quiet-IsValid fresh-IsBoard lossy_course lossy_flight
      lossy_course_flown
