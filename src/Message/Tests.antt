-- ===== src/Message/Tests.antt =====
-- The three services together, on a short history with a lost reply.
use async_rpc_fbthrift.Common.{
  ◌≡◌, refl, false, true, List, [], ◌∷◌, some, none, Option, ℕ, ◌≤◌, ◌↔◌, arith, text, Text, pos,
}
use async_rpc_fbthrift.Stats.Manager.{Manager, new_manager, add_entry, rotate, write_entry}
use async_rpc_fbthrift.Stats.Shape.{IsValid, new_manager-IsValid}
use async_rpc_fbthrift.Rpc.{
  Reply, value, Times, delivered, reply_lost, remote, sync, async, connect, has_client,
}
use async_rpc_fbthrift.Database.Handler.{message_or_warning, store_message, insert}
use async_rpc_fbthrift.Sanitize.Handler.{sanitize_message}
use async_rpc_fbthrift.Sanitize.Regex.{regex_match}
use async_rpc_fbthrift.Sanitize.Laws.{reply_of, reaches, view, view_after}
use async_rpc_fbthrift.Message.Handler.{
  StatusResponse, Board, Course, find_last_message, send_message,
}
use async_rpc_fbthrift.Message.Visits.{
  visit_if, visit_or_none, is_delivered, service_entries, sanitizer_entries, database_entries,
}
use async_rpc_fbthrift.Message.Logs.{Logged, send_message-logs, find_last_message-logs_board}
use async_rpc_fbthrift.Message.Laws.{
  IsBoard, response_of, through, status_of, is_stored, send_message-defined,
}
use async_rpc_fbthrift.Message.Connections.{Callers, Turns, unconnected, Collision, calling}
use async_rpc_fbthrift.Message.Connected.{clients_of, calling-Turns}
use async_rpc_fbthrift.Message.Collisions.{Collision-Turns_iff, connect-Turns}
use async_rpc_fbthrift.Message.History.{
  Request, sends, finds, serve, last_accepted, find_last_message-history,
  find_last_message-send_message,
}

abbrev quiet : Manager
quiet = new_manager (text "log.csv") false 4 2 false

quiet-IsValid : IsValid quiet
quiet-IsValid =
    new_manager-IsValid (text "log.csv") false 4 2 false (omega arith) (omega arith) (omega arith)
      (omega arith)

abbrev fresh : Board
fresh = record {
  service = record { manager = quiet; sanit_map = []; mock_map = [] };
  backend = record {
    sanitizer = record { manager = quiet; mock_map = [] };
    database = record { last_messages = []; manager = quiet };
  };
}

fresh-IsBoard : IsBoard fresh
fresh-IsBoard = record {
  service = quiet-IsValid;
  backend = record { sanitizer = quiet-IsValid; database = quiet-IsValid };
}

abbrev at_once : Times
at_once = record { arrival = 1; departure = 2 }

abbrev smooth : Course
smooth = record {
  sanit_build = async;
  sanit_tid = 1;
  to_sanit = delivered;
  to_mock = delivered;
  times = at_once;
  sanit_times = at_once;
  mock_times = at_once;
}

abbrev unanswered : Course
unanswered = record smooth { to_mock = reply_lost }

abbrev history : List Request
history =
    sends async 1 smooth (text "Albert") (text "one") (pos 0)
    ∷ sends async 1 unanswered (text "Albert") (text "two") (pos 1)
    ∷ sends async 1 smooth (text "Albert") (text "thr$ee") (pos 2)
    ∷ finds async delivered 1 at_once at_once (text "Berta") (pos 3)
    ∷ []

send_message-defined_example :
    (b' : Board) × (send_message sync 1 unanswered (text "Albert") (text "two") (pos 1) fresh
      ≡ some (status_of (pos 1) (through delivered (reply_of (text "two") reply_lost)), b'))
    × IsBoard b'
    × ((k : Text)
        → view b'.backend.database k
          ≡ view_after
              (is_stored (text "two") unanswered)
              (text "Albert")
              (text "two")
              fresh.backend.database
              k)
send_message-defined_example =
    send_message-defined sync 1 unanswered (text "Albert") (text "two") (pos 1) fresh fresh-IsBoard

find_last_message-history_example :
    (b₁ b₂ : Board) × (serve fresh history ≡ some b₁)
    × (find_last_message async delivered 1 at_once at_once (text "Albert") (pos 4) b₁
        ≡ some (
          value (record {
            message =
                message_or_warning (text "Albert") (last_accepted (text "Albert") none history);
            query_uid = pos 4;
          }),
          b₂,
        ))
find_last_message-history_example =
    find_last_message-history fresh history async 1 at_once at_once (text "Albert") (pos 4)
      fresh-IsBoard refl

abbrev sent : Option (Reply StatusResponse × Board)
sent = send_message async 1 smooth (text "Albert") (text "one") (pos 0) fresh

abbrev board_of : Option (Reply StatusResponse × Board) → Board
board_of none = fresh
board_of (some out) = out.1

sent_ok : sent ≡ some (value (record { ok = true; query_uid = pos 0 }), board_of sent)
unfolding send_message remote sanitize_message store_message add_entry rotate write_entry connect
    regex_match insert new_manager
sent_ok = refl

find_last_message-send_message_example :
    (b₂ : Board) × (find_last_message async delivered 1 at_once at_once
        (text "Albert")
        (pos 1)
        (board_of sent)
      ≡ some (value (record { message = text "one"; query_uid = pos 1 }), b₂))
find_last_message-send_message_example =
    find_last_message-send_message async async 1 1 smooth at_once at_once (text "Albert")
      (text "one") (pos 0) (pos 1) fresh (board_of sent) (record { ok = true; query_uid = pos 0 })
      fresh-IsBoard sent_ok refl

send_message-logs_example :
    (b' : Board) × (send_message sync 1 unanswered (text "Albert") (text "two") (pos 1) fresh
      ≡ some (status_of (pos 1) (through delivered (reply_of (text "two") reply_lost)), b'))
    × Logged fresh b'
        (service_entries (text "two") (pos 1) unanswered)
        (sanitizer_entries (text "two") (pos 1) unanswered)
        (database_entries (text "two") (pos 1) unanswered)
send_message-logs_example =
    send_message-logs sync 1 unanswered (text "Albert") (text "two") (pos 1) fresh fresh-IsBoard

-- The lost reply leaves the arrivals of two services and the whole visit of the third.
unanswered_entries :
    (service_entries (text "two") (pos 1) unanswered ≡ (1, 1) ∷ [])
    × (sanitizer_entries (text "two") (pos 1) unanswered ≡ (1, 1) ∷ [])
    × (database_entries (text "two") (pos 1) unanswered ≡ (1, 1) ∷ (1, 2) ∷ [])
unfolding async_rpc_fbthrift.Sanitize.Regex.one_line async_rpc_fbthrift.Sanitize.Regex.has_special
unanswered_entries = (refl, refl, refl)

find_last_message-logs_board_example :
    (b' : Board) × (find_last_message sync reply_lost 1 at_once at_once
        (text "Albert")
        (pos 1)
        fresh
      ≡ some (
        response_of (pos 1) (
            through reply_lost (
              value (
                message_or_warning (text "Albert") (view fresh.backend.database (text "Albert"))))),
        b',
      ))
    × Logged fresh b'
        (visit_if (is_delivered reply_lost) (pos 1) at_once)
        []
        (visit_or_none (reaches reply_lost) (pos 1) at_once)
find_last_message-logs_board_example =
    find_last_message-logs_board sync reply_lost 1 at_once at_once (text "Albert") (pos 1) fresh
      fresh-IsBoard

two_clients-single : (i : ℕ) → clients_of i (4 ∷ 7 ∷ []) ≤ 1
unfolding clients_of
two_clients-single i = ground arith

-- A third thread has made a client of its own.
third : Callers
third = (connect-Turns 9 8 (4 ∷ 7 ∷ []) (omega arith)).0

calling-Turns_example :
    ((i : ℕ) → clients_of i third.connected ≤ 1)
    × ((i : ℕ) → third.places i ≡ calling → has_client third.connected i ≡ true)
unfolding third
calling-Turns_example =
    calling-Turns 9 (4 ∷ 7 ∷ []) third two_clients-single
      (connect-Turns 9 8 (4 ∷ 7 ∷ []) (omega arith)).1

Collision-Turns_iff_example : ((s : Callers) × Turns 2 (unconnected []) s × Collision s) ↔ (2 ≤ 2)
Collision-Turns_iff_example = Collision-Turns_iff 2
