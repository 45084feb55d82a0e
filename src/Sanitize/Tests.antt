-- ===== src/Sanitize/Tests.antt =====
-- The sanitization service on the messages that its old client sends, and on one with a line break.
use async_rpc_fbthrift.Common.{◌≡◌, refl, false, true, [], some, arith, text, Text, pos}
use async_rpc_fbthrift.Stats.Manager.{Manager, new_manager}
use async_rpc_fbthrift.Stats.Shape.{IsValid, new_manager-IsValid}
use async_rpc_fbthrift.Rpc.{Times, reply_lost, sync}
use async_rpc_fbthrift.Sanitize.Regex.{regex_match, match_expr, has_special, one_line}
use async_rpc_fbthrift.Sanitize.Handler.{Backend, sanitize_message}
use async_rpc_fbthrift.Sanitize.Laws.{
  IsSound, reply_of, stores_through, view, view_after, sanitize_message-defined,
}

abbrev quiet : Manager
quiet = new_manager (text "log.csv") false 4 2 false

quiet-IsValid : IsValid quiet
quiet-IsValid =
    new_manager-IsValid (text "log.csv") false 4 2 false (omega arith) (omega arith) (omega arith)
      (omega arith)

abbrev fresh : Backend
fresh = record {
  sanitizer = record { manager = quiet; mock_map = [] };
  database = record { last_messages = []; manager = quiet };
}

fresh-IsSound : IsSound fresh
fresh-IsSound = record { sanitizer = quiet-IsValid; database = quiet-IsValid }

abbrev at_once : Times
at_once = record { arrival = 1; departure = 2 }

-- The backslash of the fourth message is let through.
old_client_messages :
    (regex_match match_expr true (text "Test message") ≡ false)
    × (regex_match match_expr true (text "Test messa$ge") ≡ true)
    × (regex_match match_expr true (text "Test* message") ≡ true)
    × (regex_match match_expr true (text "Test mess\\age") ≡ false)
    × (regex_match match_expr true (text "Hello! :')") ≡ false)
unfolding regex_match
old_client_messages = (refl, refl, refl, refl, refl)

sanitize_message-defined_example :
    (b' : Backend) × (sanitize_message sync reply_lost 1 at_once at_once
        (text "Albert")
        (text "hello")
        (pos 5)
        fresh
      ≡ some (reply_of (text "hello") reply_lost, b'))
    × IsSound b'
    × ((c : Text)
        → view b'.database c
          ≡ view_after
              (stores_through (text "hello") reply_lost)
              (text "Albert")
              (text "hello")
              fresh.database
              c)
sanitize_message-defined_example =
    sanitize_message-defined sync reply_lost 1 at_once at_once (text "Albert") (text "hello")
      (pos 5) fresh fresh-IsSound

abbrev broken_line : Text
broken_line = text "drop * from\nusers"

broken_line_special : has_special broken_line ≡ true
unfolding has_special
broken_line_special = refl

broken_line_break : one_line broken_line ≡ false
unfolding one_line
broken_line_break = refl
