-- ===== src/System/Examples.antt =====
-- A short conversation with fresh services, for the tests.
use async_rpc_fbthrift.Common.{
  List, ◌∷◌, ℕ, ◌*◌, ◌≡◌, refl, false, [], some, arith, text, Text, pos,
}
use async_rpc_fbthrift.Stats.Manager.{Manager, new_manager}
use async_rpc_fbthrift.Stats.Shape.{IsValid, new_manager-IsValid}
use async_rpc_fbthrift.Rpc.{delivered, async, Times}
use async_rpc_fbthrift.Uid.Make.{Address}
use async_rpc_fbthrift.Message.Handler.{Board}
use async_rpc_fbthrift.Message.Laws.{IsBoard}
use async_rpc_fbthrift.System.Converse.{Plan}
use async_rpc_fbthrift.System.Rounds.{IsLossless}
use async_rpc_fbthrift.Stats.Csv.{Files}
use async_rpc_fbthrift.System.Process.{Numbers, Arguments, read_arguments}

abbrev pub quiet : Manager
quiet = new_manager (text "log.csv") false 4 2 false

pub quiet-IsValid : IsValid quiet
quiet-IsValid =
    new_manager-IsValid (text "log.csv") false 4 2 false (omega arith) (omega arith) (omega arith)
      (omega arith)

abbrev pub fresh : Board
fresh = record {
  service = record { manager = quiet; sanit_map = []; mock_map = [] };
  backend = record {
    sanitizer = record { manager = quiet; mock_map = [] };
    database = record { last_messages = []; manager = quiet };
  };
}

pub fresh-IsBoard : IsBoard fresh
fresh-IsBoard = record {
  service = quiet-IsValid;
  backend = record { sanitizer = quiet-IsValid; database = quiet-IsValid };
}

abbrev pub host : Address
host = record { is_3 = 172; is_2 = 18; is_1 = 0; is_0 = 5 }

abbrev pub times_from : ℕ → Times
times_from n = record { arrival = n; departure = n }

abbrev pub smooth : ℕ → Plan
smooth i = record {
  call_time = i;
  reply_time = i;
  build = async;
  tid = 1;
  to_service = delivered;
  course = record {
    sanit_build = async;
    sanit_tid = 1;
    to_sanit = delivered;
    to_mock = delivered;
    times = times_from i;
    sanit_times = times_from i;
    mock_times = times_from i;
  };
}

pub smooth-IsLossless : (j : ℕ) → IsLossless (smooth j)
smooth-IsLossless j = record { to_service = refl; to_sanit = refl; to_mock = refl }

abbrev pub albert : Text
albert = text "Albert"

abbrev pub hello : Text
hello = text "hello"

-- A run of the program with whole numbers for `float`.
abbrev pub whole_numbers : Numbers
whole_numbers = record {
  Float = ℕ;
  stoi = λ arg. some (pos 3);
  stof = λ arg. some 1;
  ten_thousand = 10000;
  one = 1;
  times = λ w f. w * f;
}

abbrev pub three_rounds : Arguments whole_numbers
three_rounds = record {
  iterations = 3;
  client_id = text "Albert";
  message = text "TEST MESSAGE";
  waiting_time = 10000;
  decreasing_factor = 1;
  timeout = pos 90000;
}

abbrev pub argv : List Text
argv = text "client" ∷ text "3" ∷ []

pub argv_parsed : read_arguments whole_numbers argv ≡ some three_rounds
unfolding read_arguments
argv_parsed = refl

abbrev pub no_files : Files
no_files name = []
