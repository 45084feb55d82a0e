-- ===== src/Servers.antt =====
-- The options of the three server programs, src/MessageService/MessageServiceServer.cpp,
-- src/SanitizationService/SanitizationServiceServer.cpp and src/MockDatabase/MockDatabaseServer.cpp,
-- and the handlers of the examples in src/old.
use async_rpc_fbthrift.Common.{
  ℕ, Bool, List, Option, none, some, ◌>>=◌, get_elem?, if◌then◌else◌, Text, ℤ, pos, negsuc, ltz,
  ◌+ℤ◌,
}
use async_rpc_fbthrift.Rpc.{Reply, Delivery, remote}

-- What a server is started with. A number of threads that is not set stays as the library has it.
pub record Options : Type 0 where
  pub io_threads : Option ℤ
  pub cpu_threads : Option ℤ
  pub waiting_time_us : ℤ

-- `(argc > ++i) ? stoi(argv[i]) : default`; `none` is an exception of `stoi`.
unfoldable pub number_argument : (Text → Option ℤ) → List Text → ℕ → ℤ → Option ℤ
number_argument stoi argv i default = read (get_elem? argv i)
  where
    read : Option Text → Option ℤ
    read none = some default
    read (some arg) = stoi arg

unfoldable pub if_positive : ℤ → Option ℤ
if_positive n = if ltz (pos 0) n then some n else none

unfoldable pub server_options : ℤ → (Text → Option ℤ) → List Text → Option Options
unfolding number_argument if_positive
server_options default_wait stoi argv = do
  iothreads ← number_argument stoi argv 1 (pos 0)
  cputhreads ← number_argument stoi argv 2 (pos 0)
  wait ← number_argument stoi argv 3 default_wait
  some (record {
    io_threads = if_positive iothreads;
    cpu_threads = if_positive cputhreads;
    waiting_time_us = wait;
  })

unfoldable pub message_server_options : (Text → Option ℤ) → List Text → Option Options
unfolding server_options
message_server_options stoi argv = server_options (pos 1000) stoi argv

unfoldable pub sanitization_server_options : (Text → Option ℤ) → List Text → Option Options
unfolding server_options
sanitization_server_options stoi argv = server_options (pos 1000) stoi argv

unfoldable pub database_server_options : (Text → Option ℤ) → List Text → Option Options
unfolding server_options
database_server_options stoi argv = server_options (pos 5000) stoi argv

-- The handler that stands between a client and the database, and forwards each call over a transport:
-- an exception of the call leaves the handler.
unfoldable pub middle_find_last_message :
    {D : Type 0}
    → Delivery
    → (Text → D → Option (Reply Text × D))
    → Text
    → D
    → Option (Reply Text × D)
middle_find_last_message d find_last_message client_id db =
    remote d (find_last_message client_id) db

unfoldable pub middle_store_message :
    {D : Type 0}
    → Delivery
    → (Text → Text → D → Option (Reply Bool × D))
    → Text
    → Text
    → D
    → Option (Reply Bool × D)
middle_store_message d store_message client_id message db =
    remote d (store_message client_id message) db

-- `ExampleHandler::get_number`, n * 2 on `int32_t`; `none` is an overflow.
unfoldable pub get_number : ℤ → Option ℤ
get_number n = in_range (n +ℤ n)
  where
    in_range : ℤ → Option ℤ
    in_range m =
        if ltz m (pos (2147483648))
        then (if ltz m (negsuc 2147483647) then none else some m)
        else none

-- `EchoHandler::echo`
unfoldable pub echo : Text → Text
echo message = message
