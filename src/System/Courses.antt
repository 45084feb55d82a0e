-- ===== src/System/Courses.antt =====
-- What the rounds of the client do to the system in front of them, when nothing is lost.
use async_rpc_fbthrift.Common.{
  ℕ, zero, suc, ◌+◌, ◌<◌, Bool, List, Option, some, Text, ℤ, i64_of_u64, u64_of_i64, ◌≡◌, refl, sym,
  ap, subst, ◌∙◌, arith,
}
use async_rpc_fbthrift.Stats.Shape.{IsValid}
use async_rpc_fbthrift.Stats.Retention.{Entry, add_entries}
use async_rpc_fbthrift.Rpc.{value}
use async_rpc_fbthrift.Uid.Make.{Address, generate_local_uid, get_query_uid}
use async_rpc_fbthrift.Uid.Laws.{get_query_uid-fields}
use async_rpc_fbthrift.Sanitize.Laws.{view}
use async_rpc_fbthrift.Message.Laws.{IsBoard}
use async_rpc_fbthrift.Message.Logs.{Logged}
use async_rpc_fbthrift.Client.Main.{Response}
use async_rpc_fbthrift.Client.Successes.{successes, one_if, is_kind, issued, issued-suc}
use async_rpc_fbthrift.System.Converse.{System, Plan, replied, round, converse}
use async_rpc_fbthrift.System.Rounds.{
  IsLossless, held, answer, client_entries, service_visit, sanitizer_visit, database_visit,
  board_round,
}
use async_rpc_fbthrift.System.Talk.{client_round}
use async_rpc_fbthrift.System.Journal.{
  rounds_of, answers_of, add_entries-both, Logged-append, answer-query_uid,
}

module _ (localhost : Bool) (hash : ℕ) (a : Address) (rand : ℕ) where
  -- The identifier of query i, as the client has it and as it travels.
  abbrev pub query_of : ℕ → ℕ
  query_of i = get_query_uid (generate_local_uid localhost hash a rand) i

  abbrev pub sent_uid : ℕ → ℤ
  sent_uid i = i64_of_u64 (query_of i)

  module _ (plan : ℕ → Plan) (client_id message : Text) (before : Option Text) where
    abbrev pub response_in : ℕ → Response
    response_in i = answer client_id message before i (sent_uid i)

    abbrev pub client_in : ℕ → List Entry
    client_in i = client_entries (plan i) (query_of i)

    abbrev pub service_in : ℕ → List Entry
    service_in i = service_visit (plan i) (sent_uid i)

    abbrev pub sanitizer_in : ℕ → List Entry
    sanitizer_in i = sanitizer_visit (plan i) message i (sent_uid i)

    abbrev pub database_in : ℕ → List Entry
    database_in i = database_visit (plan i) message i (sent_uid i)

    -- The system in front of round i.
    pub record InFront (i : ℕ) (s : System) : Type 0 where
      pub valid : IsValid s.client.client_stat_manager
      pub board : IsBoard s.board
      pub holds : view s.board.backend.database client_id ≡ held message before i
      pub counted : (kind : Bool) → successes kind s.client ≡ issued kind i

    pub round-InFront :
        (i : ℕ) (s : System)
        → IsLossless (plan i)
        → InFront i s
        → (s' : System) × (round
              (plan i)
              (generate_local_uid localhost hash a rand)
              client_id
              message
              i
              s
            ≡ some (value (response_in i), s'))
          × InFront (i + 1) s'
          × (add_entries s.client.client_stat_manager (client_in i)
              ≡ some s'.client.client_stat_manager)
          × Logged s.board s'.board (service_in i) (sanitizer_in i) (database_in i)
    unfolding round replied
    round-InFront i s lossless v =
        let uid = generate_local_uid localhost hash a rand in
        let next : suc i ≡ i + 1 = omega arith in
        let (_, _, _, back) = get_query_uid-fields localhost hash a rand i in
        let same : u64_of_i64 (response_in i).query_uid ≡ query_of i =
          ap u64_of_i64 (answer-query_uid client_id message before i (sent_uid i)) ∙ back in
        let (c₁, c₂, e₁, e₂, talked) =
          client_round uid i (plan i).call_time (plan i).reply_time (response_in i) s.client v.valid
            same in
        let (b, e₃, served) =
          board_round (plan i) lossless client_id message before i (sent_uid i) s.board v.board
            v.holds in
        (
          record { client = c₂; board = b },
          rw (e₁, e₃, e₂) refl,
          subst (λ k. InFront k (record { client = c₂; board = b })) next
              (record {
                valid = talked.valid;
                board = served.board;
                holds = served.holds;
                counted = λ kind.
                    talked.counted kind
                    ∙ ap (λ k. k + one_if (is_kind kind i)) (v.counted kind)
                    ∙ sym (issued-suc kind i)
                    ∙ ap (issued kind) (sym next);
              }),
          talked.log,
          served.logs,
        )

    -- The two states around some rounds.
    pub record Between (n i : ℕ) (s s' : System) : Type 0 where
      pub behind : InFront (i + n) s'
      pub client_log :
          add_entries s.client.client_stat_manager (rounds_of client_in n i)
          ≡ some s'.client.client_stat_manager
      pub logs :
          Logged s.board s'.board
            (rounds_of service_in n i)
            (rounds_of sanitizer_in n i)
            (rounds_of database_in n i)

    pub converse-Between :
        (n i : ℕ) (s : System)
        → ((j : ℕ) → j < i + n → IsLossless (plan j))
        → InFront i s
        → (s' : System) × (converse n plan
              (generate_local_uid localhost hash a rand)
              client_id
              message
              i
              s
            ≡ some (value (answers_of response_in n i), s'))
          × Between n i s s'
    unfolding converse rounds_of answers_of add_entries
    converse-Between zero i s lossless v =
        let stop : i ≡ i + 0 = omega arith in
        (
          s,
          refl,
          record {
            behind = subst (λ k. InFront k s) stop v;
            client_log = refl;
            logs = record { service_log = refl; sanitizer_log = refl; database_log = refl };
          },
        )
    converse-Between (suc n) i s lossless v =
        let (s₁, e₁, v₁, client_log, logs) = round-InFront i s (lossless i (omega arith)) v in
        let (s₂, e₂, rest) = converse-Between n (i + 1) s₁ (λ j h. lossless j (omega arith)) v₁ in
        let stop : i + 1 + n ≡ i + suc n = omega arith in
        (
          s₂,
          rw (e₁, e₂) refl,
          record {
            behind = subst (λ k. InFront k s₂) stop rest.behind;
            client_log = add_entries-both _ _ _ (client_in i) _ client_log rest.client_log;
            logs = Logged-append s.board s₁.board s₂.board _ _ _ _ _ _ logs rest.logs;
          },
        )
