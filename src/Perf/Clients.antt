-- ===== src/Perf/Clients.antt =====
-- The client threads of src/dep/perf/cpp2/client/Client.cpp on the statistics that they share, with
-- the main thread that prints them. A thread's start, one event and one printing are single steps;
-- a start that overlaps an addition, which takes no lock, is not modelled.
use async_rpc_fbthrift.Common.{
  ℕ, Bool, true, ◌==◌, if◌then◌else◌, List, [], ◌∷◌, ◌++◌, Option, none, some, ◌<◌, ◌≡◌, Text, ℤ,
  pos,
}
use async_rpc_fbthrift.Perf.Counters.{Platform, Counters, print_stats}
use async_rpc_fbthrift.Perf.Load.{
  OpType, Callback, Load, Setting, running, Event, deliver, run, new_load,
}
use async_rpc_fbthrift.Perf.Events.{suits, IsAnswered}
use async_rpc_fbthrift.Perf.Expected.{outcome}

-- The program: its build, `max_outstanding_ops`, the number of threads, and what each thread's
-- random generators give.
pub record Program : Type 0 where
  pub stream_test : Bool
  pub max_outstanding_ops : ℕ
  pub num_clients : ℕ
  pub draws : ℕ → ℕ → OpType
  pub numbers : ℕ → ℕ → ℤ × ℤ
  pub opens : ℕ → ℕ → Bool

abbrev pub setting : Program → ℕ → Setting
setting c i = record {
  stream_test = c.stream_test;
  max_outstanding_ops = pos c.max_outstanding_ops;
  draw = c.draws i;
  numbers = c.numbers i;
  opens = c.opens i;
}

module _ (p : Platform) where
  -- The shared statistics, and the threads that have started.
  pub record Clients : Type 0 where
    pub stats : Counters p
    pub loads : ℕ → Option (Load p)

  abbrev pub set_load : ℕ → Load p → (ℕ → Option (Load p)) → ℕ → Option (Load p)
  set_load i l loads j = if j == i then some l else loads j

  -- A thread with the statistics as they are now.
  abbrev pub seen_by : Clients → Load p → Load p
  seen_by s l = record l { stats = s.stats }

  abbrev pub moved : ℕ → Load p → Clients → Clients
  moved i l s = record { stats = l.stats; loads = set_load i l s.loads }

  abbrev pub no_clients : Clients
  no_clients = record { stats = []; loads = λ i. none }

  module _ (c : Program) (fuel : ℕ) where
    -- What the threads do, with the counters that the events are to add to, the newest first.
    pub data Work : List (Option Text) → Clients → Type 0 where
      begins : Work [] no_clients
      thread_starts :
          {s : Clients} {outcomes : List (Option Text)} (i : ℕ) (l : Load p)
          → Work outcomes s
          → i < c.num_clients
          → s.loads i ≡ none
          → run p fuel (setting c i) (new_load p (setting c i) s.stats) ≡ some l
          → Work outcomes (moved i l s)
      event :
          {s : Clients} {outcomes : List (Option Text)} (i : ℕ) (l l' : Load p)
          (before : List Callback) (cb : Callback) (after : List Callback) (e : Event)
          → Work outcomes s
          → s.loads i ≡ some l
          → l.in_flight ≡ before ++ cb ∷ after
          → suits cb.op e ≡ true
          → IsAnswered cb e
          → deliver p fuel (setting c i) before cb after e (seen_by s l) ≡ some (running l')
          → Work (outcome cb.op e ∷ outcomes) (moved i l' s)
      prints :
          {s : Clients} {outcomes : List (Option Text)} (secs total : p.Double)
          → Work outcomes s
          → Work outcomes (record s { stats = (print_stats p secs total s.stats).1 })
