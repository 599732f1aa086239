-- ===== src/Server/Threads/Tests.antt =====
-- The threads of main/myjqlserver.c in a concrete run.
use simple_redis_database.Common.{
  ℕ, ◌≡◌, inl, inr, refl, true, false, Option, none, some, List, [], ◌∷◌,
}
use simple_redis_database.Common.Run.{update}
use simple_redis_database.Server.{Store}
use simple_redis_database.Server.Protocol.{Request}
use simple_redis_database.Server.Threads.{
  in_main, in_thread, in_handler, Phase, local, Stage, main_thread, instance_of, thread, handler,
  call, System, accepts, asks, enters, begins, calls, interrupted, handler_enters, handler_closes,
  init, Steps, stays, later,
}
use simple_redis_database.Server.Threads.Guard.{InSection, InHandler, IsShut, IsLeft}
use simple_redis_database.Server.Threads.Exclusion.{reached-Exclusive}
use simple_redis_database.Server.Threads.Sequence.{call_all, requests, results, reached-call_all}
use simple_redis_database.Server.Threads.Closing.{waiting-undefined, interrupted-stuck}
use simple_redis_database.Server.Threads.Progress.{IsServed, waiting-IsServed}

-- A store of the last value that was set.
abbrev register : Store
register = record {
  State = Option (List ℕ);
  myjql_get = λ s key n. (s, s);
  myjql_set = λ s key value. some value;
  myjql_del = λ s key. none;
}

abbrev Last : Type 0
Last = System (Option (List ℕ))

-- Two threads; the first one sets a value and is in its critical section, the second one waits to get it.
abbrev set_it : Request
set_it = Request.set_to (107 ∷ []) (118 ∷ [])

abbrev get_it : Request
get_it = Request.get (107 ∷ [])

abbrev started : Last
started = init register none

abbrev accepted : Last
accepted = record started { threads = update (update started.threads 0 local) 1 local }

abbrev waiting : Last
waiting = record accepted {
  threads = update (update accepted.threads 0 (Phase.enter set_it)) 1 (Phase.enter get_it);
}

abbrev entered : Last
entered = record waiting {
  threads = update waiting.threads 0 (Phase.inside set_it);
  mutex = some (thread 0);
}

abbrev begun : Last
begun = record entered {
  threads = update entered.threads 0 (Phase.working set_it);
  begun = update entered.begun 0 none;
}

abbrev called : Last
called = record begun {
  threads = update begun.threads 0 (Phase.leave set_it);
  store = some (118 ∷ []);
  log = record { by = 0; request = set_it; result = none } ∷ [];
}

to_waiting : Steps register started waiting
to_waiting =
    later
      (later
        (later (later stays (in_main (accepts 0 (inl refl) refl)))
          (in_main (accepts 1 (inl refl) refl)))
        (in_thread (asks 0 set_it (inl refl) refl)))
      (in_thread (asks 1 get_it (inl refl) refl))

to_entered : Steps register started entered
to_entered = later to_waiting (in_thread (enters 0 set_it (inl refl) refl refl))

to_called : Steps register started called
unfolding call
to_called =
    later (later to_entered (in_thread (begins 0 set_it (inl refl) refl)))
      (in_thread (calls 0 set_it (inl refl) refl refl))

reached-call_all_example :
    call_all register (requests register called.log) none
    ≡ (results register called.log, called.store)
reached-call_all_example = reached-call_all register none called to_called

reached-Exclusive_example :
    ((i j : ℕ) → InSection (entered.threads i) → InSection (entered.threads j) → i ≡ j)
    × ((i : ℕ) → InSection (entered.threads i) → InHandler entered.stage → ⊥)
    × (entered.is_closed ≡ true → IsShut entered.stage)
    × (entered.is_undefined ≡ true → IsLeft entered.stage)
reached-Exclusive_example = reached-Exclusive register none entered to_entered

waiting-IsServed_example :
    (t : Last) × (Steps register entered t) × (IsServed register entered t 1 get_it)
waiting-IsServed_example = waiting-IsServed register none entered 1 get_it to_entered refl refl

-- The signal reaches the first thread in its critical section.
abbrev halted : Last
halted = record entered { stage = Stage.enter; place = instance_of 0 }

abbrev asked : Last
asked = record halted { threads = update halted.threads 2 local }

interrupted-stuck_example :
    (asked.stage ≡ Stage.enter)
    × (asked.mutex ≡ some (thread 0))
    × (asked.log ≡ halted.log)
    × (asked.is_closed ≡ false)
interrupted-stuck_example =
    interrupted-stuck register none halted asked 0
      (later to_entered (in_handler (interrupted (instance_of 0) (λ e. cc, λ e. cc) refl))) refl
      refl tt (later stays (in_main (accepts 2 (inr (λ e. cc, λ e. cc)) refl)))

-- The signal reaches the main thread while both threads wait.
abbrev closed : Last
closed = record waiting {
  stage = Stage.leave;
  place = main_thread;
  mutex = some handler;
  is_closed = true;
}

to_closed : Steps register started closed
to_closed =
    later
      (later (later to_waiting (in_handler (interrupted main_thread tt refl)))
        (in_handler (handler_enters refl refl)))
      (in_handler (handler_closes refl))

waiting-undefined_example : (t : Last) × (Steps register closed t) × (t.is_undefined ≡ true)
waiting-undefined_example =
    waiting-undefined register none closed 0 set_it to_closed refl (λ e. cc) refl
