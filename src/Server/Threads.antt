-- ===== src/Server/Threads.antt =====
-- main/myjqlserver.c: the threads of the clients, the accept loop and the handler of SIGINT, on Linux,
-- interleaved in any order around the mutex `CriticalSection`.
--
-- The code of a thread between its critical sections (Server) is one phase, from which it asks for any
-- request: that covers whatever its client sends. A thread has the number of its pthread_create. The
-- handler runs on the main thread or on the thread of a client, whose own code waits meanwhile. A
-- pthread mutex of default attributes is not recursive. One SIGINT is delivered.
pub mod Guard
pub mod Signal
pub mod Exclusion
pub mod Sequence
pub mod Closing
pub mod Progress
mod Tests
use simple_redis_database.Common.{
  ℕ, ◌≡◌, ◌≢◌, ◌⊎◌, Bool, true, false, Option, none, some, List, [], ◌∷◌, ◌++◌,
}
use simple_redis_database.Common.Run.{update}
use simple_redis_database.Server.{Store, max_str_len}
use simple_redis_database.Server.Protocol.{Request}

-- Where a thread is: at EnterCriticalSection, before the call, in it, and at LeaveCriticalSection.
pub data Phase : Type 0 where
  absent local exited : Phase
  enter inside working leave : Request → Phase

-- Where exit_nicely is: likewise, at the calls behind its critical section, and behind exit.
pub data Stage : Type 0 where
  quiet enter inside leave clean_up gone : Stage

-- The thread that a signal is delivered to.
pub data Place : Type 0 where
  main_thread : Place
  instance_of : ℕ → Place

-- Who holds the mutex.
pub data Owner : Type 0 where
  thread : ℕ → Owner
  handler : Owner

-- A call that returned, with its thread; the result of set and del is `none`.
pub record Entry : Type 0 where
  pub by : ℕ
  pub request : Request
  pub result : Option (List ℕ)

-- The call of a critical section.
unfoldable pub call : (store : Store) → Request → store.State → Option (List ℕ) × store.State
call store (Request.get key) s = store.myjql_get s key max_str_len
call store (Request.set_to key value) s = (none, store.myjql_set s key value)
call store (Request.del key) s = (none, store.myjql_del s key)

-- `is_closed` says that myjql_close was called, and `is_undefined` that the store was used after that.
-- `log` is the calls in the order of their ends. `begun` is the store as the last call of a thread
-- found it: other threads can change the store between the begin of a call and its end, and what the
-- call writes at its end is what it made of the store that it found.
pub record System (S : Type 0) : Type 0 where
  pub threads : ℕ → Phase
  pub stage : Stage
  pub place : Place
  pub mutex : Option Owner
  pub store : S
  pub begun : ℕ → S
  pub is_closed : Bool
  pub is_undefined : Bool
  pub log : List Entry

-- The thread runs its own code: neither the handler nor the end of the process keeps it from that.
abbrev pub IsFree : {S : Type 0} → System S → Place → Type 0
IsFree s t = (s.stage ≡ quiet) ⊎ ((s.place ≢ t) × (s.stage ≢ gone))

-- A signal is delivered to a thread that has started and not returned.
abbrev IsAlive : {S : Type 0} → System S → Place → Type 0
IsAlive s main_thread = Unit
IsAlive s (instance_of i) = (s.threads i ≢ absent) × (s.threads i ≢ exited)

module _ (store : Store) where
  -- The accept loop.
  pub data MainStep (s : System store.State) : System store.State → Type 0 where
    accepts :
        (i : ℕ)
        → IsFree s main_thread
        → s.threads i ≡ absent
        → MainStep s (record s { threads = update s.threads i local })

  -- The thread of a client, around a critical section.
  pub data ThreadStep (s : System store.State) : System store.State → Type 0 where
    asks :
        (i : ℕ) (r : Request)
        → IsFree s (instance_of i)
        → s.threads i ≡ local
        → ThreadStep s (record s { threads = update s.threads i (enter r) })
    returns :
        (i : ℕ)
        → IsFree s (instance_of i)
        → s.threads i ≡ local
        → ThreadStep s (record s { threads = update s.threads i exited })
    enters :
        (i : ℕ) (r : Request)
        → IsFree s (instance_of i)
        → s.threads i ≡ enter r
        → s.mutex ≡ none
        → ThreadStep s
            (record s { threads = update s.threads i (inside r); mutex = some (thread i) })
    begins :
        (i : ℕ) (r : Request)
        → IsFree s (instance_of i)
        → s.threads i ≡ inside r
        → ThreadStep s (record s {
          threads = update s.threads i (working r);
          begun = update s.begun i s.store;
        })
    calls :
        (i : ℕ) (r : Request)
        → IsFree s (instance_of i)
        → s.threads i ≡ working r
        → s.is_closed ≡ false
        → ThreadStep s (record s {
          threads = update s.threads i (leave r);
          store = (call store r (s.begun i)).1;
          log = s.log ++ record { by = i; request = r; result = (call store r (s.begun i)).0 } ∷ [];
        })
    calls_closed :
        (i : ℕ) (r : Request)
        → IsFree s (instance_of i)
        → s.threads i ≡ working r
        → s.is_closed ≡ true
        → ThreadStep s (record s { threads = update s.threads i (leave r); is_undefined = true })
    leaves :
        (i : ℕ) (r : Request)
        → IsFree s (instance_of i)
        → s.threads i ≡ leave r
        → ThreadStep s (record s { threads = update s.threads i local; mutex = none })

  -- CtrlHandler and exit_nicely.
  pub data HandlerStep (s : System store.State) : System store.State → Type 0 where
    interrupted :
        (t : Place)
        → IsAlive s t
        → s.stage ≡ quiet
        → HandlerStep s (record s { stage = enter; place = t })
    handler_enters :
        s.stage ≡ enter
        → s.mutex ≡ none
        → HandlerStep s (record s { stage = inside; mutex = some handler })
    handler_closes : s.stage ≡ inside → HandlerStep s (record s { stage = leave; is_closed = true })
    handler_leaves : s.stage ≡ leave → HandlerStep s (record s { stage = clean_up; mutex = none })
    handler_exits : s.stage ≡ clean_up → HandlerStep s (record s { stage = gone })

  -- A step of the server.
  pub data Step (s : System store.State) : System store.State → Type 0 where
    in_main : {t : System store.State} → MainStep s t → Step s t
    in_thread : {t : System store.State} → ThreadStep s t → Step s t
    in_handler : {t : System store.State} → HandlerStep s t → Step s t

  -- main behind myjql_init
  abbrev pub init : store.State → System store.State
  init s = record {
    threads = λ _. absent;
    stage = quiet;
    place = main_thread;
    mutex = none;
    store = s;
    begun = λ _. s;
    is_closed = false;
    is_undefined = false;
    log = [];
  }

  -- From one state to another by steps.
  pub data Steps (s : System store.State) : System store.State → Type 0 where
    stays : Steps s s
    later : {t u : System store.State} → Steps s t → Step t u → Steps s u
