-- ===== src/Server/Threads/Exclusion.antt =====
-- The mutex of main/myjqlserver.c: who is in a critical section, however the threads interleave.
use simple_redis_database.Common.{ℕ, ◌≡◌, sym, subst, true, [], ◌∷◌, ◌++◌}
use simple_redis_database.Common.Run.{update}
use simple_redis_database.Server.{Store}
use simple_redis_database.Server.Threads.Guard.{
  InSection, InHandler, IsShut, IsLeft, Guarded, init-Guarded, outside-Guarded, inside-Guarded,
  enters-Guarded, leaves-Guarded,
}
use simple_redis_database.Server.Threads.Signal.{
  undefined-Guarded, called-Guarded, stage-Guarded, handler_enters-Guarded, handler_closes-Guarded,
  handler_leaves-Guarded,
}
use simple_redis_database.Server.Threads.{
  in_main, in_thread, in_handler, Phase, absent, local, exited, Stage, quiet, clean_up, gone,
  System, Step, call, accepts, asks, returns, enters, begins, calls, calls_closed, leaves,
  interrupted, handler_enters, handler_closes, handler_leaves, handler_exits, init, Steps, stays,
  later,
}

module _ (store : Store) where
  open store use {State}

  Step-Guarded : {s t : System State} → Step store s t → Guarded s → Guarded t
  Step-Guarded {s} (in_main (accepts i free at)) g =
      outside-Guarded s i absent local at (λ p. p) (λ p. p) g
  Step-Guarded {s} (in_thread (asks i r free at)) g =
      outside-Guarded s i local (Phase.enter r) at (λ p. p) (λ p. p) g
  Step-Guarded {s} (in_thread (returns i free at)) g =
      outside-Guarded s i local exited at (λ p. p) (λ p. p) g
  Step-Guarded {s} (in_thread (enters i r free at unheld)) g = enters-Guarded s i r unheld g
  Step-Guarded {s} (in_thread (begins i r free at)) g =
      let inner = inside-Guarded s i (Phase.inside r) (Phase.working r) at tt tt g in
      called-Guarded (record s { threads = update s.threads i (Phase.working r) }) s.store
        (update s.begun i s.store) s.log inner
  Step-Guarded {s} (in_thread (calls i r free at unclosed)) g =
      let inner = inside-Guarded s i (Phase.working r) (Phase.leave r) at tt tt g in
      called-Guarded (record s { threads = update s.threads i (Phase.leave r) })
        (call store r (s.begun i)).1 s.begun
        (s.log ++ record { by = i; request = r; result = (call store r (s.begun i)).0 } ∷ []) inner
  Step-Guarded {s} (in_thread (calls_closed i r free at closed)) g =
      let misused = undefined-Guarded s i (subst InSection (sym at) tt) closed g in
      inside-Guarded (record s { is_undefined = true }) i (Phase.working r) (Phase.leave r) at tt tt
        misused
  Step-Guarded {s} (in_thread (leaves i r free at)) g = leaves-Guarded s i r at g
  Step-Guarded {s} (in_handler (interrupted t alive at)) g =
      stage-Guarded s quiet Stage.enter t at (λ p. p) (λ p. p) (λ p. p) (λ p. p) (λ p. p) g
  Step-Guarded {s} (in_handler (handler_enters at unheld)) g = handler_enters-Guarded s at unheld g
  Step-Guarded {s} (in_handler (handler_closes at)) g = handler_closes-Guarded s at g
  Step-Guarded {s} (in_handler (handler_leaves at)) g = handler_leaves-Guarded s at g
  Step-Guarded {s} (in_handler (handler_exits at)) g =
      stage-Guarded s clean_up gone s.place at (λ p. p) (λ p. p) (λ p. p) (λ p. p) (λ p. p) g

  pub Steps-Guarded : {s t : System State} → Steps store s t → Guarded s → Guarded t
  Steps-Guarded stays g = g
  Steps-Guarded (later p q) g = Step-Guarded q (Steps-Guarded p g)

  -- However the threads, the accept loop and the signal interleave, two threads are never in their
  -- critical sections at the same time, nor is one together with the handler; the store is closed only
  -- behind the call of the handler, and is used then only after the handler has left its section.
  pub reached-Exclusive :
      (st : State) (s : System State)
      → Steps store (init store st) s
      → ((i j : ℕ) → InSection (s.threads i) → InSection (s.threads j) → i ≡ j)
        × ((i : ℕ) → InSection (s.threads i) → InHandler s.stage → ⊥)
        × (s.is_closed ≡ true → IsShut s.stage)
        × (s.is_undefined ≡ true → IsLeft s.stage)
  reached-Exclusive st s run =
      let g = Steps-Guarded run (init-Guarded store st) in
      (
        λ i j p q. (let m = g.held i p in let n = g.held j q in cc),
        λ i p q. (let m = g.held i p in let n = g.handled q in cc),
        g.shut,
        g.misused,
      )
