-- ===== src/Server/Threads/Closing.antt =====
-- exit_nicely of main/myjqlserver.c: a thread that waits for the mutex, and one that the signal interrupts
-- while it holds it.
use simple_redis_database.Common.{
  ℕ, ◌≡◌, ◌≢◌, inl, inr, refl, sym, subst, ◌∙◌, true, false, Bool-cases, none, some,
}
use simple_redis_database.Common.Run.{update, update_self}
use simple_redis_database.Server.{Store}
use simple_redis_database.Server.Protocol.{Request}
use simple_redis_database.Server.Threads.{
  in_main, in_thread, in_handler, Phase, Stage, clean_up, instance_of, thread, IsFree, System, Step,
  accepts, asks, returns, enters, begins, calls, calls_closed, leaves, interrupted, handler_enters,
  handler_closes, handler_leaves, handler_exits, init, Steps, stays, later,
}
use simple_redis_database.Server.Threads.Guard.{InSection, IsShut, Guarded, init-Guarded}
use simple_redis_database.Server.Threads.Exclusion.{Steps-Guarded}

module _ (store : Store) where
  open store use {State}

  -- From every state that is reached and in which exit_nicely has closed the store and a thread waits for
  -- the mutex, which is not the one that the handler runs on, the server can go on to use the closed store.
  pub waiting-undefined :
      (st : State) (s : System State) (i : ℕ) (r : Request)
      → Steps store (init store st) s
      → s.stage ≡ Stage.leave
      → s.place ≢ instance_of i
      → s.threads i ≡ Phase.enter r
      → (t : System State) × (Steps store s t) × (t.is_undefined ≡ true)
  waiting-undefined st s i r run at other waits =
      let g = Steps-Guarded store run (init-Guarded store st) in
      elim (Bool-cases s.is_closed) [
        | inr unclosed ↦ absurd (g.unshut unclosed (subst IsShut (sym at) tt))
        | inl closed ↦
            let left : System State = record s { stage = clean_up; mutex = none } in
            let entered : System State = record left {
              threads = update s.threads i (Phase.inside r);
              mutex = some (thread i);
            } in
            let begun : System State = record entered {
              threads = update entered.threads i (Phase.working r);
              begun = update entered.begun i entered.store;
            } in
            let used : System State = record begun {
              threads = update begun.threads i (Phase.leave r);
              is_undefined = true;
            } in
            let free : IsFree left (instance_of i) = inr (other, λ e. cc) in
            (
              used,
              later
                  (later
                    (later (later stays (in_handler (handler_leaves at)))
                      (in_thread (enters i r free waits refl)))
                    (in_thread (begins i r free (update_self s.threads i (Phase.inside r)))))
                  (in_thread (
                    calls_closed i r free (update_self entered.threads i (Phase.working r))
                      closed)),
              refl,
            )
      ]

  -- The handler waits for the mutex on the thread that holds it.
  abbrev IsStuck : System State → System State → ℕ → Type 0
  IsStuck s t i =
      (t.stage ≡ Stage.enter)
      × (t.place ≡ instance_of i)
      × (t.mutex ≡ some (thread i))
      × (t.log ≡ s.log)
      × (t.is_closed ≡ s.is_closed)

  unfree : (s t : System State) (i : ℕ) → IsStuck s t i → IsFree t (instance_of i) → ⊥
  unfree s t i (at, where', mine, same, closed) (inl e) = cc
  unfree s t i (at, where', mine, same, closed) (inr (other, running)) = other where'

  -- Only that thread could be in its critical section, and it does not go on.
  unowned :
      (s t : System State) (i j : ℕ)
      → Guarded t
      → IsStuck s t i
      → InSection (t.threads j)
      → IsFree t (instance_of j)
      → ⊥
  unowned s t i j g stuck ins free =
      let mine = stuck.2 in
      let held = g.held j ins in
      let same : j ≡ i = cc in unfree s t i stuck (subst (λ k. IsFree t (instance_of k)) same free)

  Step-IsStuck :
      (s : System State) {t u : System State} (i : ℕ)
      → Guarded t
      → IsStuck s t i
      → Step store t u
      → IsStuck s u i
  Step-IsStuck s {t} i g stuck (in_main (accepts j free at)) = stuck
  Step-IsStuck s {t} i g stuck (in_thread (asks j r free at)) = stuck
  Step-IsStuck s {t} i g stuck (in_thread (returns j free at)) = stuck
  Step-IsStuck s {t} i g (at', where', mine, same, closed) (in_thread (enters j r free at unheld)) =
      cc
  Step-IsStuck s {t} i g stuck (in_thread (begins j r free at)) = stuck
  Step-IsStuck s {t} i g stuck (in_thread (calls j r free at unclosed)) =
      absurd (unowned s t i j g stuck (subst InSection (sym at) tt) free)
  Step-IsStuck s {t} i g stuck (in_thread (calls_closed j r free at closed)) = stuck
  Step-IsStuck s {t} i g stuck (in_thread (leaves j r free at)) =
      absurd (unowned s t i j g stuck (subst InSection (sym at) tt) free)
  Step-IsStuck s {t} i g (at', where', mine, same, closed) (in_handler (interrupted p alive at)) =
      cc
  Step-IsStuck s {t} i g (at', where', mine, same, closed) (in_handler (handler_enters at unheld)) =
      cc
  Step-IsStuck s {t} i g (at', where', mine, same, closed) (in_handler (handler_closes at)) = cc
  Step-IsStuck s {t} i g (at', where', mine, same, closed) (in_handler (handler_leaves at)) = cc
  Step-IsStuck s {t} i g (at', where', mine, same, closed) (in_handler (handler_exits at)) = cc

  Steps-IsStuck :
      (s : System State) {t u : System State} (i : ℕ)
      → Guarded t
      → IsStuck s t i
      → Steps store t u
      → IsStuck s u i
  Steps-IsStuck s i g stuck stays = stuck
  Steps-IsStuck s i g stuck (later run step) =
      Step-IsStuck s i (Steps-Guarded store run g) (Steps-IsStuck s i g stuck run) step

  -- When the signal has interrupted a thread that holds the mutex, the server never makes another call
  -- of the store and never closes it: exit_nicely waits for the mutex on the thread that holds it.
  pub interrupted-stuck :
      (st : State) (s t : System State) (i : ℕ)
      → Steps store (init store st) s
      → s.stage ≡ Stage.enter
      → s.place ≡ instance_of i
      → InSection (s.threads i)
      → Steps store s t
      → (t.stage ≡ Stage.enter)
        × (t.mutex ≡ some (thread i))
        × (t.log ≡ s.log)
        × (t.is_closed ≡ false)
  interrupted-stuck st s t i run at where' ins more =
      let g = Steps-Guarded store run (init-Guarded store st) in
      let stuck = Steps-IsStuck s i g (at, where', g.held i ins, refl, refl) more in
      let unclosed : s.is_closed ≡ false = elim (Bool-cases s.is_closed) [
        | inl closed ↦ absurd (subst IsShut at (g.shut closed))
        | inr unclosed ↦ unclosed
      ] in
      (stuck.0, stuck.2, stuck.3, stuck.4 ∙ unclosed)
