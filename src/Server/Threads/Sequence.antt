-- ===== src/Server/Threads/Sequence.antt =====
-- The calls of the store that the threads of main/myjqlserver.c make, as one sequence.
use simple_redis_database.Common.{
  ℕ, ◌≡◌, ◌≢◌, refl, ap, sym, subst, ◌∙◌, inl, inr, ◌==◌, Bool-cases, Option, List, [], ◌∷◌, ◌++◌,
  map,
}
use simple_redis_database.Common.Run.{update}
use simple_redis_database.Server.Threads.Guard.{InSection, Guarded, init-Guarded, update-cases}
use simple_redis_database.Server.Threads.Exclusion.{Steps-Guarded}
use simple_redis_database.Server.{Store}
use simple_redis_database.Server.Protocol.{Request}
use simple_redis_database.Server.Threads.{
  in_main, in_thread, in_handler, Phase, local, exited, Step, Entry, call, System, accepts, asks,
  returns, enters, begins, calls, calls_closed, leaves, interrupted, handler_enters, handler_closes,
  handler_leaves, handler_exits, init, Steps, stays, later,
}

module _ (store : Store) where
  open store use {State}

  -- The results of the calls one after the other, and the store behind them.
  unfoldable pub call_all : List Request → State → List (Option (List ℕ)) × State
  call_all [] s = ([], s)
  call_all (r ∷ rs) s =
      let rest = call_all rs (call store r s).1 in ((call store r s).0 ∷ rest.0, rest.1)

  abbrev pub requests : List Entry → List Request
  requests log = map (λ (e : Entry). e.request) log

  abbrev pub results : List Entry → List (Option (List ℕ))
  results log = map (λ (e : Entry). e.result) log

  call_all-append :
      (rs : List Request) (r : Request) (s : State)
      → call_all (rs ++ r ∷ []) s ≡ (
        (call_all rs s).0 ++ (call store r (call_all rs s).1).0 ∷ [],
        (call store r (call_all rs s).1).1,
      )
  unfolding call_all
  call_all-append [] r s = refl
  call_all-append (q ∷ rs) r s =
      ap (λ (p : List (Option (List ℕ)) × State). ((call store q s).0 ∷ p.0, p.1))
        (call_all-append rs r (call store q s).1)

  map-append : {A B : Type 0} (f : A → B) (xs ys : List A) → map f (xs ++ ys) ≡ map f xs ++ map f ys
  map-append f [] ys = refl
  map-append f (x ∷ xs) ys = ap (λ l. f x ∷ l) (map-append f xs ys)

  -- What the store is, and what each call that is going on found.
  record Sequential (st : State) (s : System State) : Type 0 where
    run_all : call_all (requests s.log) st ≡ (results s.log, s.store)
    found : (i : ℕ) (r : Request) → s.threads i ≡ Phase.working r → s.begun i ≡ s.store

  -- A thread goes to a place that is not in a call, and the store is as before.
  moves-Sequential :
      (st : State) (s : System State) (i : ℕ) (p : Phase)
      → ((r : Request) → p ≢ Phase.working r)
      → Sequential st s
      → Sequential st (record s { threads = update s.threads i p })
  moves-Sequential st s i p off q = record {
    run_all = q.run_all;
    found = λ j r at. elim (update-cases s.threads i p j) [
      | inl (same, e) ↦ absurd (off r (sym e ∙ at))
      | inr (other, e) ↦ q.found j r (sym e ∙ at)
    ];
  }

  begins-Sequential :
      (st : State) (s : System State) (i : ℕ) (r : Request)
      → Sequential st s
      → Sequential st (record s {
        threads = update s.threads i (Phase.working r);
        begun = update s.begun i s.store;
      })
  begins-Sequential st s i r q = record {
    run_all = q.run_all;
    found = λ j r' at. elim (Bool-cases (j == i)) [
      | inl same ↦ rw same refl
      | inr other ↦ rw other (q.found j r' (rw other at at))
    ];
  }

  -- No other call is going on when one ends, so that it found the store as it is then.
  calls-Sequential :
      (st : State) (s : System State) (i : ℕ) (r : Request)
      → s.threads i ≡ Phase.working r
      → Guarded s
      → Sequential st s
      → Sequential st (record s {
        threads = update s.threads i (Phase.leave r);
        store = (call store r (s.begun i)).1;
        log = s.log ++ record { by = i; request = r; result = (call store r (s.begun i)).0 } ∷ [];
      })
  unfolding call_all
  calls-Sequential st s i r at g q =
      let e : Entry = record { by = i; request = r; result = (call store r (s.begun i)).0 } in
      record {
        run_all =
            rw
              (
                map-append (λ (e : Entry). e.request) s.log (e ∷ []),
                map-append (λ (e : Entry). e.result) s.log (e ∷ []),
                call_all-append (requests s.log) r st,
                q.run_all,
                q.found i r at,
              )
              refl;
        found = λ j r' at'. elim (update-cases s.threads i (Phase.leave r) j) [
          | inl (same, e) ↦ (let h : Phase.leave r ≡ Phase.working r' = sym e ∙ at' in cc)
          | inr (other, e) ↦
              let mine = g.held i (subst InSection (sym at) tt) in
              let its = g.held j (subst InSection (sym (sym e ∙ at')) tt) in
              let same : j ≡ i = cc in absurd (other same)
        ];
      }

  Step-Sequential :
      (st : State) {s t : System State}
      → Step store s t
      → Guarded s
      → Sequential st s
      → Sequential st t
  Step-Sequential st {s} (in_main (accepts i free at)) g q =
      moves-Sequential st s i local (λ r e. cc) q
  Step-Sequential st {s} (in_thread (asks i r free at)) g q =
      moves-Sequential st s i (Phase.enter r) (λ r e. cc) q
  Step-Sequential st {s} (in_thread (returns i free at)) g q =
      moves-Sequential st s i exited (λ r e. cc) q
  Step-Sequential st {s} (in_thread (enters i r free at unheld)) g q =
      let m = moves-Sequential st s i (Phase.inside r) (λ r e. cc) q in
      record { run_all = m.run_all; found = m.found }
  Step-Sequential st {s} (in_thread (begins i r free at)) g q = begins-Sequential st s i r q
  Step-Sequential st {s} (in_thread (calls i r free at unclosed)) g q =
      calls-Sequential st s i r at g q
  Step-Sequential st {s} (in_thread (calls_closed i r free at closed)) g q =
      let m = moves-Sequential st s i (Phase.leave r) (λ r e. cc) q in
      record { run_all = m.run_all; found = m.found }
  Step-Sequential st {s} (in_thread (leaves i r free at)) g q =
      let m = moves-Sequential st s i local (λ r e. cc) q in
      record { run_all = m.run_all; found = m.found }
  Step-Sequential st (in_handler (interrupted p alive at)) g q = record {
    run_all = q.run_all;
    found = q.found;
  }
  Step-Sequential st (in_handler (handler_enters at unheld)) g q = record {
    run_all = q.run_all;
    found = q.found;
  }
  Step-Sequential st (in_handler (handler_closes at)) g q = record {
    run_all = q.run_all;
    found = q.found;
  }
  Step-Sequential st (in_handler (handler_leaves at)) g q = record {
    run_all = q.run_all;
    found = q.found;
  }
  Step-Sequential st (in_handler (handler_exits at)) g q = record {
    run_all = q.run_all;
    found = q.found;
  }

  Steps-Sequential :
      (st : State) (s : System State) → Steps store (init store st) s → Sequential st s
  unfolding call_all
  Steps-Sequential st s stays = record { run_all = refl; found = λ i r at. refl }
  Steps-Sequential st s (later {t} run step) =
      Step-Sequential st step (Steps-Guarded store run (init-Guarded store st))
        (Steps-Sequential st t run)

  -- However the threads interleave, and although another thread can run between the begin of a call and
  -- its end, the store is what the calls that returned give one after the other, and each returned
  -- what it returns then.
  pub reached-call_all :
      (st : State) (s : System State)
      → Steps store (init store st) s
      → call_all (requests s.log) st ≡ (results s.log, s.store)
  reached-call_all st s run = (Steps-Sequential st s run).run_all
