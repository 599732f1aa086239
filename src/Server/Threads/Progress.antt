-- ===== src/Server/Threads/Progress.antt =====
-- The mutex of main/myjqlserver.c: a thread that waits for it can get it.
use simple_redis_database.Common.{
  append-append, ℕ, ◌≡◌, ◌≢◌, inl, inr, refl, ap, subst, ◌∙◌, false, Bool-cases, Option, none, some,
  List, [], ◌∷◌, ◌++◌,
}
use simple_redis_database.Common.Run.{update, update_self, update_other}
use simple_redis_database.Server.{Store}
use simple_redis_database.Server.Protocol.{Request}
use simple_redis_database.Server.Threads.{
  in_thread, Phase, absent, local, exited, quiet, instance_of, Owner, thread, handler, Entry,
  IsFree, call, System, enters, begins, calls, leaves, init, Steps, stays, later,
}
use simple_redis_database.Server.Threads.Guard.{InSection, InHandler, IsShut, Guarded, init-Guarded}
use simple_redis_database.Server.Threads.Exclusion.{Steps-Guarded}

module _ (store : Store) where
  open store use {State}

  -- After other calls, that of the thread has returned.
  abbrev pub IsServed : System State → System State → ℕ → Request → Type 0
  IsServed s t i r =
      (others : List Entry) × (result : Option (List ℕ)) × (t.log
        ≡ s.log ++ (others ++ record { by = i; request = r; result = result } ∷ []))

  Reaches : System State → ℕ → Request → Type 0
  Reaches s i r = (t : System State) × (Steps store s t) × (IsServed s t i r)

  Steps-append : {s t u : System State} → Steps store s t → Steps store t u → Steps store s u
  Steps-append p stays = p
  Steps-append p (later q step) = later (Steps-append p q) step

  -- The mutex is free.
  unheld-Reaches :
      (s : System State) (i : ℕ) (r : Request)
      → s.stage ≡ quiet
      → s.is_closed ≡ false
      → s.mutex ≡ none
      → s.threads i ≡ Phase.enter r
      → Reaches s i r
  unfolding Reaches
  unheld-Reaches s i r at unclosed unheld waits =
      let free : IsFree s (instance_of i) = inl at in
      let entered : System State = record s {
        threads = update s.threads i (Phase.inside r);
        mutex = some (thread i);
      } in
      let begun : System State = record entered {
        threads = update entered.threads i (Phase.working r);
        begun = update s.begun i s.store;
      } in
      let found = begun.begun i in
      let e : Entry = record { by = i; request = r; result = (call store r found).0 } in
      let called : System State = record begun {
        threads = update begun.threads i (Phase.leave r);
        store = (call store r found).1;
        log = s.log ++ e ∷ [];
      } in
      (
        called,
        later
            (later (later stays (in_thread (enters i r free waits unheld)))
              (in_thread (begins i r free (update_self s.threads i (Phase.inside r)))))
            (in_thread (calls i r free (update_self entered.threads i (Phase.working r)) unclosed)),
        ([], (call store r found).0, refl),
      )

  -- It is held by a thread at its end.
  leave-Reaches :
      (s : System State) (i j : ℕ) (r q : Request)
      → s.stage ≡ quiet
      → s.is_closed ≡ false
      → s.threads j ≡ Phase.leave q
      → s.threads i ≡ Phase.enter r
      → Reaches s i r
  unfolding Reaches
  leave-Reaches s i j r q at unclosed leaving waits =
      let left : System State = record s { threads = update s.threads j local; mutex = none } in
      let other : i ≢ j = λ e. (let same = ap s.threads e in cc) in
      let rest =
        unheld-Reaches left i r at unclosed refl (update_other s.threads j local i other ∙ waits) in
      (rest.0, Steps-append (later stays (in_thread (leaves j q (inl at) leaving))) rest.1, rest.2)

  working-Reaches :
      (s : System State) (i j : ℕ) (r q : Request)
      → s.stage ≡ quiet
      → s.is_closed ≡ false
      → s.threads j ≡ Phase.working q
      → s.threads i ≡ Phase.enter r
      → Reaches s i r
  unfolding Reaches
  working-Reaches s i j r q at unclosed working waits =
      let e : Entry = record { by = j; request = q; result = (call store q (s.begun j)).0 } in
      let called : System State = record s {
        threads = update s.threads j (Phase.leave q);
        store = (call store q (s.begun j)).1;
        log = s.log ++ e ∷ [];
      } in
      let other : i ≢ j = λ e. (let same = ap s.threads e in cc) in
      let rest =
        leave-Reaches called i j r q at unclosed (update_self s.threads j (Phase.leave q))
          (update_other s.threads j (Phase.leave q) i other ∙ waits) in
      let (t, steps, (others, result, same)) = rest in
      let before =
        append-append s.log (e ∷ [])
          (others ++ record { by = i; request = r; result = result } ∷ []) in
      (
        t,
        Steps-append (later stays (in_thread (calls j q (inl at) working unclosed))) steps,
        (e ∷ others, result, same ∙ before),
      )

  inside-Reaches :
      (s : System State) (i j : ℕ) (r q : Request)
      → s.stage ≡ quiet
      → s.is_closed ≡ false
      → s.threads j ≡ Phase.inside q
      → s.threads i ≡ Phase.enter r
      → Reaches s i r
  unfolding Reaches
  inside-Reaches s i j r q at unclosed inside waits =
      let begun : System State = record s {
        threads = update s.threads j (Phase.working q);
        begun = update s.begun j s.store;
      } in
      let other : i ≢ j = λ e. (let same = ap s.threads e in cc) in
      let rest =
        working-Reaches begun i j r q at unclosed (update_self s.threads j (Phase.working q))
          (update_other s.threads j (Phase.working q) i other ∙ waits) in
      (rest.0, Steps-append (later stays (in_thread (begins j q (inl at) inside))) rest.1, rest.2)

  held-Reaches :
      (s : System State) (i j : ℕ) (r : Request) (p : Phase)
      → s.stage ≡ quiet
      → s.is_closed ≡ false
      → s.threads j ≡ p
      → InSection p
      → s.threads i ≡ Phase.enter r
      → Reaches s i r
  held-Reaches s i j r (Phase.inside q) at unclosed where' ins waits =
      inside-Reaches s i j r q at unclosed where' waits
  held-Reaches s i j r (Phase.working q) at unclosed where' ins waits =
      working-Reaches s i j r q at unclosed where' waits
  held-Reaches s i j r (Phase.leave q) at unclosed where' ins waits =
      leave-Reaches s i j r q at unclosed where' waits
  held-Reaches s i j r (Phase.enter q) at unclosed where' ins waits = absurd ins
  held-Reaches s i j r absent at unclosed where' ins waits = absurd ins
  held-Reaches s i j r local at unclosed where' ins waits = absurd ins
  held-Reaches s i j r exited at unclosed where' ins waits = absurd ins

  owner-Reaches :
      (s : System State) (i : ℕ) (r : Request) (m : Option Owner)
      → s.mutex ≡ m
      → Guarded s
      → s.stage ≡ quiet
      → s.is_closed ≡ false
      → s.threads i ≡ Phase.enter r
      → Reaches s i r
  owner-Reaches s i r none held g at unclosed waits = unheld-Reaches s i r at unclosed held waits
  owner-Reaches s i r (some (thread j)) held g at unclosed waits =
      held-Reaches s i j r (s.threads j) at unclosed refl (g.held_by j held) waits
  owner-Reaches s i r (some handler) held g at unclosed waits =
      absurd (subst InHandler at (g.handled_by held))

  -- From every state that is reached and in which no signal has come, a thread that waits for the mutex
  -- can get it, whoever holds it, and make its call of the store.
  pub waiting-IsServed :
      (st : State) (s : System State) (i : ℕ) (r : Request)
      → Steps store (init store st) s
      → s.stage ≡ quiet
      → s.threads i ≡ Phase.enter r
      → (t : System State) × (Steps store s t) × (IsServed s t i r)
  unfolding Reaches
  waiting-IsServed st s i r run at waits =
      let g = Steps-Guarded store run (init-Guarded store st) in
      let unclosed : s.is_closed ≡ false = elim (Bool-cases s.is_closed) [
        | inl closed ↦ absurd (subst IsShut at (g.shut closed))
        | inr unclosed ↦ unclosed
      ] in
      owner-Reaches s i r s.mutex refl g at unclosed waits
