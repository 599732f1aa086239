-- ===== src/Server/Threads/Guard.antt =====
-- The mutex of main/myjqlserver.c: who holds it, as an invariant of each change of the system.
use simple_redis_database.Common.{
  ℕ, ◌≡◌, ◌≢◌, ◌⊎◌, inl, inr, refl, sym, ap, subst, ◌∙◌, true, false, none, some, ◌==◌, ==→eq,
  ==→ne, Bool-cases,
}
use simple_redis_database.Common.Run.{update}
use simple_redis_database.Server.{Store}
use simple_redis_database.Server.Protocol.{Request}
use simple_redis_database.Server.Threads.{
  Phase, absent, local, exited, Stage, quiet, clean_up, gone, thread, handler, System, init,
}

-- The thread holds the mutex.
abbrev pub InSection : Phase → Type 0
InSection (Phase.inside r) = Unit
InSection (Phase.working r) = Unit
InSection (Phase.leave r) = Unit
InSection (Phase.enter r) = ⊥
InSection absent = ⊥
InSection local = ⊥
InSection exited = ⊥

abbrev pub InHandler : Stage → Type 0
InHandler Stage.inside = Unit
InHandler Stage.leave = Unit
InHandler Stage.enter = ⊥
InHandler quiet = ⊥
InHandler clean_up = ⊥
InHandler gone = ⊥

-- myjql_close was called.
abbrev pub IsShut : Stage → Type 0
IsShut Stage.leave = Unit
IsShut clean_up = Unit
IsShut gone = Unit
IsShut quiet = ⊥
IsShut Stage.enter = ⊥
IsShut Stage.inside = ⊥

-- The handler is behind its critical section.
abbrev pub IsLeft : Stage → Type 0
IsLeft clean_up = Unit
IsLeft gone = Unit
IsLeft Stage.leave = ⊥
IsLeft quiet = ⊥
IsLeft Stage.enter = ⊥
IsLeft Stage.inside = ⊥

-- The mutex is held by the one thread that is in its critical section, or by the handler when that is
-- in its own; the store is closed from the call of the handler on, and is used after that only when
-- the handler has left.
pub record Guarded {S : Type 0} (s : System S) : Type 0 where
  pub held : (i : ℕ) → InSection (s.threads i) → s.mutex ≡ some (thread i)
  pub held_by : (i : ℕ) → s.mutex ≡ some (thread i) → InSection (s.threads i)
  pub handled : InHandler s.stage → s.mutex ≡ some handler
  pub handled_by : s.mutex ≡ some handler → InHandler s.stage
  pub shut : s.is_closed ≡ true → IsShut s.stage
  pub unshut : s.is_closed ≡ false → IsShut s.stage → ⊥
  pub misused : s.is_undefined ≡ true → IsLeft s.stage

pub update-cases :
    {A : Type 0} (f : ℕ → A) (i : ℕ) (a : A) (j : ℕ)
    → ((j ≡ i) × (update f i a j ≡ a)) ⊎ ((j ≢ i) × (update f i a j ≡ f j))
update-cases f i a j = elim (Bool-cases (j == i)) [
  | inl same ↦ inl (==→eq j i same, rw same refl)
  | inr other ↦ inr (==→ne j i other, rw other refl)
]

pub init-Guarded : (store : Store) (s : store.State) → Guarded (init store s)
init-Guarded store s = record {
  held = λ i p. absurd p;
  held_by = λ i e. cc;
  handled = λ p. absurd p;
  handled_by = λ e. cc;
  shut = λ e. cc;
  unshut = λ e p. p;
  misused = λ e. cc;
}

module _ {S : Type 0} where
  -- A thread outside goes to another place outside.
  pub outside-Guarded :
      (s : System S) (i : ℕ) (p q : Phase)
      → s.threads i ≡ p
      → (InSection p → ⊥)
      → (InSection q → ⊥)
      → Guarded s
      → Guarded (record s { threads = update s.threads i q })
  outside-Guarded s i p q at out out' g = record {
    held = λ j h. elim (update-cases s.threads i q j) [
      | inl (same, e) ↦ absurd (out' (subst InSection e h))
      | inr (other, e) ↦ g.held j (subst InSection e h)
    ];
    held_by = λ j m. elim (update-cases s.threads i q j) [
      | inl (same, e) ↦ absurd (out (subst InSection (ap s.threads same ∙ at) (g.held_by j m)))
      | inr (other, e) ↦ subst InSection (sym e) (g.held_by j m)
    ];
    handled = g.handled;
    handled_by = g.handled_by;
    shut = g.shut;
    unshut = g.unshut;
    misused = g.misused;
  }

  -- A thread inside goes to another place inside.
  pub inside-Guarded :
      (s : System S) (i : ℕ) (p q : Phase)
      → s.threads i ≡ p
      → InSection p
      → InSection q
      → Guarded s
      → Guarded (record s { threads = update s.threads i q })
  inside-Guarded s i p q at ins ins' g = record {
    held = λ j h. elim (update-cases s.threads i q j) [
      | inl (same, e) ↦ g.held j (subst InSection (sym (ap s.threads same ∙ at)) ins)
      | inr (other, e) ↦ g.held j (subst InSection e h)
    ];
    held_by = λ j m. elim (update-cases s.threads i q j) [
      | inl (same, e) ↦ subst InSection (sym e) ins'
      | inr (other, e) ↦ subst InSection (sym e) (g.held_by j m)
    ];
    handled = g.handled;
    handled_by = g.handled_by;
    shut = g.shut;
    unshut = g.unshut;
    misused = g.misused;
  }

  pub enters-Guarded :
      (s : System S) (i : ℕ) (r : Request)
      → s.mutex ≡ none
      → Guarded s
      → Guarded
          (record s { threads = update s.threads i (Phase.inside r); mutex = some (thread i) })
  enters-Guarded s i r free g = record {
    held = λ j h. elim (update-cases s.threads i (Phase.inside r) j) [
      | inl (same, e) ↦ ap (λ k. some (thread k)) (sym same)
      | inr (other, e) ↦ (let m = g.held j (subst InSection e h) in cc)
    ];
    held_by = λ j m. elim (update-cases s.threads i (Phase.inside r) j) [
      | inl (same, e) ↦ subst InSection (sym e) tt
      | inr (other, e) ↦ (let same : i ≡ j = cc in absurd (other (sym same)))
    ];
    handled = λ h. (let m = g.handled h in cc);
    handled_by = λ m. cc;
    shut = g.shut;
    unshut = g.unshut;
    misused = g.misused;
  }

  pub leaves-Guarded :
      (s : System S) (i : ℕ) (r : Request)
      → s.threads i ≡ Phase.leave r
      → Guarded s
      → Guarded (record s { threads = update s.threads i local; mutex = none })
  leaves-Guarded s i r at g =
      let mine = g.held i (subst InSection (sym at) tt) in
      record {
        held = λ j h. elim (update-cases s.threads i local j) [
          | inl (same, e) ↦ absurd (subst InSection e h)
          | inr (other, e) ↦
              (let m = g.held j (subst InSection e h) in
                let same : i ≡ j = cc in absurd (other (sym same)))
        ];
        held_by = λ j m. cc;
        handled = λ h. (let m = g.handled h in cc);
        handled_by = λ m. cc;
        shut = g.shut;
        unshut = g.unshut;
        misused = g.misused;
      }
