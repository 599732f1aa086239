-- ===== src/Server/Threads/Signal.antt =====
-- The handler of SIGINT of main/myjqlserver.c, and the calls of the store: the invariant of the mutex.
use simple_redis_database.Common.{ℕ, ◌≡◌, refl, sym, subst, true, none, some, List}
use simple_redis_database.Server.Threads.{
  Stage, quiet, clean_up, gone, Place, handler, Entry, System,
}
use simple_redis_database.Server.Threads.Guard.{InSection, InHandler, IsShut, IsLeft, Guarded}

shut-IsLeft : (g : Stage) → IsShut g → (InHandler g → ⊥) → IsLeft g
shut-IsLeft Stage.leave p out = out tt
shut-IsLeft clean_up p out = tt
shut-IsLeft gone p out = tt
shut-IsLeft quiet p out = p
shut-IsLeft Stage.enter p out = p
shut-IsLeft Stage.inside p out = p

module _ {S : Type 0} where
  pub undefined-Guarded :
      (s : System S) (i : ℕ)
      → InSection (s.threads i)
      → s.is_closed ≡ true
      → Guarded s
      → Guarded (record s { is_undefined = true })
  undefined-Guarded s i ins shut g = record {
    held = g.held;
    held_by = g.held_by;
    handled = g.handled;
    handled_by = g.handled_by;
    shut = g.shut;
    unshut = g.unshut;
    misused = λ e.
        shut-IsLeft s.stage (g.shut shut)
          (λ h. (let m = g.handled h in let n = g.held i ins in cc));
  }

  pub called-Guarded :
      (s : System S) (st : S) (begun : ℕ → S) (log : List Entry)
      → Guarded s
      → Guarded (record s { store = st; begun = begun; log = log })
  called-Guarded s st begun log g = record {
    held = g.held;
    held_by = g.held_by;
    handled = g.handled;
    handled_by = g.handled_by;
    shut = g.shut;
    unshut = g.unshut;
    misused = g.misused;
  }

  -- The handler goes on, with the mutex or without.
  pub stage-Guarded :
      (s : System S) (a b : Stage) (t : Place)
      → s.stage ≡ a
      → (InHandler b → InHandler a)
      → (InHandler a → InHandler b)
      → (IsShut a → IsShut b)
      → (IsShut b → IsShut a)
      → (IsLeft a → IsLeft b)
      → Guarded s
      → Guarded (record s { stage = b; place = t })
  stage-Guarded s a b t at down up shuts shut_before left g = record {
    held = g.held;
    held_by = g.held_by;
    handled = λ h. g.handled (subst InHandler (sym at) (down h));
    handled_by = λ m. up (subst InHandler at (g.handled_by m));
    shut = λ e. shuts (subst IsShut at (g.shut e));
    unshut = λ e p. g.unshut e (subst IsShut (sym at) (shut_before p));
    misused = λ e. left (subst IsLeft at (g.misused e));
  }

  pub handler_enters-Guarded :
      (s : System S)
      → s.stage ≡ Stage.enter
      → s.mutex ≡ none
      → Guarded s
      → Guarded (record s { stage = Stage.inside; mutex = some handler })
  handler_enters-Guarded s at free g = record {
    held = λ i h. (let m = g.held i h in cc);
    held_by = λ i m. cc;
    handled = λ h. refl;
    handled_by = λ m. tt;
    shut = λ e. subst IsShut at (g.shut e);
    unshut = λ e p. p;
    misused = λ e. subst IsLeft at (g.misused e);
  }

  pub handler_closes-Guarded :
      (s : System S)
      → s.stage ≡ Stage.inside
      → Guarded s
      → Guarded (record s { stage = Stage.leave; is_closed = true })
  handler_closes-Guarded s at g = record {
    held = g.held;
    held_by = g.held_by;
    handled = λ h. g.handled (subst InHandler (sym at) tt);
    handled_by = λ m. tt;
    shut = λ e. tt;
    unshut = λ e p. cc;
    misused = λ e. absurd (subst IsLeft at (g.misused e));
  }

  pub handler_leaves-Guarded :
      (s : System S)
      → s.stage ≡ Stage.leave
      → Guarded s
      → Guarded (record s { stage = clean_up; mutex = none })
  handler_leaves-Guarded s at g =
      let mine = g.handled (subst InHandler (sym at) tt) in
      record {
        held = λ i h. (let m = g.held i h in cc);
        held_by = λ i m. cc;
        handled = λ h. absurd h;
        handled_by = λ m. cc;
        shut = λ e. tt;
        unshut = λ e p. g.unshut e (subst IsShut (sym at) tt);
        misused = λ e. tt;
      }
