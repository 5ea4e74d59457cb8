-- ===== src/Runs/Steps/Cancelled.antt =====
-- A run of backend/graph/executor.py that is cancelled while it waits.

use lluna.Prelude.{String, ◌≡◌, refl, subst, true, false, List, arith, inl, inr, Bool-cases}
use lluna.Prelude.Key.{string_key, ◌==◌}
use lluna.Prelude.Sets.{elem, elem_tail}
use lluna.Prelude.Dict.{get?, get?-modify}
use lluna.Runs.Manager.{write}
use lluna.Runs.Steps.{
  System, Step, starts, writes, refreshes, shuts_down, dispatches, begins, aborts, notes_paused,
  finishes, ends, Reach, here, next,
}
use lluna.Runs.Steps.Dropped.{
  holds, is_cancelled, IsDropped, refresh-IsDropped, start-IsDropped, is_cancelled-write,
  dispatch-IsDropped, begin_run-IsDropped, abort_run-IsDropped, note_paused-IsDropped,
  finish_run-IsDropped, end_run-IsDropped,
}

module _ (id : String) where
  record IsOut (s : System) : Type 0 where
    given : elem id s.used ≡ true
    dropped : IsDropped id s.manager

  apart :
      (run_id : String) (used : List String)
      → elem id used ≡ true
      → elem run_id used ≡ false
      → id == run_id ≡ false
  apart run_id used old new = elim (Bool-cases (id == run_id)) [
    | inl same ↦
        let gone = subst (λ i. elem i used ≡ true) ((string_key.test_iff id run_id).0 same) old in
        ground (arith, gone, new)
    | inr other ↦ other
  ]

  Step-IsOut : (s t : System) → Step s t → IsOut s → IsOut t
  Step-IsOut s t (starts run_id queue_front now new) h = record {
    given = elem_tail id run_id s.used h.given;
    dropped =
        start-IsDropped id run_id queue_front now s.manager (apart run_id s.used h.given new)
          h.dropped;
  }
  Step-IsOut s t (writes run_id w) h = record {
    given = h.given;
    dropped = (
      ground (
        arith,
        get?-modify run_id id (write w) s.manager.runs,
        is_cancelled-write id w (get? id s.manager.runs),
        h.dropped.0,
      ),
      h.dropped.1,
    );
  }
  Step-IsOut s t refreshes h = record {
    given = h.given;
    dropped = refresh-IsDropped id s.manager h.dropped;
  }
  Step-IsOut s t shuts_down h = record { given = h.given; dropped = h.dropped }
  Step-IsOut s t dispatches h = record {
    given = h.given;
    dropped = dispatch-IsDropped id s.manager h.dropped _ refl;
  }
  Step-IsOut s t begins h = record {
    given = h.given;
    dropped = begin_run-IsDropped id s.manager h.dropped _ refl;
  }
  Step-IsOut s t aborts h = record {
    given = h.given;
    dropped = abort_run-IsDropped id s.manager h.dropped _ refl;
  }
  Step-IsOut s t notes_paused h = record {
    given = h.given;
    dropped = note_paused-IsDropped id s.manager h.dropped _ refl;
  }
  Step-IsOut s t (finishes outcome now) h = record {
    given = h.given;
    dropped = finish_run-IsDropped id s.manager h.dropped outcome now _ refl;
  }
  Step-IsOut s t (ends limit) h = record {
    given = h.given;
    dropped = end_run-IsDropped id s.manager h.dropped limit _ refl;
  }

  -- A run whose id was given out, and which is cancelled or no longer known while the dispatcher
  -- does not stand at it, is never taken: in every later state, the dispatcher does not stand at it.
  pub cancelled_never_runs :
      (s t : System)
      → elem id s.used ≡ true
      → is_cancelled (get? id s.manager.runs) ≡ true
      → holds s.manager.dispatcher id ≡ false
      → Reach s t
      → holds t.manager.dispatcher id ≡ false
  cancelled_never_runs s t used gone free r = (out t r).dropped.1
    where
      out : (t : System) → Reach s t → IsOut t
      out t here = record { given = used; dropped = (gone, free) }
      out t (next {t = u} r step) = Step-IsOut u t step (out u r)
