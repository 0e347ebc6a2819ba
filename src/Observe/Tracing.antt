-- ===== src/Observe/Tracing.antt =====
-- The tasks of an observation that only report a span (intelligence/timing.py), and code between the
-- start and the end of one.
use segnog.Prelude.{Bool, Option, none, some, List, ◌≡◌, String, false}
use segnog.Exec.{Exec}
use segnog.Exec.Triples.{Ends, Triple, Triple-pure, Triple-bind}
use segnog.Sessions.{Server}
use segnog.Observe.{Service, Task, works, span_start, span_end, spawn, traced, on_server}

-- A condition on the server, and the tasks that do more than report a span.
abbrev pub With : (Server → Type 0) → List Task → Service → Type 0
With P tasks s = P s.server × (works s.tasks ≡ tasks)

module _ {A : Type 0} {P X : Server → Type 0} {Q : A → Server → Type 0} where
  -- Code on the server starts no task.
  pub Triple-on_server :
      (m : Exec Server A) (tasks : List Task)
      → Triple P m Q X
      → Triple (With P tasks) (on_server m) (λ a. With (Q a) tasks) (With X tasks)
  unfolding on_server
  Triple-on_server m tasks t = record {
    at = λ s h. ends s (m s.server).0 (m s.server).1 (t.at s.server h.0) h.1;
  }
    where
      ends :
          (s : Service) (server : Server) (r : Option A)
          → Ends Q X server r
          → works s.tasks ≡ tasks
          → Ends (λ a. With (Q a) tasks) (With X tasks) (record s { server = server }) r
      ends s server none h e = (h, e)
      ends s server (some a) h e = (h, e)

module _ (P : Server → Type 0) {X : Service → Type 0} (tasks : List Task) where
  -- The tasks for a span do not count.
  pub Triple-span_start :
      (step : String) → Triple (With P tasks) (spawn (span_start step)) (λ _. With P tasks) X
  unfolding spawn works
  Triple-span_start step = record { at = λ s h. h }

  pub Triple-span_end :
      (step : String) (error : Bool)
      → Triple (With P tasks) (spawn (span_end step error)) (λ _. With P tasks) X
  unfolding spawn works
  Triple-span_end step error = record { at = λ s h. h }

module _ {A : Type 0} (P : Server → Type 0) (Q : A → Server → Type 0) {X : Service → Type 0} where
  pub Triple-traced :
      (step : String) (m : Exec Service A) (tasks : List Task)
      → Triple (With P tasks) m (λ a. With (Q a) tasks) X
      → Triple (With P tasks) (traced step m) (λ a. With (Q a) tasks) X
  unfolding traced
  Triple-traced step m tasks t =
      Triple-bind (spawn (span_start step)) _ (λ _. With P tasks) (Triple-span_start P tasks step)
        (λ _.
          Triple-bind m _ (λ a. With (Q a) tasks) t
            (λ a.
              Triple-bind (spawn (span_end step false)) _ (λ _. With (Q a) tasks)
                (Triple-span_end (Q a) tasks step false) (λ _. Triple-pure a (λ s h. h))))
