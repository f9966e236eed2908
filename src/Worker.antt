-- ===== src/Worker.antt =====
-- internal/worker/pool.go: the pool of workers, as the steps that its goroutines may take. A task is
-- of any type; what runs is the work of a worker, and the error that a task returns is dropped. The
-- context is cancelled by `Shutdown` alone, after its wait.
pub mod Drained
pub mod Ends
use app_gocms.Prelude.{
  ℕ, suc, ◌+◌, ◌*◌, ◌<◌, ◌≡◌, Bool, true, false, Option, none, some, List, [], ◌∷◌, ◌++◌, length,
}

-- The workers that wait at the `select` and those that have returned, the buffered channel, the tasks
-- that run and those that ran, whether the channel is closed, and whether the context is cancelled.
pub record Pool (T : Type 0) : Type 0 where
  pub waiting : ℕ
  pub returned : ℕ
  pub tasks : List T
  pub running : List T
  pub finished : List T
  pub closed : Bool
  pub cancelled : Bool

-- `New`
abbrev pub new_pool : {T : Type 0} → ℕ → Pool T
new_pool concurrency = record {
  waiting = concurrency;
  returned = 0;
  tasks = [];
  running = [];
  finished = [];
  closed = false;
  cancelled = false;
}

-- One step of a pool that was made with the given concurrency, and the task that it accepts, if any.
pub data Step {T : Type 0} (concurrency : ℕ) : Pool T → Option T → Pool T → Type 0 where
  -- `Submit`: the channel has room for twice as many tasks as there are workers.
  submit :
      (s : Pool T) (t : T)
      → s.closed ≡ false
      → length s.tasks < 2 * concurrency
      → Step concurrency s (some t) (record s { tasks = s.tasks ++ t ∷ [] })
  -- `task, ok := <-p.tasks`, with a task
  receive :
      (s : Pool T) (n : ℕ) (t : T) (rest : List T)
      → s.waiting ≡ suc n
      → s.tasks ≡ t ∷ rest
      → Step concurrency s none (record s { waiting = n; tasks = rest; running = t ∷ s.running })
  -- A task returns, and its worker goes back to the `select`.
  finish :
      (s : Pool T) (before after : List T) (t : T)
      → s.running ≡ before ++ t ∷ after
      → Step concurrency s none (record s {
        waiting = suc s.waiting;
        running = before ++ after;
        finished = t ∷ s.finished;
      })
  -- `close(p.tasks)` of the first `Shutdown`
  close : (s : Pool T) → s.closed ≡ false → Step concurrency s none (record s { closed = true })
  -- A worker receives from the channel that is closed and empty.
  leave :
      (s : Pool T) (n : ℕ)
      → s.waiting ≡ suc n
      → s.closed ≡ true
      → s.tasks ≡ []
      → Step concurrency s none (record s { waiting = n; returned = suc s.returned })
  -- `p.wg.Wait()` is over, and `p.cancel()` is called.
  cancel :
      (s : Pool T)
      → s.closed ≡ true
      → s.returned ≡ concurrency
      → Step concurrency s none (record s { cancelled = true })

abbrev pub accept : {T : Type 0} → Option T → List T → List T
accept none ts = ts
accept (some t) ts = t ∷ ts

-- The pools that can be reached, and the tasks that were accepted, the newest first.
pub data Reaches {T : Type 0} (concurrency : ℕ) : List T → Pool T → Type 0 where
  start : Reaches concurrency [] (new_pool concurrency)
  go :
      (accepted : List T) (s : Pool T) (o : Option T) (s' : Pool T)
      → Reaches concurrency accepted s
      → Step concurrency s o s'
      → Reaches concurrency (accept o accepted) s'
