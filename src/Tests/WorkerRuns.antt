-- ===== src/Tests/WorkerRuns.antt =====
-- A run of the pool: one worker, one task, and the end of the pool.
use app_gocms.Prelude.{ℕ, ◌+◌, ◌≤◌, ◌≡◌, refl, true, eqb, none, some, [], ◌∷◌, arith, length}
use app_gocms.Worker.{
  Pool, new_pool, submit, receive, finish, close, leave, cancel, Reaches, start, go,
}
use app_gocms.Worker.Ends.{steps_left, Runs, then, here, closed_run_bounded, shutdown_ends}
use app_gocms.Worker.Drained.{tally, IsSteady, Reaches-IsSteady, shutdown_finished}

abbrev one : Pool ℕ
one = new_pool 1

abbrev submitted : Pool ℕ
submitted = record one { tasks = 7 ∷ [] }

abbrev at_work : Pool ℕ
at_work = record one { waiting = 0; running = 7 ∷ [] }

abbrev done : Pool ℕ
done = record one { finished = 7 ∷ [] }

abbrev shut : Pool ℕ
shut = record done { closed = true }

abbrev left : Pool ℕ
left = record shut { waiting = 0; returned = 1 }

abbrev over : Pool ℕ
over = record left { cancelled = true }

at_work-Reaches : Reaches 1 (7 ∷ []) at_work
at_work-Reaches =
    go (7 ∷ []) submitted none at_work
      (go [] one (some 7) submitted start (submit one 7 refl (omega arith)))
      (receive submitted 0 7 [] refl refl)

over-Reaches : Reaches 1 (7 ∷ []) over
over-Reaches =
    go (7 ∷ []) left none over
      (go (7 ∷ []) shut none left
        (go (7 ∷ []) done none shut
          (go (7 ∷ []) at_work none done at_work-Reaches (finish at_work [] [] 7 refl))
          (close done refl))
        (leave shut 0 refl refl refl))
      (cancel left refl refl)

Reaches-IsSteady_example : IsSteady 1 (eqb 7) (7 ∷ []) at_work
Reaches-IsSteady_example = Reaches-IsSteady 1 (eqb 7) (7 ∷ []) at_work at_work-Reaches

shutdown_finished_example :
    (length over.tasks ≡ 0)
    × (length over.running ≡ 0)
    × (tally (eqb 7) (7 ∷ []) ≡ tally (eqb 7) over.finished)
shutdown_finished_example = shutdown_finished 1 (eqb 7) (7 ∷ []) over over-Reaches refl

-- The channel is closed while the task runs.
abbrev shut_at_work : Pool ℕ
shut_at_work = record at_work { closed = true }

shut_at_work-Reaches : Reaches 1 (7 ∷ []) shut_at_work
shut_at_work-Reaches = go (7 ∷ []) at_work none shut_at_work at_work-Reaches (close at_work refl)

closed_run_bounded_example : 2 + steps_left left ≤ steps_left shut_at_work
closed_run_bounded_example =
    closed_run_bounded 1 2 shut_at_work left
      (then 1 shut_at_work none shut left (finish shut_at_work [] [] 7 refl)
        (then 0 shut none left left (leave shut 0 refl refl refl) (here left)))
      refl refl

shutdown_ends_example :
    (n : ℕ) × (t : Pool ℕ) × Runs 1 n shut_at_work t
    × Reaches 1 (7 ∷ []) t
    × (t.cancelled ≡ true)
    × (length t.tasks ≡ 0)
    × (length t.running ≡ 0)
    × (tally (eqb 7) (7 ∷ []) ≡ tally (eqb 7) t.finished)
shutdown_ends_example = shutdown_ends 1 (eqb 7) (7 ∷ []) shut_at_work shut_at_work-Reaches refl
