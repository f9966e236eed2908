-- ===== src/Worker/Ends.antt =====
-- Shutdowns end: a pool whose channel is closed can always go on until its context is cancelled, and
-- takes a bounded number of steps.
use app_gocms.Prelude.{
  ℕ, zero, suc, ◌+◌, ◌*◌, ◌≤◌, ◌<◌, ◌≡◌, ◌⊎◌, inl, inr, refl, sym, ap, ◌∙◌, Bool, true, false,
  Option, none, List, [], ◌∷◌, length, length-append, arith,
}
use app_gocms.Worker.{Pool, Step, submit, receive, finish, close, leave, cancel, Reaches, go}
use app_gocms.Worker.Drained.{IsSteady, Reaches-IsSteady, tally, shutdown_finished}

module _ {T : Type 0} where
  -- The steps that are left before the cancellation, when nothing is submitted any more.
  unfoldable pub steps_left : Pool T → ℕ
  steps_left s = 3 * length s.tasks + 2 * length s.running + s.waiting

  -- A number of steps, one after the other, and what they accept.
  pub data Runs (concurrency : ℕ) : ℕ → Pool T → Pool T → Type 0 where
    here : (s : Pool T) → Runs concurrency 0 s s
    then :
        (n : ℕ) (s : Pool T) (o : Option T) (t u : Pool T)
        → Step concurrency s o t
        → Runs concurrency n t u
        → Runs concurrency (suc n) s u

  module _ (concurrency : ℕ) where
    -- A step of a closed pool keeps it closed, and either cancels it or leaves fewer steps.
    record Descends (s t : Pool T) : Type 0 where
      closed : t.closed ≡ true
      fewer : (t.cancelled ≡ true) ⊎ (suc (steps_left t) ≤ steps_left s)
      kept : s.cancelled ≡ true → t.cancelled ≡ true

    step-Descends :
        (s t : Pool T) (o : Option T) → Step concurrency s o t → s.closed ≡ true → Descends s t
    unfolding steps_left
    step-Descends _ _ _ (submit s t opened room) shut = absurd (ground (arith, sym opened ∙ shut))
    step-Descends _ _ _ (receive s n t rest one some_task) shut = record {
      closed = shut;
      fewer = inr (omega (arith, ap length some_task));
      kept = λ over. over;
    }
    step-Descends _ _ _ (finish s before after t now) shut = record {
      closed = shut;
      fewer = inr (
          omega
            (arith, ap length now ∙ length-append before (t ∷ after), length-append before after));
      kept = λ over. over;
    }
    step-Descends _ _ _ (close s opened) shut = absurd (ground (arith, sym opened ∙ shut))
    step-Descends _ _ _ (leave s n one _ none_left) shut = record {
      closed = shut;
      fewer = inr (omega arith);
      kept = λ over. over;
    }
    step-Descends _ _ _ (cancel s _ all) shut = record {
      closed = shut;
      fewer = inl refl;
      kept = λ over. refl;
    }

    kept_by-Runs :
        (n : ℕ) (s u : Pool T)
        → Runs concurrency n s u
        → s.closed ≡ true
        → s.cancelled ≡ true
        → u.cancelled ≡ true
    kept_by-Runs _ _ _ (here s) shut over = over
    kept_by-Runs _ _ _ (then n s o t u step rest) shut over =
        let d = step-Descends s t o step shut in kept_by-Runs n t u rest d.closed (d.kept over)

    -- After the channel is closed, as long as the context is not cancelled, a pool takes at most as
    -- many steps as three for each task in the channel, two for each that runs, and one for each
    -- worker that waits, whatever the order of the steps: the wait of `Shutdown` is over then.
    pub closed_run_bounded :
        (n : ℕ) (s u : Pool T)
        → Runs concurrency n s u
        → s.closed ≡ true
        → u.cancelled ≡ false
        → n + steps_left u ≤ steps_left s
    closed_run_bounded _ _ _ (here s) shut runs = omega arith
    closed_run_bounded _ _ _ (then n s o t u step rest) shut runs =
        let d = step-Descends s t o step shut in
        elim d.fewer [
          | inl over ↦ absurd (ground (arith, sym (kept_by-Runs n t u rest d.closed over) ∙ runs))
          | inr less ↦ omega (arith, closed_run_bounded n t u rest d.closed runs, less)
        ]

    -- A worker can always go on with a closed pool: a task that runs returns; else a worker that waits
    -- receives a task or leaves; else all have returned.
    data Next (s : Pool T) : Type 0 where
      next : (t : Pool T) → Step concurrency s none t → Next s

    ends_or_steps :
        (accepted : List T) (s : Pool T) (tasks running : List T) (waiting : ℕ)
        → IsSteady concurrency (λ t. true) accepted s
        → s.closed ≡ true
        → s.tasks ≡ tasks
        → s.running ≡ running
        → s.waiting ≡ waiting
        → Next s
    ends_or_steps accepted s tasks (t ∷ rest) waiting h shut queue work idle =
        next _ (finish s [] rest t work)
    ends_or_steps accepted s (t ∷ rest) [] (suc n) h shut queue work idle =
        next _ (receive s n t rest idle queue)
    ends_or_steps accepted s [] [] (suc n) h shut queue work idle =
        next _ (leave s n idle shut queue)
    ends_or_steps accepted s tasks [] zero h shut queue work idle =
        next _ (cancel s shut (omega (arith, h.workers, idle, ap length work)))

    ends_within :
        (fuel : ℕ) (accepted : List T) (s : Pool T)
        → Reaches concurrency accepted s
        → s.closed ≡ true
        → steps_left s < fuel
        → (n : ℕ) × (t : Pool T) × Runs concurrency n s t
          × Reaches concurrency accepted t
          × (t.cancelled ≡ true)
    ends_within zero accepted s reached shut enough = absurd (omega (arith, enough))
    ends_within (suc fuel) accepted s reached shut enough =
        elim (ends_or_steps accepted s s.tasks s.running s.waiting
          (Reaches-IsSteady concurrency (λ t. true) accepted s reached) shut refl refl refl) [
            | next t step ↦
                let d = step-Descends s t none step shut in
                let there = go accepted s none t reached step in
                elim d.fewer [
                  | inl over ↦ (1, t, then 0 s none t t step (here t), there, over)
                  | inr less ↦
                      let (n, u, run, then_there, over) =
                        ends_within fuel accepted t there d.closed (omega (arith, less, enough)) in
                      (suc n, u, then n s none t u step run, then_there, over)
                ]
          ]

    -- From every pool that can be reached with its channel closed, some steps lead on, from that very
    -- pool, to a pool whose context is cancelled, with nothing more accepted; and then no task is
    -- left and every accepted task has run, just once.
    pub shutdown_ends :
        (p : T → Bool) (accepted : List T) (s : Pool T)
        → Reaches concurrency accepted s
        → s.closed ≡ true
        → (n : ℕ) × (t : Pool T) × Runs concurrency n s t
          × Reaches concurrency accepted t
          × (t.cancelled ≡ true)
          × (length t.tasks ≡ 0)
          × (length t.running ≡ 0)
          × (tally p accepted ≡ tally p t.finished)
    shutdown_ends p accepted s reached shut =
        let (n, t, run, there, over) =
          ends_within (suc (steps_left s)) accepted s reached shut (omega arith) in
        let (empty, idle, ran) = shutdown_finished concurrency p accepted t there over in
        (n, t, run, there, over, empty, idle, ran)
