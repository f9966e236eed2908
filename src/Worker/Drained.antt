-- ===== src/Worker/Drained.antt =====
-- What holds of every pool that can be reached: no task is lost or run twice, and none is left when
-- the pool has shut down.
use app_gocms.Prelude.{
  ℕ, suc, ◌+◌, ◌*◌, ◌≤◌, ◌≡◌, ◌⊎◌, inl, inr, refl, sym, ap, ◌∙◌, Bool, true, false, Option, List,
  [], ◌∷◌, ◌++◌, length, length-append, arith, if◌then◌else◌,
}
use app_gocms.Worker.{
  Pool, new_pool, Step, submit, receive, finish, close, leave, cancel, accept, Reaches, start, go,
}

module _ {T : Type 0} where
  -- How many of the tasks pass a test.
  pub tally : (T → Bool) → List T → ℕ
  tally p [] = 0
  tally p (t ∷ ts) = if p t then suc (tally p ts) else tally p ts

  tally-append : (p : T → Bool) (xs ys : List T) → tally p (xs ++ ys) ≡ tally p xs + tally p ys
  unfolding tally
  tally-append p [] ys = omega arith
  tally-append p (x ∷ xs) ys = ground (arith, tally-append p xs ys)

  -- The workers are accounted for, the channel is within its capacity, and every accepted task
  -- waits, runs or ran.
  pub record IsSteady (concurrency : ℕ) (p : T → Bool) (accepted : List T) (s : Pool T)
      : Type 0 where
    pub workers : s.waiting + length s.running + s.returned ≡ concurrency
    pub within : length s.tasks ≤ 2 * concurrency
    pub counted : tally p accepted ≡ tally p s.tasks + tally p s.running + tally p s.finished
    pub drained : (s.returned ≡ 0) ⊎ ((s.closed ≡ true) × (s.tasks ≡ []))
    pub ended : (s.cancelled ≡ false) ⊎ ((s.closed ≡ true) × (s.returned ≡ concurrency))

  module _ (concurrency : ℕ) (p : T → Bool) where
    step-IsSteady :
        (accepted : List T) (s : Pool T) (o : Option T) (s' : Pool T)
        → Step concurrency s o s'
        → IsSteady concurrency p accepted s
        → IsSteady concurrency p (accept o accepted) s'
    unfolding tally
    step-IsSteady accepted _ _ _ (submit s t opened room) h = record {
      workers = h.workers;
      within = omega (arith, length-append s.tasks (t ∷ []));
      counted = ground (arith, tally-append p s.tasks (t ∷ []), h.counted);
      drained = ground (arith, h.drained);
      ended = h.ended;
    }
    step-IsSteady accepted _ _ _ (receive s n t rest one some_task) h = record {
      workers = omega (arith, h.workers);
      within = omega (arith, ap length some_task, h.within);
      counted = ground (arith, ap (tally p) some_task, h.counted);
      drained = elim h.drained [
        | inl nobody ↦ inl nobody
        | inr (shut, empty) ↦ absurd (ground (arith, sym empty ∙ some_task))
      ];
      ended = h.ended;
    }
    step-IsSteady accepted _ _ _ (finish s before after t here) h = record {
      workers = omega (
        arith,
        ap length here ∙ length-append before (t ∷ after),
        length-append before after,
        h.workers,
      );
      within = h.within;
      counted = ground (
        arith,
        ap (tally p) here ∙ tally-append p before (t ∷ after),
        tally-append p before after,
        h.counted,
      );
      drained = h.drained;
      ended = h.ended;
    }
    step-IsSteady accepted _ _ _ (close s opened) h = record {
      workers = h.workers;
      within = h.within;
      counted = h.counted;
      drained = elim h.drained [ inl nobody ↦ inl nobody | inr (shut, empty) ↦ inr (refl, empty) ];
      ended = elim h.ended [ inl runs ↦ inl runs | inr (shut, all) ↦ inr (refl, all) ];
    }
    step-IsSteady accepted _ _ _ (leave s n one shut none_left) h = record {
      workers = omega (arith, h.workers);
      within = h.within;
      counted = h.counted;
      drained = inr (shut, none_left);
      ended = elim h.ended [
        | inl runs ↦ inl runs
        | inr (closed, all) ↦ absurd (omega (arith, h.workers, one, all))
      ];
    }
    step-IsSteady accepted _ _ _ (cancel s shut all) h = record {
      workers = h.workers;
      within = h.within;
      counted = h.counted;
      drained = h.drained;
      ended = inr (shut, all);
    }

    new_pool-IsSteady : IsSteady concurrency p [] (new_pool concurrency)
    unfolding tally
    new_pool-IsSteady = record {
      workers = omega arith;
      within = omega arith;
      counted = omega arith;
      drained = inl refl;
      ended = inl refl;
    }

    -- Whatever the order of the steps: every worker waits, runs a task or has returned; the channel
    -- holds at most twice as many tasks as there are workers; and of the accepted tasks that pass a
    -- test, each waits in the channel, runs, or ran, once.
    pub Reaches-IsSteady :
        (accepted : List T) (s : Pool T)
        → Reaches concurrency accepted s
        → IsSteady concurrency p accepted s
    Reaches-IsSteady _ _ start = new_pool-IsSteady
    Reaches-IsSteady _ _ (go accepted s o s' reached step) =
        step-IsSteady accepted s o s' step (Reaches-IsSteady accepted s reached)

  no_tasks : (p : T → Bool) (ts : List T) → length ts ≤ 0 → tally p ts ≡ 0
  unfolding tally
  no_tasks p [] h = refl
  no_tasks p (t ∷ ts) h = absurd (omega (arith, h))

  -- When the context of a pool is cancelled, every accepted task has run, just once, and none is
  -- left in the channel or runs.
  pub shutdown_finished :
      (concurrency : ℕ) (p : T → Bool) (accepted : List T) (s : Pool T)
      → Reaches concurrency accepted s
      → s.cancelled ≡ true
      → (length s.tasks ≡ 0) × (length s.running ≡ 0) × (tally p accepted ≡ tally p s.finished)
  shutdown_finished concurrency p accepted s reached over =
      let h = Reaches-IsSteady concurrency p accepted s reached in
      let all : s.returned ≡ concurrency = elim h.ended [
        | inl runs ↦ absurd (ground (arith, sym runs ∙ over))
        | inr (shut, all) ↦ all
      ] in
      let empty : length s.tasks ≡ 0 = elim h.drained [
        | inl nobody ↦ omega (arith, h.within, nobody, all)
        | inr (shut, none_left) ↦ ap length none_left
      ] in
      let idle : length s.running ≡ 0 = omega (arith, h.workers, all) in
      (
        empty,
        idle,
        omega (
          arith,
          h.counted,
          no_tasks p s.tasks (omega (arith, empty)),
          no_tasks p s.running (omega (arith, idle)),
        ),
      )
