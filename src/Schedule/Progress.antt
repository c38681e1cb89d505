-- ===== src/Schedule/Progress.antt =====
-- Jobs are done in their order, each at most once, and all are done after enough idle periods.
use rowake.Prelude.{
  ℕ, suc, ◌+◌, ◌-◌, ◌≤◌, ◌≡◌, refl, sym, ap, ◌∙◌, subst, Text, Bool, true, false, Option, none,
  some, List, [], ◌∷◌, ◌++◌, map, arith, if◌then◌else◌, nat_eq_refl, length, append_assoc,
}
use rowake.Values.{Host}
use rowake.Schedule.{
  Job, Page, Task, Scheduler, apply_job, apply_jobs, format_chunk, task, schedule, cancel,
  frame_task, idle_task, some_jobs, Tick, frame, idle, tick, run_ticks,
}

module _ (h : Host) (locale : Text) where
  apply_jobs-append :
      (js ks : List Job) (page : Page)
      → apply_jobs h locale (js ++ ks) page ≡ apply_jobs h locale ks (apply_jobs h locale js page)
  unfolding apply_jobs
  apply_jobs-append [] ks page = refl
  apply_jobs-append (j ∷ js) ks page = apply_jobs-append js ks (apply_job h locale j page)

  -- A chunk does a first part of the jobs and leaves the others; if there are jobs, it does one.
  record IsChunk (jobs : List Job) (page : Page) (r : Page × List Job) : Type 0 where
    done : List Job
    split : done ++ r.1 ≡ jobs
    applied : r.0 ≡ apply_jobs h locale done page
    fewer : length r.1 ≤ length jobs
    progress : length r.1 ≤ length jobs - 1

  IsChunk-step :
      (b : Bool) (j : Job) (js : List Job) (page : Page) (rest : Page × List Job)
      → IsChunk js (apply_job h locale j page) rest
      → IsChunk (j ∷ js) page (if b then rest else (apply_job h locale j page, js))
  unfolding apply_jobs
  IsChunk-step true j js page rest c = record {
    done = j ∷ c.done;
    split = ap (j ∷◌) c.split;
    applied = c.applied;
    fewer = omega (arith, c.fewer);
    progress = omega (arith, c.fewer);
  }
  IsChunk-step false j js page rest c = record {
    done = j ∷ [];
    split = refl;
    applied = refl;
    fewer = omega arith;
    progress = omega arith;
  }

  format_chunk-IsChunk :
      (time : ℕ → Bool) (i : ℕ) (jobs : List Job) (page : Page)
      → IsChunk jobs page (format_chunk h locale time i jobs page)
  unfolding format_chunk apply_jobs
  format_chunk-IsChunk time i [] page = record {
    done = [];
    split = refl;
    applied = refl;
    fewer = omega arith;
    progress = omega arith;
  }
  format_chunk-IsChunk time i (j ∷ js) page =
      IsChunk-step (time i) j js page _
        (format_chunk-IsChunk time (suc i) js (apply_job h locale j page))

  -- The callback that has these jobs left; with none left there is no callback.
  abbrev idle_of : Scheduler → List Job → Option Task
  idle_of s left = some_jobs h (task h s []) left

  -- Where the callback stands.
  data Waits (left : List Job) (s : Scheduler) : Type 0 where
    for_frame : s.frame ≡ idle_of s left → s.idle ≡ none → Waits left s
    for_idle : s.frame ≡ none → s.idle ≡ idle_of s left → Waits left s

  -- What one idle period does.
  record IsStep (left : List Job) (s s' : Scheduler) : Type 0 where
    done : List Job
    left' : List Job
    split : done ++ left' ≡ left
    applied : s'.page ≡ apply_jobs h locale done s.page
    no_frame : s'.frame ≡ none
    waits : s'.idle ≡ idle_of s' left'
    progress : length left' ≤ length left - 1

  chunk-IsStep :
      (time : ℕ → Bool) (j : Job) (js : List Job) (s : Scheduler)
      → s.frame ≡ none
      → IsStep (j ∷ js) s (idle_task h locale time (some (task h s (j ∷ js))) s)
  unfolding idle_task
  chunk-IsStep time j js s no_frame =
      let c = format_chunk-IsChunk time 0 (j ∷ js) s.page in
      rw (nat_eq_refl s.generation, if◌then◌else◌)
        (record {
          done = c.done;
          left' = (format_chunk h locale time 0 (j ∷ js) s.page).1;
          split = c.split;
          applied = c.applied;
          no_frame = no_frame;
          waits = refl;
          progress = c.progress;
        })

  idle_task-IsStep :
      (time : ℕ → Bool) (left : List Job) (s : Scheduler) (o : Option Task)
      → s.idle ≡ o
      → s.frame ≡ none
      → o ≡ idle_of s left
      → IsStep left s (idle_task h locale time o s)
  unfolding idle_task apply_jobs
  idle_task-IsStep time [] s none here no_frame e = record {
    done = [];
    left' = [];
    split = refl;
    applied = refl;
    no_frame = no_frame;
    waits = here;
    progress = omega arith;
  }
  idle_task-IsStep time [] s (some t) here no_frame e = cc
  idle_task-IsStep time (j ∷ js) s none here no_frame e = cc
  idle_task-IsStep time (j ∷ js) s (some t) here no_frame e =
      subst (λ (o : Option Task). IsStep (j ∷ js) s (idle_task h locale time o s)) (sym e)
        (chunk-IsStep time j js s no_frame)

  -- What has been done of the jobs since the page was `page`.
  pub record IsUnderway (jobs : List Job) (page : Page) (s : Scheduler) : Type 0 where
    pub done : List Job
    pub left : List Job
    pub split : done ++ left ≡ jobs
    pub applied : s.page ≡ apply_jobs h locale done page
    waits : Waits left s

  schedule-IsUnderway :
      (jobs : List Job) (s : Scheduler) → IsUnderway jobs s.page (schedule h jobs s)
  unfolding schedule cancel apply_jobs
  schedule-IsUnderway [] s = record {
    done = [];
    left = [];
    split = refl;
    applied = refl;
    waits = for_idle refl refl;
  }
  schedule-IsUnderway (j ∷ js) s = record {
    done = [];
    left = j ∷ js;
    split = refl;
    applied = refl;
    waits = for_frame refl refl;
  }

  idle-IsUnderway :
      (time : ℕ → Bool) (jobs done left : List Job) (page : Page) (s : Scheduler)
      → done ++ left ≡ jobs
      → s.page ≡ apply_jobs h locale done page
      → Waits left s
      → IsUnderway jobs page (tick h locale (idle time) s)
  unfolding tick idle_task
  idle-IsUnderway time jobs done left page s split applied (for_frame at_frame no_idle) =
      subst (λ (o : Option Task). IsUnderway jobs page (idle_task h locale time o s)) (sym no_idle)
        (record {
          done = done;
          left = left;
          split = split;
          applied = applied;
          waits = for_frame at_frame no_idle;
        })
  idle-IsUnderway time jobs done left page s split applied (for_idle no_frame at_idle) =
      let step = idle_task-IsStep time left s s.idle refl no_frame at_idle in
      record {
        done = done ++ step.done;
        left = step.left';
        split = rw (append_assoc, step.split) split;
        applied =
            step.applied
            ∙ ap (apply_jobs h locale step.done) applied
            ∙ sym (apply_jobs-append done step.done page);
        waits = for_idle step.no_frame step.waits;
      }

  frame-IsUnderway :
      (jobs done left : List Job) (page : Page) (s : Scheduler)
      → done ++ left ≡ jobs
      → s.page ≡ apply_jobs h locale done page
      → Waits left s
      → IsUnderway jobs page (tick h locale frame s)
  unfolding tick frame_task
  frame-IsUnderway jobs done [] page s split applied (for_frame at_frame no_idle) =
      subst (λ (o : Option Task). IsUnderway jobs page (frame_task h o s)) (sym at_frame)
        (record {
          done = done;
          left = [];
          split = split;
          applied = applied;
          waits = for_idle at_frame no_idle;
        })
  frame-IsUnderway jobs done (j ∷ js) page s split applied (for_frame at_frame no_idle) =
      subst (λ (o : Option Task). IsUnderway jobs page (frame_task h o s)) (sym at_frame)
        (rw (nat_eq_refl s.generation, if◌then◌else◌)
          (record {
            done = done;
            left = j ∷ js;
            split = split;
            applied = applied;
            waits = for_idle refl refl;
          }))
  frame-IsUnderway jobs done left page s split applied (for_idle no_frame at_idle) =
      subst (λ (o : Option Task). IsUnderway jobs page (frame_task h o s)) (sym no_frame)
        (record {
          done = done;
          left = left;
          split = split;
          applied = applied;
          waits = for_idle no_frame at_idle;
        })

  run_ticks-IsUnderway :
      (ts : List (Tick h)) (jobs : List Job) (page : Page) (s : Scheduler)
      → IsUnderway jobs page s
      → IsUnderway jobs page (run_ticks h locale ts s)
  unfolding run_ticks
  run_ticks-IsUnderway [] jobs page s u = u
  run_ticks-IsUnderway (frame ∷ ts) jobs page s u =
      run_ticks-IsUnderway ts jobs page _
        (frame-IsUnderway jobs u.done u.left page s u.split u.applied u.waits)
  run_ticks-IsUnderway (idle time ∷ ts) jobs page s u =
      run_ticks-IsUnderway ts jobs page _
        (idle-IsUnderway time jobs u.done u.left page s u.split u.applied u.waits)

  -- Whatever callbacks of an earlier call are left, once jobs are scheduled and whatever frames and
  -- idle periods follow, the page is what the first so many of these jobs make of it, each done
  -- once and in their order, and no other job is done.
  pub schedule_prefix :
      (ts : List (Tick h)) (jobs : List Job) (s : Scheduler)
      → (done : List Job) × (left : List Job) × (done ++ left ≡ jobs)
        × ((run_ticks h locale ts (schedule h jobs s)).page ≡ apply_jobs h locale done s.page)
  schedule_prefix ts jobs s =
      let u = run_ticks-IsUnderway ts jobs s.page _ (schedule-IsUnderway jobs s) in
      (u.done, u.left, u.split, u.applied)

  idles_finish :
      (clocks : List (ℕ → Bool)) (left : List Job) (s : Scheduler)
      → s.frame ≡ none
      → s.idle ≡ idle_of s left
      → length left ≤ length clocks
      → ((run_ticks h locale (map idle clocks) s).page ≡ apply_jobs h locale left s.page)
        × ((run_ticks h locale (map idle clocks) s).frame ≡ none)
        × ((run_ticks h locale (map idle clocks) s).idle ≡ none)
  unfolding run_ticks apply_jobs
  idles_finish [] [] s no_frame at_idle enough = (refl, no_frame, at_idle)
  idles_finish [] (j ∷ js) s no_frame at_idle enough = absurd (omega arith)
  idles_finish (time ∷ clocks) left s no_frame at_idle enough =
      let step = idle_task-IsStep time left s s.idle refl no_frame at_idle in
      let (page, framed, stopped) =
        idles_finish clocks step.left' _ step.no_frame step.waits
          (omega (arith, step.progress, enough)) in
      (
        page
            ∙ ap (apply_jobs h locale step.left') step.applied
            ∙ sym (apply_jobs-append step.done step.left' s.page)
            ∙ ap (λ js. apply_jobs h locale js s.page) step.split,
        framed,
        stopped,
      )

  framed :
      (jobs : List Job) (s : Scheduler)
      → let s' = tick h locale frame (schedule h jobs s) in
        (s'.frame ≡ none) × (s'.idle ≡ idle_of s' jobs) × (s'.page ≡ s.page)
  unfolding tick schedule cancel frame_task
  framed [] s = (refl, refl, refl)
  framed (j ∷ js) s = rw (nat_eq_refl (s.generation + 1), if◌then◌else◌) (refl, refl, refl)

  -- After one frame and as many idle periods as there are jobs, however little time each of them
  -- leaves, all jobs are done, and no callback is left, neither of a frame nor of an idle period.
  pub schedule_finishes :
      (clocks : List (ℕ → Bool)) (jobs : List Job) (s : Scheduler)
      → length jobs ≤ length clocks
      → ((run_ticks h locale (frame ∷ map idle clocks) (schedule h jobs s)).page
          ≡ apply_jobs h locale jobs s.page)
        × ((run_ticks h locale (frame ∷ map idle clocks) (schedule h jobs s)).frame ≡ none)
        × ((run_ticks h locale (frame ∷ map idle clocks) (schedule h jobs s)).idle ≡ none)
  unfolding run_ticks
  schedule_finishes clocks jobs s enough =
      let (no_frame, at_idle, page) = framed jobs s in
      let (all, unframed, stopped) = idles_finish clocks jobs _ no_frame at_idle enough in
      (all ∙ ap (apply_jobs h locale jobs) page, unframed, stopped)
