-- ===== src/Schedule.antt =====
-- The formatting of values in the time between frames (webembed/src/app.js): `queueValueFormat`,
-- `scheduleValueFormatting` and the callbacks that it registers. The page is the list of elements
-- that values stand in; a callback is run by the browser, as an event.
pub mod Progress
use rowake.Prelude.{
  ℕ, suc, ◌+◌, Text, lit, ◌==◌, Bool, true, false, ◌||◌, ◌&&◌, not, Option, none, some, List, [],
  ◌∷◌, ◌++◌, if◌then◌else◌, nat_eq, is_empty, decimal,
}
use rowake.Values.{Host, Value, Kind, Formatted, raw_value}
use rowake.Values.Formats.{threw, no_result, returned, format_database_value}
use rowake.Quote.{html}

pub data Mode : Type 0 where
  inspector cell : Mode

pub record Job : Type 0 where
  pub id : Text
  pub value : Value
  pub data_type : Text
  pub raw : Text
  pub mode : Mode

-- What stands in an element. `cell` has the text, the class, the kind of its preview, the raw value
-- that `cellRawValues` keeps, and the label that is read out; `plain` is what is left when the
-- formatter throws.
pub data Content : Type 0 where
  pending : Text → Content
  cell_format : Text → Text → Text → Text → Option Text → Content
  inspector_format : Text → Content
  plain : Text → Content

pub record Element : Type 0 where
  pub id : Option Text
  pub content : Content

abbrev pub Page : Type 0
Page = List Element

-- The callback `formatChunk` with its generation, and the jobs from its cursor on.
pub record Task : Type 0 where
  pub generation : ℕ
  pub jobs : List Job

pub record Scheduler : Type 0 where
  pub page : Page
  pub pending_formats : List Job
  pub serial : ℕ
  pub generation : ℕ
  pub frame : Option Task
  pub idle : Option Task

-- `cancelValueFormatting`
unfoldable pub cancel : Scheduler → Scheduler
cancel s = record s { generation = s.generation + 1; frame = none; idle = none }

kind_text : Kind → Text
kind_text Kind.null = lit "null"
kind_text Kind.boolean = lit "boolean"
kind_text Kind.date = lit "date"
kind_text Kind.time = lit "time"
kind_text Kind.datetime = lit "datetime"
kind_text Kind.numeric = lit "numeric"
kind_text Kind.binary = lit "binary"
kind_text Kind.json = lit "json"
kind_text Kind.uuid = lit "uuid"
kind_text Kind.text = lit "text"

is_boolean_kind : Kind → Bool
is_boolean_kind Kind.boolean = true
is_boolean_kind Kind.null = false
is_boolean_kind k = false

abbrev is_json_kind : Kind → Bool
is_json_kind Kind.json = true
is_json_kind Kind.null = false
is_json_kind k = false

module _ (h : Host) where
  -- `valueFormatClass`
  value_format_class : Formatted → Bool → Text
  unfolding kind_text is_boolean_kind
  value_format_class f include_raw_state =
      lit "formatted-value "
      ++ kind_text f.kind
      ++ lit "-value"
      ++ (if is_boolean_kind f.kind then lit " " ++ h.lower f.display else [])
      ++ (if include_raw_state && f.changed then lit " has-raw" else [])

  -- `applyCellFormat`
  cell_content : Formatted → Content
  unfolding value_format_class
  cell_content f =
      cell_format f.display (lit "cell-value " ++ value_format_class f true)
        (if is_json_kind f.kind then lit "json" else lit "text") f.raw
        (if f.changed then some (f.display ++ lit ". Raw value: " ++ f.raw) else none)

  -- `inspectorFormatHTML`
  unfoldable pub inspector_html : Formatted → Text
  unfolding value_format_class html
  inspector_html f =
      (if is_json_kind f.kind && not (is_empty f.pretty)
        then lit "<pre>" ++ html f.pretty ++ lit "</pre>"
        else lit "<span class=\""
          ++ value_format_class f false
          ++ lit "\">"
          ++ html f.display
          ++ lit "</span>")
      ++ (if f.raw_differs
          then lit "<details class=\"raw-value\"><summary>Raw value</summary><code>"
            ++ html f.raw
            ++ lit "</code></details>"
          else [])

  formatted_content : Mode → Formatted → Content
  unfolding cell_content inspector_html
  formatted_content inspector f = inspector_format (inspector_html f)
  formatted_content cell f = cell_content f

  -- the `try` and `catch` around a job; `null` has no fields, so it throws too
  job_content : Text → Job → Content
  unfolding formatted_content
  job_content locale job =
      elim (format_database_value h job.value job.data_type (some job.raw) locale none) [
        | threw ↦ plain job.raw
        | no_result ↦ plain job.raw
        | returned f ↦ formatted_content job.mode f
      ]

  has_element_id : Text → Element → Bool
  has_element_id k e = elim e.id [ none ↦ false | some j ↦ j == k ]

  -- one job: the first element with its id, if there is one, is formatted and loses the id
  unfoldable pub apply_job : Text → Job → Page → Page
  unfolding has_element_id job_content
  apply_job locale job [] = []
  apply_job locale job (e ∷ es) =
      if has_element_id job.id e
      then record { id = none; content = job_content locale job } ∷ es
      else e ∷ apply_job locale job es

  unfoldable pub apply_jobs : Text → List Job → Page → Page
  unfolding apply_job
  apply_jobs locale [] page = page
  apply_jobs locale (job ∷ jobs) page = apply_jobs locale jobs (apply_job locale job page)

  -- the `do … while`: `time i` says whether the budget has time left after the `i`-th job
  unfoldable pub format_chunk : Text → (ℕ → Bool) → ℕ → List Job → Page → Page × List Job
  unfolding apply_job
  format_chunk locale time i [] page = (page, [])
  format_chunk locale time i (job ∷ jobs) page =
      let page' = apply_job locale job page in
      let rest = format_chunk locale time (suc i) jobs page' in
      if time i then rest else (page', jobs)

  -- `queueValueFormat`: the job, under a new id
  unfoldable pub queue_format : Value → Text → Mode → Scheduler → Text × Scheduler
  queue_format value data_type mode s =
      let id = lit "value-format-" ++ decimal (s.serial + 1) in
      let job : Job = record {
        id = id;
        value = value;
        data_type = data_type;
        raw = raw_value h value;
        mode = mode;
      } in
      (id, record s { serial = s.serial + 1; pending_formats = s.pending_formats ++ job ∷ [] })

  abbrev pub task : Scheduler → List Job → Task
  task s jobs = record { generation = s.generation; jobs = jobs }

  -- `scheduleValueFormatting`
  unfoldable pub schedule : List Job → Scheduler → Scheduler
  unfolding cancel
  schedule [] s = cancel s
  schedule (job ∷ jobs) s = let s' = cancel s in record s' { frame = some (task s' (job ∷ jobs)) }

  -- what `shell` does with the queue, once the new page is there
  unfoldable pub show_page : Page → Scheduler → Scheduler
  unfolding schedule
  show_page page s = schedule s.pending_formats (record s { page = page; pending_formats = [] })

  -- the callback of `requestAnimationFrame`
  frame_task : Option Task → Scheduler → Scheduler
  frame_task none s = s
  frame_task (some t) s =
      if nat_eq t.generation s.generation
      then record s { frame = none; idle = some t }
      else record s { frame = none }

  abbrev some_jobs : Task → List Job → Option Task
  some_jobs t [] = none
  some_jobs t (job ∷ jobs) = some (record t { jobs = job ∷ jobs })

  -- `formatChunk`
  idle_task : Text → (ℕ → Bool) → Option Task → Scheduler → Scheduler
  unfolding format_chunk
  idle_task locale time none s = s
  idle_task locale time (some t) s =
      if nat_eq t.generation s.generation
      then (let (page, jobs) = format_chunk locale time 0 t.jobs s.page in
          record s { page = page; idle = some_jobs t jobs })
      else record s { idle = none }

  -- What the browser may run: a frame, or an idle period with its clock. Without a callback to run
  -- nothing happens.
  pub data Tick : Type 0 where
    frame : Tick
    idle : (ℕ → Bool) → Tick

  unfoldable pub tick : Text → Tick → Scheduler → Scheduler
  unfolding frame_task idle_task
  tick locale frame s = frame_task s.frame s
  tick locale (idle time) s = idle_task locale time s.idle s

  unfoldable pub run_ticks : Text → List Tick → Scheduler → Scheduler
  unfolding tick
  run_ticks locale [] s = s
  run_ticks locale (t ∷ ts) s = run_ticks locale ts (tick locale t s)
