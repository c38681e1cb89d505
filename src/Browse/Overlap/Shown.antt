-- ===== src/Browse/Overlap/Shown.antt =====
-- Which pages are shown where requests for pages overlap (webembed/src/app.js, `loadTable`).
use rowake.Prelude.{
  ℕ, suc, Text, ◌≡◌, refl, sym, ap, ◌∙◌, subst, ◌||◌, ◌==◌, is_empty, Bool, true, false, ◌⊎◌, inl,
  inr, Option, none, some, List, [], ◌∷◌, map, if◌then◌else◌, nat_eq, nat_eq_refl, filter, find,
  not, All, All-weaken, arith, Bool-cases, Option-cases,
}
use rowake.Values.{Host}
use rowake.Data.{Snapshot}
use rowake.Browse.{Browse}
use rowake.Browse.Load.{PageRequest, PageResponse, page, failed, aborted, sent_filter, finish_load}
use rowake.Browse.Overlap.{
  Action, open_connection, act, switch, Flight, Overlap, start, has_id, abort, send, Ending,
  answered, response, settle, Event, ask, end_of, run,
}
use rowake.Workspace.{Settings}
use rowake.Browse.Overlap.Asking.{Matches, MatchesTable, SameTable, Outcome, act-Outcome}

-- The request asks for the table that is selected, with its filters and sort, or nothing could be
-- asked for at some time since.
abbrev pub IsWanted : Bool → PageRequest → Browse → Type 0
IsWanted skipped q b = MatchesTable q b ⊎ (skipped ≡ true)

-- A request that was not aborted is the controller's, and is wanted.
abbrev IsLive : ℕ → Bool → Browse → Flight → Type 0
IsLive controller skipped b f =
    f.is_aborted ≡ false → (f.id ≡ controller) × IsWanted skipped f.request b

abbrev IsCurrent : Overlap → Type 0
IsCurrent s = All (IsLive s.controller s.skipped s.browse) s.flights

All-map-flights :
    (P Q : Flight → Type 0) (g : Flight → Flight) (fs : List Flight)
    → ((f : Flight) → P f → Q (g f))
    → All P fs
    → All Q (map g fs)
All-map-flights P Q g [] h a = tt
All-map-flights P Q g (f ∷ fs) h a = (h f a.0, All-map-flights P Q g fs h a.1)

All-filter :
    (P : Flight → Type 0) (p : Flight → Bool) (fs : List Flight) → All P fs → All P (filter p fs)
All-filter P p [] a = tt
All-filter P p (f ∷ fs) a = elim (Bool-cases (p f)) [
  | inl e ↦ rw (e, if◌then◌else◌) (a.0, All-filter P p fs a.1)
  | inr e ↦ rw (e, if◌then◌else◌) (All-filter P p fs a.1)
]

-- After the controller's request was aborted, none is live.
abort-none :
    (c c' : ℕ) (k k' : Bool) (b b' : Browse) (f : Flight)
    → IsLive c k b f
    → IsLive c' k' b' (abort c f)
abort-none c c' k k' b b' f live = elim (Bool-cases (nat_eq f.id c)) [
  | inl e ↦ rw (e, if◌then◌else◌) (λ (h : true ≡ false). absurd (cc))
  | inr e ↦
      rw (e, if◌then◌else◌) (λ (h : f.is_aborted ≡ false). absurd (ground (arith, (live h).0)))
]

MatchesTable-SameTable :
    (q : PageRequest) (a b : Browse) → MatchesTable q b → SameTable a b → MatchesTable q a
MatchesTable-SameTable q a b (schema, table, filters, sort) (schema', table', filters', sort') = (
  schema ∙ sym schema',
  table ∙ sym table',
  filters ∙ sym (ap (map sent_filter) filters'),
  sort ∙ sym sort',
)

or_right : (k n : Bool) → n ≡ true → (k || n) ≡ true
or_right k n h = ground arith

or_left : (k n : Bool) → k ≡ true → (k || n) ≡ true
or_left k n h = ground arith

same-IsWanted :
    (k n : Bool) (q : PageRequest) (a b : Browse)
    → SameTable a b
    → IsWanted k q b
    → IsWanted (k || n) q a
same-IsWanted k n q a b same (inl matches) = inl (MatchesTable-SameTable q a b matches same)
same-IsWanted k n q a b same (inr skipped) = inr (or_left k n skipped)

send-IsCurrent :
    (s : Overlap) (r : Browse × Option PageRequest)
    → Outcome s.browse r
    → IsCurrent s
    → IsCurrent (send s r)
unfolding send Outcome
send-IsCurrent s (b, none) (inl same) c =
    let n = is_empty b.connection_id || is_empty b.selected.table in
    All-weaken (IsLive s.controller s.skipped s.browse) (IsLive s.controller (s.skipped || n) b)
      s.flights
      (λ f live h. ((live h).0, same-IsWanted s.skipped n f.request b s.browse same (live h).1)) c
send-IsCurrent s (b, none) (inr nothing) c =
    let n = is_empty b.connection_id || is_empty b.selected.table in
    All-weaken (IsLive s.controller s.skipped s.browse) (IsLive s.controller (s.skipped || n) b)
      s.flights (λ f live h. ((live h).0, inr (or_right s.skipped n nothing))) c
send-IsCurrent s (b, some q) matches c = (
  λ h. (refl, inl matches.1),
  All-map-flights (IsLive s.controller s.skipped s.browse) (IsLive (suc s.controller) false b)
      (abort s.controller) s.flights
      (λ f live. abort-none s.controller (suc s.controller) s.skipped false s.browse b f live) c,
)

finish_load-IsWanted :
    (cursor : Text) (r : PageResponse) (k : Bool) (q : PageRequest) (b : Browse)
    → IsWanted k q b
    → IsWanted k q (finish_load cursor r b)
unfolding finish_load
finish_load-IsWanted cursor (page p) k q b w = w
finish_load-IsWanted cursor failed k q b w = w
finish_load-IsWanted cursor aborted k q b w = w

settle-IsCurrent :
    (i : ℕ) (ending : Ending) (s : Overlap) → IsCurrent s → IsCurrent (settle i ending s)
unfolding settle
settle-IsCurrent i ending s c = elim (Option-cases (find (has_id i) s.flights)) [
  | inl e ↦ rw (e, settle) c
  | inr (f, e) ↦
      let after = finish_load f.request.cursor (response f.is_aborted ending) s.browse in
      rw (e, settle)
        (All-filter (IsLive s.controller s.skipped after) (λ g. not (has_id i g)) s.flights
          (All-weaken (IsLive s.controller s.skipped s.browse) (IsLive s.controller s.skipped after)
            s.flights
            (λ g live live_now. (
              (live live_now).0,
              finish_load-IsWanted f.request.cursor (response f.is_aborted ending) s.skipped
                  g.request s.browse (live live_now).1,
            ))
            c))
]

run-IsCurrent :
    (h : Host) (events : List Event) (s : Overlap) → IsCurrent s → IsCurrent (run h events s)
unfolding run
run-IsCurrent h [] s c = c
run-IsCurrent h (ask settings a ∷ events) s c =
    run-IsCurrent h events (send s (act h settings a s.browse))
      (send-IsCurrent s (act h settings a s.browse) (act-Outcome h settings s.browse a) c)
run-IsCurrent h (end_of i ending ∷ events) s c =
    run-IsCurrent h events (settle i ending s) (settle-IsCurrent i ending s c)

find-All :
    (P : Flight → Type 0) (p : Flight → Bool) (fs : List Flight) (f : Flight)
    → All P fs
    → find p fs ≡ some f
    → P f
find-All P p [] f a e = absurd (cc)
find-All P p (g ∷ fs) f a e = elim (Bool-cases (p g)) [
  | inl t ↦
      let found : some g ≡ some f = rw (t, if◌then◌else◌) at e in
      let same : g ≡ f = cc in subst P same a.0
  | inr t ↦ find-All P p fs f a.1 (rw (t, if◌then◌else◌) at e)
]

-- What the answer of the server to one request changes on the page.
abbrev pub IsAnswer : ℕ → Snapshot → Overlap → Type 0
IsAnswer i p s =
    ((settle i (answered p) s).browse.snapshot ≡ s.browse.snapshot)
    ⊎ ((f : Flight) × (find (has_id i) s.flights ≡ some f)
        × (f.id ≡ s.controller)
        × IsWanted s.skipped f.request (settle i (answered p) s).browse
        × ((settle i (answered p) s).browse.snapshot ≡ some p))

settle-IsAnswer : (i : ℕ) (p : Snapshot) (s : Overlap) → IsCurrent s → IsAnswer i p s
unfolding settle
settle-IsAnswer i p s c = elim (Option-cases (find (has_id i) s.flights)) [
  | inl e ↦ inl (rw (e, settle))
  | inr (f, e) ↦ elim (Bool-cases f.is_aborted) [
    | inl gone ↦ inl (rw (e, settle) (rw (gone, finish_load)))
    | inr live ↦
        let (own, wanted) =
          find-All (IsLive s.controller s.skipped s.browse) (has_id i) s.flights f c e live in
        inr (
          f,
          e,
          own,
          rw (e, settle)
              (finish_load-IsWanted f.request.cursor (response f.is_aborted (answered p)) s.skipped
                f.request s.browse wanted),
          rw (e, settle) (rw (live, finish_load)),
        )
  ]
]

-- Whatever actions on tables and connections and whatever answers came before, on a page where no
-- request was under way at first, a page that the server sends is shown only in answer to the
-- request that was made last, which asks for the table, the filters and the sort that are selected
-- when it is shown, unless some action since then has left no table selected or no connection open;
-- any other answer leaves the page that is shown. Nothing is stated of the connection.
pub run-IsAnswer :
    (h : Host) (events : List Event) (b : Browse) (i : ℕ) (p : Snapshot)
    → IsAnswer i p (run h events (start b))
run-IsAnswer h events b i p =
    settle-IsAnswer i p (run h events (start b)) (run-IsCurrent h events (start b) tt)

find-abort :
    (c : ℕ) (fs : List Flight) (f : Flight)
    → find (has_id c) fs ≡ some f
    → find (has_id c) (map (abort c) fs) ≡ some (record f { is_aborted = true })
find-abort c [] f e = cc
find-abort c (g ∷ fs) f e = elim (Bool-cases (nat_eq g.id c)) [
  | inl t ↦
      let found : some g ≡ some f = rw (t, if◌then◌else◌) at e in
      let same : g ≡ f = cc in
      rw (t, abort) (rw t (ap (λ (x : Flight). some (record x { is_aborted = true })) same))
  | inr t ↦ rw (t, abort) (rw t (find-abort c fs f (rw (t, if◌then◌else◌) at e)))
]

nat_eq-suc : (n : ℕ) → nat_eq (suc n) n ≡ false
nat_eq-suc n = ground arith

-- Where a request is under way and an action makes another, the page is not marked as loading any
-- more once the first request has ended, although the second is still under way, and the page that
-- is shown has not changed.
pub settle-loading :
    (s : Overlap) (b : Browse) (q : PageRequest) (f : Flight) (ending : Ending)
    → find (has_id s.controller) s.flights ≡ some f
    → let asked = send s (b, some q) in
      let after = settle s.controller ending asked in
      (after.browse.table_loading ≡ false)
      × (after.browse.snapshot ≡ b.snapshot)
      × (find (has_id after.controller) after.flights
          ≡ some (record { id = suc s.controller; request = q; is_aborted = false }))
unfolding send settle
settle-loading s b q f ending e =
    let new : Flight = record { id = suc s.controller; request = q; is_aborted = false } in
    let found : find (has_id s.controller) (new ∷ map (abort s.controller) s.flights)
        ≡ some (record f { is_aborted = true }) =
      rw (nat_eq-suc s.controller) (find-abort s.controller s.flights f e) in
    rw (found, settle)
      (rw (nat_eq-suc s.controller) (refl, refl, rw (nat_eq_refl (suc s.controller))))

-- Where a request is under way and another connection is then opened, a page that the server sends
-- for the request is shown under that other connection, although the request was for the one before.
pub open_connection-shows :
    (h : Host) (settings other : Settings) (a : Action) (b b' : Browse) (q : PageRequest)
    (id : Text) (p : Snapshot)
    → act h settings a b ≡ (b', some q)
    → is_empty id ≡ false
    → (id == q.connection_id) ≡ false
    → let after =
        run h
          (ask settings a ∷ ask other (open_connection id) ∷ end_of 1 (answered p) ∷ [])
          (start b) in
      (after.browse.snapshot ≡ some p) × (after.browse.connection_id ≡ id)
unfolding run send settle act switch finish_load Outcome
open_connection-shows h settings other a b b' q id p asked named new =
    let matches : Matches q b' = subst (Outcome b) asked (act-Outcome h settings b a) in
    let away : (id == b'.connection_id) ≡ false = rw (sym matches.0) new in
    rw (asked, named, away, if◌then◌else◌) (refl, refl)
