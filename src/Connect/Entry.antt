-- ===== src/Connect/Entry.antt =====
-- The entry of a connection URL: `resetConnectionAddFlow` and `applyConnectionEntryURL`, without the
-- texts that are only shown.
use rowake.Prelude.{
  ℕ, Text, lit, ◌≡◌, refl, Bool, true, false, not, ◌&&◌, ◌||◌, List, [], ◌∷◌, if◌then◌else◌, leb,
  nat_eq, is_empty, is_space, is_digit, trim,
}
use rowake.Connect.{
  Draft, UrlHost, Parsed, server, refused, fresh_draft, parse_postgres_url, postgres_url,
  with_server, with_url,
}

pub data Step : Type 0 where
  choose configure : Step

pub data Engine : Type 0 where
  sqlite postgres : Engine

pub record AddFlow : Type 0 where
  pub step : Step
  pub engine : Engine
  pub entry_url : Text
  pub entry_error : Text
  pub draft : Draft
  pub databases : List Text
  pub discovery_loading : Bool
  pub discovery_error : Text
  pub form_tab : Text
  pub editing_connection_id : Text

-- `resetConnectionAddFlow`
abbrev pub reset_flow : AddFlow
reset_flow = record {
  step = choose;
  engine = sqlite;
  entry_url = [];
  entry_error = [];
  draft = fresh_draft;
  databases = [];
  discovery_loading = false;
  discovery_error = [];
  form_tab = lit "general";
  editing_connection_id = [];
}

is_letter : ℕ → Bool
is_letter c = (leb b'a' c && leb c b'z') || (leb b'A' c && leb c b'Z')

is_scheme : ℕ → Bool
unfolding is_letter is_digit
is_scheme c = is_letter c || is_digit c || nat_eq c b'+' || nat_eq c b'.' || nat_eq c b'-'

-- `:\/\/[^/\s]+` at the front
has_authority : Text → Bool
unfolding is_space
has_authority (a ∷ b ∷ c ∷ d ∷ s) =
    nat_eq a b':' && nat_eq b b'/' && nat_eq c b'/' && not (nat_eq d b'/') && not (is_space d)
has_authority s = false

scheme_rest : Text → Text
unfolding is_scheme
scheme_rest [] = []
scheme_rest (c ∷ s) = if is_scheme c then scheme_rest s else c ∷ s

-- `/^[a-z][a-z0-9+.-]*:\/\/[^/\s]+/i.test(raw)`
unfoldable pub looks_complete : Text → Bool
unfolding is_letter scheme_rest has_authority
looks_complete [] = false
looks_complete (c ∷ s) = is_letter c && has_authority (scheme_rest s)

module _ (h : UrlHost) where
  entered : Text → Bool → Text → Parsed → AddFlow → AddFlow × Bool
  unfolding looks_complete postgres_url
  entered raw report value (refused message) flow = (
    record flow {
      entry_url = value;
      entry_error = if report || looks_complete raw then message else [];
    },
    false,
  )
  entered raw report value (server s) flow =
      let draft = with_url h (with_server s fresh_draft) in
      (
        record flow {
          draft = draft;
          entry_url = draft.connection_url;
          entry_error = [];
          engine = postgres;
          step = configure;
          form_tab = lit "general";
        },
        true,
      )

  -- `applyConnectionEntryURL`
  unfoldable pub apply_entry_url : Text → Bool → AddFlow → AddFlow × Bool
  unfolding entered parse_postgres_url trim
  apply_entry_url value report flow =
      if is_empty (trim value)
      then (record flow { entry_url = value; entry_error = [] }, false)
      else entered (trim value) report value (parse_postgres_url h value) flow

  -- The URL on display is the draft's, and it is the same whatever the draft's password is.
  pub record IsShown (flow : AddFlow) : Type 0 where
    pub url : flow.entry_url ≡ flow.draft.connection_url
    pub secret : (p : Text) → postgres_url h (record flow.draft { password = p }) ≡ flow.entry_url
    pub quiet : flow.entry_error ≡ []

  -- Where the entry is turned down, the step, the engine and the draft are as before.
  pub record IsKept (before after : AddFlow) : Type 0 where
    pub step : after.step ≡ before.step
    pub engine : after.engine ≡ before.engine
    pub draft : after.draft ≡ before.draft

  abbrev pub Outcome : AddFlow → AddFlow × Bool → Type 0
  Outcome before (after, true) = IsShown after
  Outcome before (after, false) = IsKept before after

  entered-Outcome :
      (raw value : Text) (report : Bool) (p : Parsed) (flow : AddFlow)
      → Outcome flow (entered raw report value p flow)
  unfolding entered postgres_url
  entered-Outcome raw value report (refused message) flow = record {
    step = refl;
    engine = refl;
    draft = refl;
  }
  entered-Outcome raw value report (server s) flow = record {
    url = refl;
    secret = λ p. refl;
    quiet = refl;
  }

  -- A URL that is accepted is shown again as the draft's own URL, in which the password has no part,
  -- and without an error; one that is turned down leaves the step, the engine and the draft.
  pub apply_entry_url-Outcome :
      (value : Text) (report : Bool) (flow : AddFlow)
      → Outcome flow (apply_entry_url value report flow)
  unfolding apply_entry_url
  apply_entry_url-Outcome value report flow = on_empty (is_empty (trim value))
    where
      on_empty :
          (b : Bool)
          → Outcome flow (
              if b
              then (record flow { entry_url = value; entry_error = [] }, false)
              else entered (trim value) report value (parse_postgres_url h value) flow)
      on_empty true = record { step = refl; engine = refl; draft = refl }
      on_empty false = entered-Outcome (trim value) value report (parse_postgres_url h value) flow
