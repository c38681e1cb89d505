-- ===== src/Lib.antt =====
-- Rowake's browser interface: the single-page program of webembed/src that shows databases, runs
-- SQL and keeps a workspace in the browser. The program is a set of handlers over one state object;
-- here a handler is a function from the state it finds to the state it leaves, and a handler that
-- waits for the server is two functions, one up to the request and one from the answer, since other
-- handlers may run in between.
--
-- Which file models what: Prelude (Tests, Lists, Texts): Booleans, arrays and strings as the
-- program uses them. A string is the list of its UTF-16 code units, so `slice` counts as in
-- JavaScript. Json: the data that `JSON.parse` makes, property access, `Object.assign`,
-- `String(…)`. Quote (Html, Sql): `html`, `quoteIdentifier` and the SQL literals of
-- webembed/src/app.js, with a reader for each language as the specification. Workspace (Bounds,
-- RoundTrip): `normalizeWorkspace` of webembed/src/workspace-state.mjs and what `persistWorkspace`
-- of webembed/src/app.js stores. Session (Actions, Requests): the query page of
-- webembed/src/app.js: tabs, the live editor, saved queries, history, `runQuery` and
-- `explainQuery`. The editor is its document, or none; `shell` reads it into the active tab and
-- destroys it, `renderQuery` makes a new one. Format: `format-query`. Pages: `query-table`, the
-- settings, and the drawing of pages. Session.Events, Session.Valid: any sequence of these
-- handlers. Session.Switching: what a change of tabs does to the texts. Session.Stored: storing and
-- loading. Values (Types, Temporal, Numbers, Cache, Formats): webembed/src/value-formatters.mjs.
-- The regular expressions are matchers by clauses. Data: what the server sends. Browse (Load,
-- Handlers, Related, Grid): the table browser of webembed/src/app.js: page requests and answers,
-- filters and sort, related records, the selected cell. Picker: the list of all tables for narrow
-- windows. Overlap (Asking, Shown): requests that overlap, and the abort of the one before.
-- Objects: the lists of recent and pinned objects and of schema snapshots in webembed/src/app.js.
-- Schema: the comparison of two captures of a schema in webembed/src/app.js. Topology: the groups
-- of tables on the topology page in webembed/src/app.js. Connect (Entry): connection drafts and
-- PostgreSQL URLs in webembed/src/app.js. Lifecycle: the page that the connections live in. Opening
-- (Changing, Removal): opening, editing, disconnecting, reconnecting and removing. Form (Actions,
-- Requests): the connection form. Listed: any interleaving of these with the answers of the server.
-- Mapping: the loading of the topology, expansion and zoom. Schedule (Progress): the queue of value
-- formats of webembed/src/app.js, worked off in frames and idle periods whose length the clock, a
-- parameter, decides. Preview (Position, Timer): the preview of a cell's raw value in
-- webembed/src/app.js, its place, and the timer that shows it. Menu (Events, Consistent, Arrows):
-- the connection menu of webembed/src/app.js, as the elements that its functions read and write:
-- search, opening and closing, clicks, keys, focus. Completion (Columns, Context, Inserted,
-- Statement): the suggestions of the query editor in webembed/src/app.js. Its regular expressions
-- are matchers by clauses. Examples: the theorems at concrete inputs.
--
-- What the program does not define is a parameter: `Workspace.Platform` (`JSON.parse`, `Number`),
-- `Values.Host` (`Intl`, `Date`, `JSON`, case mapping, byte lengths), `Values.Cache.Stringify`
-- (`JSON.stringify`), `Connect.UrlHost` (`URL` and the URI codings), `encodeURIComponent` in
-- Topology, `toLowerCase` in Menu and Completion, `toLocaleString` in Preview, and `Session.Env`
-- (connection, clock, new ids, the document that the editor makes of a text). A request that was
-- aborted is taken to end with the `AbortError`, and the names of schemas and tables not to be
-- those of properties that every JavaScript object has. All loops of the program run over arrays or
-- strings and are structural recursion, so there is no fuel.
--
-- Not modelled: the markup of the pages, drawing, styles, and focus outside of the connection menu,
-- which keep no state that a handler reads; the failure of `localStorage`; the Go server and the
-- desktop shell; the built files of webembed/dist; the scripts under .agents/skills, a copy of
-- another project. Of the program's own logic these are left out: the debounce timers of the two
-- URL inputs, the export of results, the lines drawn on the topology page, and the place of the
-- connection menu.
pub mod Prelude
pub mod Json
pub mod Quote
pub mod Workspace
pub mod Values
pub mod Data
pub mod Browse
pub mod Session
pub mod Objects
pub mod Schema
pub mod Topology
pub mod Connect
pub mod Schedule
pub mod Preview
pub mod Lifecycle
pub mod Menu
pub mod Completion
pub mod Examples
