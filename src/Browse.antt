-- ===== src/Browse.antt =====
-- The table browser of webembed/src/app.js: what is selected, the page that is loaded, and the
-- filters, sort and cursor of the next request.
pub mod Load
pub mod Handlers
pub mod Related
pub mod Picker
pub mod Grid
pub mod Overlap
use rowake.Prelude.{ℕ, Text, lit, Bool, true, false, Option, none, some, List, [], ◌∷◌, or_else}
use rowake.Workspace.{Settings}
use rowake.Data.{Snapshot, Catalog}

pub record Selected : Type 0 where
  pub schema : Text
  pub table : Text

pub record Filter : Type 0 where
  pub id : ℕ
  pub column : Text
  pub operator : Text
  pub value : Text

pub data Direction : Type 0 where
  asc desc : Direction

pub record Sort : Type 0 where
  pub column : Text
  pub direction : Direction

-- What "Back" returns to.
pub record Place : Type 0 where
  pub selected : Selected
  pub filters : List Filter
  pub sort : Option Sort
  pub cursor : Text

pub record Browse : Type 0 where
  pub connection_id : Text
  pub catalog : Option Catalog
  pub selected : Selected
  pub snapshot : Option Snapshot
  pub selected_row : ℕ
  pub selected_column : ℕ
  pub inspector_open : Bool
  pub table_tab : Text
  pub table_search : Text
  pub table_filters : List Filter
  pub table_sort : Option Sort
  pub table_cursor : Text
  pub data_control : Text
  pub filter_serial : ℕ
  pub table_loading : Bool
  -- the last place first
  pub related_navigation : List Place
