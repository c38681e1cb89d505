-- ===== src/Browse/Handlers/Laws.antt =====
-- What the actions on the table browser do to the next request.
use rowake.Prelude.{Text, ◌≡◌, refl, false, Option, none, some, arith, ==_iff, ==_refl, is_empty}
use rowake.Workspace.{Settings}
use rowake.Browse.{Browse, Selected, Sort}
use rowake.Browse.Load.{page_request}
use rowake.Browse.Handlers.{open_topology_table, next_sort}

-- Three clicks on the head of one column give back the sort that was there, if that was none or
-- by this column.
pub next_sort_cycle :
    (column : Text) (sort : Option Sort)
    → ((s : Sort) → sort ≡ some s → s.column ≡ column)
    → next_sort column (next_sort column (next_sort column sort)) ≡ sort
unfolding next_sort
next_sort_cycle column none h = rw (==_refl column) (rw (==_refl column))
next_sort_cycle column (some s) h = ground (arith, h s refl, ==_iff s.column column, ==_refl column)

module _ (settings : Settings) where
  module _ (chosen : Selected) (b : Browse) (connected : is_empty b.connection_id ≡ false)
      (named : is_empty chosen.table ≡ false) where
    -- Opening a table from the topology asks for that table with the filters, the sort and the
    -- cursor of the table that was shown before.
    pub open_topology_table-request :
        (open_topology_table settings chosen b).1
        ≡ some (page_request settings b.table_cursor (record b { selected = chosen }))
    unfolding open_topology_table
    open_topology_table-request = rw (connected, named)
