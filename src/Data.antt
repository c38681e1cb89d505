-- ===== src/Data.antt =====
-- The data that the server sends, as the browser interface reads it.
use rowake.Prelude.{Text, Bool, List}
use rowake.Values.{Value}

pub record Column : Type 0 where
  pub name : Text
  pub data_type : Text
  pub nullable : Bool
  pub default : Text
  pub primary_key : Bool

pub record Index : Type 0 where
  pub name : Text
  pub columns : List Text
  pub unique : Bool
  pub definition : Text

-- A foreign key's column pair. An absent text is the empty one.
pub record Relationship : Type 0 where
  pub id : Text
  pub constraint_id : Text
  pub from_schema : Text
  pub from_table : Text
  pub from_column : Text
  pub to_schema : Text
  pub to_table : Text
  pub to_column : Text
  pub on_update : Text
  pub on_delete : Text

pub record Table : Type 0 where
  pub id : Text
  pub schema : Text
  pub name : Text
  pub kind : Text
  pub columns : List Column
  pub indexes : List Index

pub record Topology : Type 0 where
  pub connection_id : Text
  pub tables : List Table
  pub relationships : List Relationship

-- A page of a table.
pub record Snapshot : Type 0 where
  pub schema : Text
  pub name : Text
  pub columns : List Column
  pub rows : List (List Value)
  pub primary_key : List Text
  pub previous_cursor : Text
  pub next_cursor : Text

pub record TableEntry : Type 0 where
  pub schema : Text
  pub name : Text
  pub kind : Text

pub record Schema : Type 0 where
  pub name : Text
  pub tables : List TableEntry

pub record Catalog : Type 0 where
  pub schemas : List Schema

pub record Connection : Type 0 where
  pub id : Text
  pub name : Text
  pub engine : Text
  pub address : Text
  pub database : Text
