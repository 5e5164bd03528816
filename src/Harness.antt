-- ===== src/Harness.antt =====
-- labs/harness/types.go: what a laboratory's run is made of.
pub mod Recorder
pub mod Spec
pub mod Runner
mod Examples
use works_on_my_whiteboard.Prelude.{String, Bool, List}
use works_on_my_whiteboard.Prelude.Int.{ℤ}

pub record Metric : Type 0 where
  pub name : String
  pub unit : String
  pub value : ℤ

-- The metrics of a recorder at one moment, by name.
pub record Snapshot : Type 0 where
  pub metrics : List Metric

pub record AssertionResult : Type 0 where
  pub id : String
  pub passed : Bool
  pub message : String

pub record Diagnostic : Type 0 where
  pub event : String
  pub message : String
