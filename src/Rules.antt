-- ===== src/Rules.antt =====
-- backend/internal/rules/model.go: the filter rules of one user. An `int` order is its distance from the
-- smallest 64-bit integer, so that 0 is `zero_order`.
pub mod Matching
pub mod Engine
pub mod Store
use llama_labels.Common.{ℕ, String, Bool, Option, List}
use llama_labels.Common.Stamps.{Stamp}

-- A condition is a leaf test or, with a group below it, a nested group; its other fields stay.
mutual
  pub data Condition : Type 0 where
    leaf : Bool → String → String → String → Condition
    nested : Bool → MatchGroup → String → String → String → Condition

  pub data Conditions : Type 0 where
    end : Conditions
    also : Condition → Conditions → Conditions

  pub data MatchGroup : Type 0 where
    group : String → Conditions → MatchGroup

pub record RuleScope : Type 0 where
  pub folders : List String

pub record Action : Type 0 where
  pub type : String
  pub value : String

pub record Rule : Type 0 where
  pub id : String
  pub name : String
  pub enabled : Bool
  pub order : ℕ
  pub scope : RuleScope
  pub match : MatchGroup
  pub actions : List Action
  pub rev : ℕ
  pub created_at : Stamp
  pub updated_at : Stamp

abbrev pub zero_order : ℕ
zero_order = 9223372036854775808

-- What Go's standard library does with texts: strings.ToLower, strings.EqualFold, regexp.QuoteMeta of one
-- character, and regexp.Compile with the matches of what it compiles.
pub record Texts : Type 0 where
  pub to_lower : String → String
  pub equal_fold : String → String → Bool
  pub quote_meta : String → String
  pub compile : String → Option (String → Bool)
