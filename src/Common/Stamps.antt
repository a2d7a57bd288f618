-- ===== src/Common/Stamps.antt =====
-- Times as RFC 3339 texts. A time is a number of nanoseconds.
use Prim.Native.Nat.{ℕ, ◌*◌, ◌/◌}
use Prim.Native.String.{String}
use llama_labels.Common.Text.{trim_space}
use mathlib.Core.Bool.{Bool, false}
use mathlib.Core.Option.{Option, none, some}
use package.text.Mathlib.Text.{◌==◌}

-- A text that should be an RFC 3339 time: one that time.Parse takes stands for its second.
pub data Stamp : Type 0 where
  at : ℕ → Stamp
  text : String → Stamp

abbrev pub second : ℕ
second = 1000000000

-- now.Format(time.RFC3339)
abbrev pub stamp : ℕ → Stamp
stamp now = at (now / second)

-- time.Parse(time.RFC3339, ...)
abbrev pub parse_stamp : Stamp → Option ℕ
parse_stamp (at t) = some (t * second)
parse_stamp (text s) = none

abbrev pub is_blank : Stamp → Bool
is_blank (at t) = false
is_blank (text s) = trim_space s == ""

abbrev pub is_empty : Stamp → Bool
is_empty (at t) = false
is_empty (text s) = s == ""
