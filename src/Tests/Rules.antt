-- ===== src/Tests/Rules.antt =====
-- Runs of the filter rules and the instances of their theorems.
use llama_labels.Common.{
  arith, ℕ, ◌+◌, String, ◌≡◌, refl, true, false, Option, none, some, List, [], ◌∷◌, map, keep, leb,
  ◌==◌, if◌then◌else◌,
}
use llama_labels.Common.Text.{trim_space}
use llama_labels.Common.Lists.{find_first}
use llama_labels.Common.Keyed.{find}
use llama_labels.Common.Stamps.{text, stamp}
use llama_labels.Disk.{Io, holds}
use llama_labels.Document as Document
use llama_labels.Rules.{Action, Rule, Texts, leaf, end, also, group, zero_order}
use llama_labels.Rules.Matching.{
  EvalInput, fires, folder_in_scope, match_group, leaf_matches, matches_value, field_value,
}
use llama_labels.Rules.Engine.{Outcome, evaluate, sort_stable, apply_outcome}
use llama_labels.Rules.Engine.Walk.{
  outcome_of, up_to_stop, evaluate-outcome_of, evaluate-at_order, evaluate-up_to,
}
use llama_labels.Rules.Engine.Applying.{Call, recorder, apply_outcome-undeterred}
use llama_labels.Rules.Store.{RulesFile, Store, id_of, get, upsert, reorder}
use llama_labels.Rules.Store.Found.{IsStored, Leaves, get-upsert, get-reorder}

-- Texts that are lower case already, without regular expressions.
abbrev plain : Texts
plain = record {
  to_lower = λ s. s;
  equal_fold = λ s t. s == t;
  quote_meta = λ s. s;
  compile = λ s. none;
}

abbrev message : EvalInput
message = record {
  uid = 7;
  message_id = "7";
  from = "ann@example.org";
  to = "me@example.org";
  cc = "";
  bcc = "";
  subject = "invoice";
  body = "";
  keywords = [];
  folder = "INBOX";
}

abbrev rule : String → String → ℕ → List Action → Rule
rule id word order actions = record {
  id = id;
  name = id;
  enabled = true;
  order = order;
  scope = record { folders = [] };
  match = group "allof" (also (leaf false "subject" "is" word) end);
  actions = actions;
  rev = 1;
  created_at = text "";
  updated_at = text "";
}

abbrev label_it : Action
label_it = record { type = "keyword"; value = "bills" }

abbrev stop_it : Action
stop_it = record { type = "stop"; value = "" }

abbrev stopper : Rule
stopper = rule "b" "invoice" 5 (label_it ∷ stop_it ∷ [])

abbrev late : Rule
late = rule "c" "invoice" 9 (label_it ∷ [])

abbrev other : Rule
other = rule "a" "news" 2 (label_it ∷ [])

late_does_not_run : (evaluate plain message (late ∷ stopper ∷ other ∷ [])).matched ≡ "b" ∷ []
unfolding evaluate fires folder_in_scope match_group leaf_matches matches_value field_value
    trim_space
late_does_not_run = refl

evaluate-up_to_example :
    evaluate plain message (late ∷ stopper ∷ other ∷ [])
    ≡ evaluate plain message (keep (λ r. leb r.order 5) (late ∷ stopper ∷ other ∷ []))
unfolding fires folder_in_scope match_group leaf_matches matches_value field_value trim_space
evaluate-up_to_example = evaluate-up_to plain message 5 (late ∷ stopper ∷ other ∷ []) refl

evaluate-outcome_of_example :
    evaluate plain message (late ∷ stopper ∷ other ∷ [])
    ≡ outcome_of
        (up_to_stop (sort_stable (keep (fires plain message) (late ∷ stopper ∷ other ∷ []))))
evaluate-outcome_of_example = evaluate-outcome_of plain message (late ∷ stopper ∷ other ∷ [])

evaluate-at_order_example :
    evaluate plain message (late ∷ stopper ∷ []) ≡ evaluate plain message (stopper ∷ late ∷ [])
evaluate-at_order_example =
    evaluate-at_order plain message (late ∷ stopper ∷ []) (stopper ∷ late ∷ []) (λ n. ground arith)

abbrev refuses : Call → Option String
refuses c = some "down"

abbrev accepts : Call → Option String
accepts c = none

abbrev two_labels : Outcome
two_labels = record {
  matched = "b" ∷ [];
  applied = label_it ∷ stop_it ∷ label_it ∷ [];
  stopped = true;
}

apply_outcome-undeterred_example :
    ((apply_outcome (recorder refuses) "INBOX" message two_labels []).1
      ≡ (apply_outcome (recorder accepts) "INBOX" message two_labels []).1)
    × (map (λ r. r.action) (apply_outcome (recorder refuses) "INBOX" message two_labels []).0
        ≡ label_it ∷ stop_it ∷ label_it ∷ [])
apply_outcome-undeterred_example =
    apply_outcome-undeterred refuses accepts "INBOX" message two_labels []

abbrev good_disk : Io
good_disk = record { can_read = true; can_write = true }

abbrev two_rules : RulesFile
two_rules = record { rules = other ∷ stopper ∷ []; seq = 4 }

abbrev started : Store
started = record { memory = two_rules; file = holds two_rules }

get-upsert_example :
    (r' : Rule) × (IsStored 30 two_rules late r'
      × Leaves
          (upsert good_disk 30 started none late)
          r'
          (λ id. if "c" == id then some r' else find id_of id (other ∷ stopper ∷ [])))
get-upsert_example = get-upsert good_disk 30 started two_rules none late refl refl refl refl

get-reorder_example :
    ((reorder good_disk 30 started ("b" ∷ "a" ∷ [])).0 ≡ Document.ok tt)
    × ((rev : ℕ) × ((get good_disk (reorder good_disk 30 started ("b" ∷ "a" ∷ [])).1 "a").0
          ≡ some (record other { order = zero_order + 1; rev = rev; updated_at = stamp 30 })))
get-reorder_example =
    get-reorder good_disk good_disk 30 started two_rules "a" ("b" ∷ []) [] other refl refl refl refl
      refl (unfold find_first in refl)
