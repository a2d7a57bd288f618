-- ===== src/Rules/Engine.antt =====
-- backend/internal/rules/engine.go: the walk over the rules, and the actions of those that matched.
pub mod Sorting
pub mod Walk
pub mod Applying
use llama_labels.Common.{
  ℕ, String, Bool, true, false, ◌||◌, Option, none, some, List, [], ◌∷◌, ◌++◌, leb, any, map,
  if◌then◌else◌, ◌==◌,
}
use llama_labels.Rules.{Action, Rule, Texts}
use llama_labels.Rules.Matching.{EvalInput, fires}

pub record Outcome : Type 0 where
  pub matched : List String
  pub applied : List Action
  pub stopped : Bool

-- sort.SliceStable by Order.
abbrev pub place : Rule → List Rule → List Rule
place r [] = r ∷ []
place r (x ∷ xs) = let rest = place r xs in if leb r.order x.order then r ∷ x ∷ xs else x ∷ rest

abbrev pub sort_stable : List Rule → List Rule
sort_stable [] = []
sort_stable (r ∷ rs) = place r (sort_stable rs)

abbrev pub is_stop : Action → Bool
is_stop a = a.type == "stop"

abbrev pub stops : Rule → Bool
stops r = any is_stop r.actions

-- The outcome with one more rule that matched.
abbrev pub with_rule : Outcome → Rule → Outcome
with_rule o r = record {
  matched = o.matched ++ r.name ∷ [];
  applied = o.applied ++ r.actions;
  stopped = o.stopped || stops r;
}

abbrev pub walk : Texts → EvalInput → Outcome → List Rule → Outcome
walk texts input o [] = o
walk texts input o (r ∷ rs) =
    let skipped = walk texts input o rs in
    let o' = with_rule o r in
    let walked = walk texts input o' rs in
    if fires texts input r then (if o'.stopped then o' else walked) else skipped

abbrev pub no_outcome : Outcome
no_outcome = record { matched = []; applied = []; stopped = false }

unfoldable pub evaluate : Texts → EvalInput → List Rule → Outcome
evaluate texts input active_rules = walk texts input no_outcome (sort_stable active_rules)

-- imapadapter.Client, with the state of the mail server: a call answers an error or none.
pub record Client (S E : Type 0) : Type 0 where
  pub apply_label : String → String → S → Option E × S
  pub remove_label : String → String → S → Option E × S
  pub apply_inbox_action : String → String → String → String → S → Option E × S

pub data ActionError (E : Type 0) : Type 0 where
  from_client : E → ActionError E
  unsupported : String → ActionError E

pub record ActionResult (E : Type 0) : Type 0 where
  pub action : Action
  pub error : Option (ActionError E)

module _ {S E : Type 0} (c : Client S E) where
  abbrev client_error : Option E → Option (ActionError E)
  client_error none = none
  client_error (some e) = some (from_client e)

  abbrev answered : Option E × S → Option (ActionError E) × S
  answered (e, s) = (client_error e, s)

  unfoldable pub apply_action : String → String → Action → S → Option (ActionError E) × S
  apply_action mailbox message_id a s =
      if a.type == "keyword"
      then answered (c.apply_label message_id a.value s)
      else if a.type == "unkeyword"
      then answered (c.remove_label message_id a.value s)
      else if a.type == "move"
      then answered (c.apply_inbox_action message_id "move" mailbox a.value s)
      else if a.type == "read"
      then answered (c.apply_inbox_action message_id "read" mailbox "" s)
      else if a.type == "archive"
      then answered (c.apply_inbox_action message_id "archive" mailbox "" s)
      else if a.type == "spam"
      then answered (c.apply_inbox_action message_id "spam" mailbox "" s)
      else if a.type == "delete"
      then answered (c.apply_inbox_action message_id "delete" mailbox "" s)
      else if a.type == "stop"
      then (none, s)
      else (some (unsupported a.type), s)

  unfoldable pub apply_all : String → String → List Action → S → List (ActionResult E) × S
  unfolding apply_action
  apply_all mailbox message_id [] s = ([], s)
  apply_all mailbox message_id (a ∷ actions) s =
      let (error, s') = apply_action mailbox message_id a s in
      let (results, end) = apply_all mailbox message_id actions s' in
      (record { action = a; error = error } ∷ results, end)

  unfoldable pub apply_outcome : String → EvalInput → Outcome → S → List (ActionResult E) × S
  unfolding apply_all
  apply_outcome mailbox input outcome s = apply_all mailbox input.message_id outcome.applied s
