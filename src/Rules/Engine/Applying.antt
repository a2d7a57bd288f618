-- ===== src/Rules/Engine/Applying.antt =====
-- ApplyOutcome against a mail server that may refuse any call.
use llama_labels.Common.{arith, String, Option, ◌≡◌, refl, ap, List, [], ◌∷◌, ◌++◌, map, ◌∙◌}
use llama_labels.Rules.{Action}
use llama_labels.Rules.Matching.{EvalInput}
use llama_labels.Rules.Engine.{Outcome, Client, apply_action, apply_all, apply_outcome}

pub data Call : Type 0 where
  labels unlabels : String → String → Call
  acts : String → String → String → String → Call

-- A mail server that keeps a list of the calls, and refuses some of them.
abbrev pub recorder : {E : Type 0} → (Call → Option E) → Client (List Call) E
recorder refuse = record {
  apply_label = λ id value log. (refuse (labels id value), log ++ labels id value ∷ []);
  remove_label = λ id value log. (refuse (unlabels id value), log ++ unlabels id value ∷ []);
  apply_inbox_action = λ id act mailbox value log.
      (refuse (acts id act mailbox value), log ++ acts id act mailbox value ∷ []);
}

module _ {E : Type 0} (refuse never : Call → Option E) where
  apply_action-log :
      (mailbox id : String) (a : Action) (log : List Call)
      → (apply_action (recorder refuse) mailbox id a log).1
        ≡ (apply_action (recorder never) mailbox id a log).1
  unfolding apply_action
  apply_action-log mailbox id a log = ground arith

  apply_all-log :
      (mailbox id : String) (actions : List Action) (log : List Call)
      → (apply_all (recorder refuse) mailbox id actions log).1
        ≡ (apply_all (recorder never) mailbox id actions log).1
  unfolding apply_all
  apply_all-log mailbox id [] log = refl
  apply_all-log mailbox id (a ∷ actions) log =
      apply_all-log mailbox id actions _
      ∙ ap (λ l. (apply_all (recorder never) mailbox id actions l).1)
          (apply_action-log mailbox id a log)

  apply_all-actions :
      (mailbox id : String) (actions : List Action) (log : List Call)
      → map (λ r. r.action) (apply_all (recorder refuse) mailbox id actions log).0 ≡ actions
  unfolding apply_all
  apply_all-actions mailbox id [] log = refl
  apply_all-actions mailbox id (a ∷ actions) log =
      ap (λ rest. a ∷ rest) (apply_all-actions mailbox id actions _)

  -- Whichever calls the mail server refuses, ApplyOutcome makes the calls that it makes on a server that
  -- refuses others or none, in the same order, and returns one result per action, in the actions' order.
  pub apply_outcome-undeterred :
      (mailbox : String) (input : EvalInput) (outcome : Outcome) (log : List Call)
      → ((apply_outcome (recorder refuse) mailbox input outcome log).1
          ≡ (apply_outcome (recorder never) mailbox input outcome log).1)
        × (map (λ r. r.action) (apply_outcome (recorder refuse) mailbox input outcome log).0
            ≡ outcome.applied)
  unfolding apply_outcome
  apply_outcome-undeterred mailbox input outcome log = (
    apply_all-log mailbox input.message_id outcome.applied log,
    apply_all-actions mailbox input.message_id outcome.applied log,
  )
