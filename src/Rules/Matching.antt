-- ===== src/Rules/Matching.antt =====
-- backend/internal/rules/engine.go: whether a rule fires for a message.
use Prim.Native.Char.{code}
use Prim.Native.String as Str
use Prim.Native.String.{◌++◌}
use llama_labels.Common.{
  ℕ, String, Bool, true, false, not, ◌&&◌, ◌||◌, Option, none, some, List, [], ◌∷◌, nat_eq, any,
  if◌then◌else◌, ◌==◌,
}
use llama_labels.Common.Text.{trim_space}
use text.Mathlib.Text.{find?}
use llama_labels.Rules.{
  Condition, leaf, nested, Conditions, end, also, MatchGroup, group, RuleScope, Rule, Texts,
}

pub record EvalInput : Type 0 where
  pub uid : ℕ
  pub message_id : String
  pub from : String
  pub to : String
  pub cc : String
  pub bcc : String
  pub subject : String
  pub body : String
  pub keywords : List String
  pub folder : String

abbrev is_found : Option ℕ → Bool
is_found none = false
is_found (some i) = true

-- strings.Contains
abbrev pub contains : String → String → Bool
contains s t = is_found (find? s t)

module _ (texts : Texts) where
  open texts use {to_lower, equal_fold, quote_meta, compile}

  folds_together : String → String → Bool
  folds_together s t = equal_fold (trim_space s) (trim_space t)

  unfoldable pub folder_in_scope : RuleScope → String → Bool
  unfolding folds_together
  folder_in_scope scope folder = elim scope.folders [
    | [] ↦ true
    | f ∷ fs ↦ any (λ g. folds_together g folder) (f ∷ fs)
  ]

  -- A glob as a regular expression: `*` is any run of characters and `?` is one.
  unfoldable pub wildcard_to_regexp : String → String
  wildcard_to_regexp Str.[] = ""
  wildcard_to_regexp (Str.◌∷◌ c s) =
      (if nat_eq (code c) 42
        then ".*"
        else if nat_eq (code c) 63
        then "."
        else quote_meta (Str.◌∷◌ c ""))
      ++ wildcard_to_regexp s

  abbrev matches_regexp : Option (String → Bool) → String → Bool
  matches_regexp none candidate = false
  matches_regexp (some re) candidate = re candidate

  unfoldable pub matches_value : String → String → String → Bool
  unfolding folds_together wildcard_to_regexp
  matches_value comparator candidate value =
      let name = to_lower (trim_space comparator) in
      if name == "exists"
      then not (trim_space candidate == "")
      else if name == "is"
      then folds_together candidate value
      else if name == "matches"
      then matches_regexp (compile ("(?is)^" ++ wildcard_to_regexp value ++ "$")) candidate
      else if name == "regex"
      then matches_regexp (compile ("(?is)" ++ value)) candidate
      else contains (to_lower candidate) (to_lower value)

  unfoldable pub field_value : EvalInput → String → String
  field_value input field =
      let name = to_lower (trim_space field) in
      if name == "from"
      then input.from
      else if name == "to"
      then input.to
      else if name == "cc"
      then input.cc
      else if name == "bcc"
      then input.bcc
      else if name == "subject"
      then input.subject
      else if name == "body"
      then input.body
      else ""

  abbrev negated : Bool → Bool → Bool
  negated negate result = if negate then not result else result

  unfoldable pub leaf_matches : String → String → String → EvalInput → Bool
  unfolding folds_together
  leaf_matches field comparator value input =
      if equal_fold (trim_space field) "keyword"
      then any (λ kw. matches_value comparator kw value) input.keywords
      else matches_value comparator (field_value input field) value

  unfoldable mutual
    pub condition_matches : Condition → EvalInput → Bool
    condition_matches (leaf negate field comparator value) input =
        negated negate (leaf_matches field comparator value input)
    condition_matches (nested negate g field comparator value) input =
        negated negate (match_group g input)

    pub any_matches : Conditions → EvalInput → Bool
    any_matches end input = false
    any_matches (also c cs) input = condition_matches c input || any_matches cs input

    pub all_match : Conditions → EvalInput → Bool
    all_match end input = true
    all_match (also c cs) input = condition_matches c input && all_match cs input

    pub match_group : MatchGroup → EvalInput → Bool
    match_group (group op cs) input =
        let any = any_matches cs input in
        let all = all_match cs input in if to_lower (trim_space op) == "anyof" then any else all

  -- The rule is enabled, in scope, and its condition holds.
  unfoldable pub fires : EvalInput → Rule → Bool
  unfolding folder_in_scope match_group
  fires input r = r.enabled && (folder_in_scope r.scope input.folder && match_group r.match input)
