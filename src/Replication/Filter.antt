-- ===== src/Replication/Filter.antt =====
-- service/replication/subscription_filter.go: the predicates of a subscription. Converting a number to
-- float64 and testing a prefix are arguments.
use laredo.Common.{
  ℕ, String, Bool, true, false, Option, none, some, List, [], ◌∷◌, ◌++◌, if◌then◌else◌, get, ◌==◌,
  comparable_string,
}
use laredo.Types.{
  present, same_value, Value, null, text, other, Row, insert, update, remove, truncate,
}
use laredo.Fanout.Journal.{JournalEntry}

-- What the code takes from Go and package strings. A value that is no number is its own `to_float`;
-- `same_number` is Go's `==` of two values that are not texts.
pub record Scalars : Type 0 where
  pub to_float : ℕ → ℕ
  pub same_number : ℕ → ℕ → Bool
  pub has_prefix : String → String → Bool

-- the condition of a `FieldPredicate`, where it has one
pub data Match : Type 0 where
  equals : Value → Match
  prefix : String → Match
  within : List Value → Match

-- `FieldPredicate`
pub record FieldPredicate : Type 0 where
  pub field : String
  pub condition : Option Match

-- `compiledPredicate`, its values normalized
pub record CompiledPredicate : Type 0 where
  pub field : String
  pub kind : Match

module _ (g : Scalars) where
  -- `normalize`
  unfoldable pub normalize : Value → Value
  normalize null = null
  normalize (text s) = text s
  normalize (other n) = other (g.to_float n)

  unfoldable pub normalize_each : List Value → List Value
  unfolding normalize
  normalize_each [] = []
  normalize_each (v ∷ vs) = normalize v ∷ normalize_each vs

  unfoldable pub compile_match : Match → Match
  unfolding normalize normalize_each
  compile_match (equals v) = equals (normalize v)
  compile_match (prefix s) = prefix s
  compile_match (within vs) = within (normalize_each vs)

  -- the loop of `compileSubscriptionFilter`; `none` is its error
  unfoldable pub compile_each :
      List FieldPredicate → List CompiledPredicate → Option (List CompiledPredicate)
  unfolding compile_match
  compile_each [] compiled = some compiled
  compile_each (p ∷ ps) compiled = if p.field == "" then none else elim p.condition [
    | none ↦ none
    | some m ↦
        compile_each ps (compiled ++ (record { field = p.field; kind = compile_match m } ∷ []))
  ]

  -- `compileSubscriptionFilter`: the inner `none` is the nil filter
  unfoldable pub compile_subscription_filter :
      List FieldPredicate → Option (Option (List CompiledPredicate))
  unfolding compile_each
  compile_subscription_filter [] = some none
  compile_subscription_filter (p ∷ ps) = elim (compile_each (p ∷ ps) []) [
    | none ↦ none
    | some preds ↦ some (some preds)
  ]

  unfoldable pub any_same : Value → List Value → Bool
  unfolding same_value
  any_same v [] = false
  any_same v (want ∷ rest) = if same_value g.same_number v want then true else any_same v rest

  unfoldable pub match_value : Match → Value → Bool
  unfolding normalize same_value any_same
  match_value (equals want) v = same_value g.same_number (normalize v) want
  match_value (prefix p) (text s) = g.has_prefix s p
  match_value (prefix p) _ = false
  match_value (within vs) v = any_same (normalize v) vs

  -- `match`
  unfoldable pub match_predicate : CompiledPredicate → Row → Bool
  unfolding match_value
  match_predicate p row = elim (get row p.field) [
    | none ↦ false
    | some null ↦ false
    | some v ↦ match_value p.kind v
  ]

  -- the loop of `matchRow`
  unfoldable pub match_all : List CompiledPredicate → Row → Bool
  unfolding match_predicate
  match_all [] row = true
  match_all (p ∷ ps) row = if match_predicate p row then match_all ps row else false

  -- `matchRow`
  unfoldable pub match_row : Option (List CompiledPredicate) → Row → Bool
  unfolding match_all
  match_row none row = true
  match_row (some preds) row = match_all preds row

  -- `matchEntry`
  unfoldable pub match_entry :
      {P : Type 0} → Option (List CompiledPredicate) → JournalEntry P → Bool
  unfolding match_row
  match_entry none e = true
  match_entry (some preds) e = elim e.action [
    | remove ↦ match_row (some preds) (present e.old_values)
    | truncate ↦ true
    | insert ↦ match_row (some preds) (present e.new_values)
    | update ↦ match_row (some preds) (present e.new_values)
  ]
