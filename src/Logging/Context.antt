-- ===== src/Logging/Context.antt =====
-- PySOALogContextFilter of pysoa/common/logging.py: the stacks of request contexts and action names,
-- and what the filter writes into a record.
pub mod Nesting
use pysoa.Prelude.{
  String, Bool, true, false, Option, none, some, List, [], ◌∷◌, if◌then◌else◌, str_eq,
}

-- A context, by the entries that the filter reads.
pub record LogContext : Type 0 where
  pub correlation_id : Option String
  pub request_id : Option String

-- What a context variable holds: None, or a list, here with its last element first.
abbrev pub Stack : Type 0 → Type 0
Stack A = Option (List A)

-- `if not value: value = []`, and value.append(...)
unfoldable pub append_to : {A : Type 0} → A → Stack A → Stack A
append_to a none = some (a ∷ [])
append_to a (some value) = some (a ∷ value)

-- `if value: value.pop()`
unfoldable pub pop : {A : Type 0} → Stack A → Stack A
pop none = none
pop (some []) = some []
pop (some (a ∷ value)) = some value

-- value[-1] if value else None
unfoldable pub top : {A : Type 0} → Stack A → Option A
top none = none
top (some []) = none
top (some (a ∷ value)) = some a

pub record ContextFilter : Type 0 where
  pub contexts : Stack LogContext
  pub actions : Stack String
  pub service_name : Option String

-- the class methods that set and clear
pub data Operation : Type 0 where
  set_context : LogContext → Operation
  clear_context : Operation
  set_action : String → Operation
  clear_action : Operation
  set_service_name : String → Operation

unfoldable pub apply : Operation → ContextFilter → ContextFilter
unfolding append_to pop
apply (set_context c) f = record f { contexts = append_to c f.contexts }
apply clear_context f = record f { contexts = pop f.contexts }
apply (set_action a) f = record f { actions = append_to a f.actions }
apply clear_action f = record f { actions = pop f.actions }
apply (set_service_name s) f = record f { service_name = some s }

unfoldable pub apply_all : List Operation → ContextFilter → ContextFilter
unfolding apply
apply_all [] f = f
apply_all (o ∷ operations) f = apply_all operations (apply o f)

-- `value or default`, of a text or None
abbrev pub or_text : Option String → String → String
or_text none default = default
or_text (some s) default = if str_eq s "" then default else s

-- the attributes that the filter sets on a record
pub record Attributes : Type 0 where
  pub correlation : String
  pub request : String
  pub service : String
  pub action : String

abbrev id_of : (LogContext → Option String) → Option LogContext → String
id_of entry none = "--"
id_of entry (some c) = or_text (entry c) "--"

-- filter(record)
unfoldable pub attributes : ContextFilter → Attributes
unfolding top
attributes f = record {
  correlation = id_of (λ (c : LogContext). c.correlation_id) (top f.contexts);
  request = id_of (λ (c : LogContext). c.request_id) (top f.contexts);
  service = or_text f.service_name "unknown";
  action = or_text (top f.actions) "(n/a)";
}
