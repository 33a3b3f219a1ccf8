-- ===== src/Client/Headers.antt =====
-- The headers of a job request in pysoa/client/client.py: _make_control_header and
-- _make_context_header, and the headers of the requests of call_jobs_parallel.
pub mod Switches
use pysoa.Prelude.{
  ℕ, String, Bool, true, false, ◌||◌, Option, none, some, List, [], ◌∷◌, ◌++◌, ◌==◌, any,
  if◌then◌else◌, ℤ, pos, eqz, str_eq,
}
use pysoa.Value.{Value, Fields, no_fields, field, atom, bool, int}
use pysoa.Server.Types.{Context}

-- A context dictionary, by the entries that the client reads.
pub record ContextDict : Type 0 where
  pub switches : Option (List ℤ)
  pub correlation_id : Option (Option String)
  pub others : Fields

abbrev pub or_else {ℓ} : {A : Type ℓ} → Option A → A → A
or_else none a = a
or_else (some a) b = a

-- d[key] = value
abbrev pub put : String → Value → Fields → Fields
put key value no_fields = field key value no_fields
put key value (field k v fields) =
    if str_eq k key then field k value fields else field k v (put key value fields)

-- d.update(more)
abbrev pub put_all : Fields → Fields → Fields
put_all no_fields fields = fields
put_all (field key value more) fields = put_all more (put key value fields)

abbrev pub has_key : String → Fields → Bool
has_key key no_fields = false
has_key key (field k v fields) = str_eq k key || has_key key fields

-- send_request's copy of `control_extra`: the expiry is the timeout, unless that is given
abbrev pub with_timeout : Option ℕ → Fields → Fields
with_timeout none extra = extra
with_timeout (some seconds) extra =
    if seconds == 0 || has_key "timeout" extra
    then extra
    else put "timeout" (atom (int (pos seconds))) extra

unfoldable pub make_control_header : (continue_on_error suppress_response : Bool) → Fields → Fields
make_control_header continue_on_error suppress_response extra = put_all extra (
    field "continue_on_error" (atom (bool continue_on_error))
      (field "suppress_response" (atom (bool suppress_response)) no_fields))

abbrev pub member : ℤ → List ℤ → Bool
member s = any (λ x. eqz x s)

-- list(set(xs) | set(ys)), in the order of first occurrence
abbrev pub add : ℤ → List ℤ → List ℤ
add x xs = if member x xs then xs else xs ++ x ∷ []

abbrev pub add_all : List ℤ → List ℤ → List ℤ
add_all [] xs = xs
add_all (y ∷ ys) xs = add_all ys (add y xs)

abbrev pub union : List ℤ → List ℤ → List ℤ
union xs ys = add_all ys (add_all xs [])

-- the correlation ID of the client's own context, of the argument, or a new one
abbrev pub base_correlation_id : Option (Option String) → String → Option String → Option String
base_correlation_id old new (some given) = some given
base_correlation_id (some old) new none = old
base_correlation_id none new none = some new

abbrev pub switches_of : Option ContextDict → List ℤ
switches_of none = []
switches_of (some extra) = or_else extra.switches []

-- `context_extra` when its switches have been popped: the caller's own dictionary
abbrev pub popped : Option ContextDict → Option ContextDict
popped none = none
popped (some extra) = some (record extra { switches = none })

-- context.update(context_extra), which has no switches by now
abbrev pub update : Option ContextDict → Context → Context
update none context = context
update (some extra) context = record context {
  correlation_id = or_else extra.correlation_id context.correlation_id;
  others = put_all extra.others context.others;
}

-- _make_context_header: the header, and what is left of `context_extra`; `new_id` is the ID of
-- `uuid.uuid1()`
unfoldable pub make_context_header :
    (context : ContextDict) (new_id : String) (switches : List ℤ) (correlation_id : Option String)
    (context_extra : Option ContextDict)
    → Context × Option ContextDict
make_context_header context new_id switches correlation_id context_extra = (
  update (popped context_extra) (record {
    switches = union (or_else context.switches []) (union switches (switches_of context_extra));
    correlation_id = base_correlation_id context.correlation_id new_id correlation_id;
    others = context.others;
  }),
  popped context_extra,
)

-- The headers of the requests that call_jobs_parallel sends, one for each job and its new ID: they
-- are all made with the same `context_extra`.
unfoldable pub parallel_headers :
    (context : ContextDict) (switches : List ℤ) (correlation_id : Option String)
    → Option ContextDict
    → List String
    → List Context
parallel_headers context switches correlation_id context_extra [] = []
parallel_headers context switches correlation_id context_extra (new_id ∷ new_ids) =
    let (header, left) = make_context_header context new_id switches correlation_id context_extra in
    header ∷ parallel_headers context switches correlation_id left new_ids
