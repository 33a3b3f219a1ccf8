-- ===== src/Tests/Logs.antt =====
-- Log records that are censored or cut into packets, at concrete inputs.
use pysoa.Prelude.{
  zero, suc, ◌≤◌, ◌≡◌, refl, none, some, List, [], ◌∷◌, ◌++◌, arith, Bytes, codes, length, All,
  negsuc, pos, decimal, ltz, false,
}
use pysoa.Value.{atom, str, dict, set, int, list, item, no_items, field, no_fields, Fields}
use pysoa.Logging.Censor.{censor_dict}
use pysoa.Logging.Censor.Hidden.{HiddenFields, censor_dict-HiddenFields}
use pysoa.Logging.Context.{
  LogContext, ContextFilter, Operation, set_context, clear_context, set_action, clear_action,
  apply_all, attributes,
}
use pysoa.Logging.Context.Nesting.{nothing, context, action, attributes-apply_all}
use pysoa.Logging.Syslog.{
  cleanly_slice_encoded_string, minus, fragments, Text, encode, Handler, fragment, packet,
  preamble_of, message_length_limit, chunk_length_limit, emit_parts,
}
use pysoa.Logging.Syslog.Slices.{IsChar, fitting, left, cleanly_slice_encoded_string-encode}
use pysoa.Logging.Syslog.Fragments.{concat, parts_of, Fit, Room}
use pysoa.Logging.Syslog.Packets.{emit_parts-parts_of, fragments_endless}

abbrev logged : Fields
logged =
    field "token"
      (list (item (atom (str "abc")) (item (set (int (pos 1) ∷ int (pos 2) ∷ [])) no_items)))
      (field "user" (dict (field "pin" (atom (int (pos 1234))) no_fields)) no_fields)

censor_dict-HiddenFields_example : HiddenFields (censor_dict logged)
censor_dict-HiddenFields_example = censor_dict-HiddenFields logged

-- a character of four bytes
abbrev smile : Bytes
smile = 240 ∷ 159 ∷ 152 ∷ 128 ∷ []

smile-IsChar : IsChar smile
smile-IsChar = ((144, 191) ∷ (128, 191) ∷ (128, 191) ∷ [], refl, (refl, (refl, (refl, tt))))

abbrev smiles : Text
smiles = smile ∷ smile ∷ smile ∷ smile ∷ smile ∷ smile ∷ smile ∷ smile ∷ []

abbrev IsText : Text → Type 0
IsText text = All IsChar text

smiles-IsText : IsText smiles
smiles-IsText = let c = smile-IsChar in (c, (c, (c, (c, (c, (c, (c, (c, tt))))))))

cleanly_slice_encoded_string-encode_example :
    (cleanly_slice_encoded_string (encode smiles) (pos 10)
      ≡ (encode (fitting 10 smiles), encode (left 10 smiles)))
    × (fitting 10 smiles ++ left 10 smiles ≡ smiles)
    × (length (encode (fitting 10 smiles)) ≤ 10)
cleanly_slice_encoded_string-encode_example =
    cleanly_slice_encoded_string-encode 10 smiles smiles-IsText

abbrev handler : Handler
handler = record {
  maximum_length = 42;
  overflow = fragment;
  priority = codes "<14>";
  prefix = [];
  suffix = 0 ∷ [];
}

abbrev info : Text
info = codes "I" ∷ codes "N" ∷ codes "F" ∷ codes "O" ∷ codes " " ∷ []

-- Nine numbers of parts leave room for four bytes of twenty.
room : Room 20 1 8
unfolding decimal
room zero le = omega arith
room (suc zero) le = omega arith
room (suc (suc zero)) le = omega arith
room (suc (suc (suc zero))) le = omega arith
room (suc (suc (suc (suc zero)))) le = omega arith
room (suc (suc (suc (suc (suc zero))))) le = omega arith
room (suc (suc (suc (suc (suc (suc zero)))))) le = omega arith
room (suc (suc (suc (suc (suc (suc (suc zero))))))) le = omega arith
room (suc (suc (suc (suc (suc (suc (suc (suc zero)))))))) le = omega arith
room (suc (suc (suc (suc (suc (suc (suc (suc (suc zero))))))))) le = omega arith
room (suc (suc (suc (suc (suc (suc (suc (suc (suc (suc j)))))))))) le = absurd (omega arith)

long : ltz (pos (length (encode (info ++ smiles)))) (message_length_limit handler) ≡ false
unfolding minus
long = refl

split : preamble_of (info ++ smiles) (some smiles) ≡ (info, smiles)
unfolding preamble_of
split = refl

limit : chunk_length_limit handler (encode info) ≡ pos 20
unfolding minus
limit = refl

emit_parts-parts_of_example :
    let whole = λ (part : Bytes). packet handler (encode info ++ part) in
    (texts : List Text) × (emit_parts 9 handler (info ++ smiles) (some smiles)
      ≡ some (parts_of whole 1 texts))
    × (concat texts ≡ smiles)
    × Fit 20 1 texts
    × All (λ part. length part ≤ 42) (parts_of whole 1 texts)
emit_parts-parts_of_example =
    emit_parts-parts_of 9 handler (info ++ smiles) info smiles (some smiles) 20 refl long split
      smiles-IsText limit room (omega arith)

fragments_endless_example : fragments 1000 (λ part. part) (negsuc 4) 1 (codes "text") ≡ none
fragments_endless_example =
    fragments_endless 1000 (λ part. part) 4 1 b't' (codes "ext") (omega arith)

abbrev some_context : LogContext
some_context = record { correlation_id = some "abc"; request_id = none }

abbrev outside : ContextFilter
outside = record { contexts = none; actions = none; service_name = some "users" }

abbrev operations : List Operation
operations = set_context some_context ∷ set_action "greet" ∷ clear_action ∷ clear_context ∷ []

attributes-apply_all_example : attributes (apply_all operations outside) ≡ attributes outside
attributes-apply_all_example = attributes-apply_all operations outside (
    context some_context (set_action "greet" ∷ clear_action ∷ []) []
      (action "greet" [] [] nothing nothing) nothing)
