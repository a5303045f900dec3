-- ===== src/Bulk/RoundTrip.antt =====
-- Parsing the lines of operations with pkg/coordination/bulk/bulk.go.
use quidditch.Common.{
  ℕ, suc, ◌≡◌, refl, ap, ◌∙◌, String, Bool, true, false, Option, none, some, List, [], ◌∷◌, ◌++◌,
  map, str_eq,
}
use quidditch.Common.Results.{ok}
use quidditch.Json.{Json, obj, Fields, single, get, as_object}
use quidditch.Bulk.Request.{
  OperationType, index, create, update, delete, type_name, Operation, also, action, scan,
  parse_bulk_request, action_of, document_of, new_operation, at_action, some_operations,
  needs_document, with_document,
}
use quidditch.Bulk.Commands.{
  Command, write, change, remove, operation_of, meta_fields, meta_of, lines_of, AllIndexed, alsos,
  lines_after, alsos-ok, alsos-none, at_action-write, at_action-remove,
}

module _ {ℓ} {Line : Type ℓ} (is_blank : Line → Bool) (unmarshal : Line → Option Fields)
    (marshal : Fields → Line) where
  unfoldable pub print_commands : List Command → List Line → List Line
  print_commands [] rest = rest
  print_commands (c ∷ cs) rest = map marshal (lines_of c) ++ print_commands cs rest

  module _ (shows : (fs : Fields) → is_blank (marshal fs) ≡ false)
      (decodes : (fs : Fields) → unmarshal (marshal fs) ≡ some fs) where
    scan-action :
        (fs : Fields) (ls : List Line) (n : ℕ) (failed : Bool)
        → scan is_blank unmarshal action n (marshal fs ∷ ls) failed
          ≡ at_action false
              (some fs)
              (suc n)
              (λ next. scan is_blank unmarshal next (suc n) ls failed)
    unfolding scan
    scan-action fs ls n failed = rw (shows fs) (rw (decodes fs) refl)

    scan-document :
        (o : Operation) (line : ℕ) (fs : Fields) (ls : List Line) (n : ℕ) (failed : Bool)
        → scan is_blank unmarshal (document_of o line) n (marshal fs ∷ ls) failed
          ≡ also (with_document o fs) (scan is_blank unmarshal action (suc n) ls failed)
    unfolding scan
    scan-document o line fs ls n failed = rw (shows fs) (rw (decodes fs) refl)

    -- An action with its document.
    scan-write :
        (t : OperationType) (i id : String) (fs : Fields) (ls : List Line) (n : ℕ) (failed : Bool)
        → needs_document t ≡ true
        → str_eq i "" ≡ false
        → scan is_blank unmarshal action n
            (marshal (single (type_name t) (meta_of i id)) ∷ marshal fs ∷ ls)
            failed
          ≡ also
              (with_document (new_operation t (meta_fields i id)) fs)
              (scan is_blank unmarshal action (suc (suc n)) ls failed)
    scan-write t i id fs ls n failed needs has =
        scan-action _ _ n failed
        ∙ at_action-write t i id (suc n) _ needs has
        ∙ scan-document (new_operation t (meta_fields i id)) (suc n) fs ls (suc n) failed

    scan-print :
        (cs : List Command) (rest : List Line) (n : ℕ) (failed : Bool)
        → AllIndexed cs
        → scan is_blank unmarshal action n (print_commands cs rest) failed
          ≡ alsos
              (map operation_of cs)
              (scan is_blank unmarshal action (lines_after n cs) rest failed)
    unfolding print_commands get
    scan-print [] rest n failed indexed = refl
    scan-print (write true i id d ∷ cs) rest n failed (has, indexed) =
        scan-write create i id d _ n failed refl has
        ∙ ap (also _) (scan-print cs rest (suc (suc n)) failed indexed)
    scan-print (write false i id d ∷ cs) rest n failed (has, indexed) =
        scan-write index i id d _ n failed refl has
        ∙ ap (also _) (scan-print cs rest (suc (suc n)) failed indexed)
    scan-print (change i id d ∷ cs) rest n failed (has, indexed) =
        scan-write update i id (single "doc" (obj d)) _ n failed refl has
        ∙ ap (also _) (scan-print cs rest (suc (suc n)) failed indexed)
    scan-print (remove i id ∷ cs) rest n failed (has, indexed) =
        scan-action _ _ n failed
        ∙ at_action-remove i id (suc n) _ has
        ∙ ap (also _) (scan-print cs rest (suc n) failed indexed)

    -- An action whose entry is not an object.
    scan-panics :
        (t : OperationType) (v : Json) (rest : List Line) (n : ℕ) (failed : Bool)
        → as_object (some v) ≡ none
        → scan is_blank unmarshal action n (marshal (single (type_name t) v) ∷ rest) failed ≡ none
    unfolding action_of get
    scan-panics index v rest n failed bad = scan-action _ _ n failed ∙ rw bad refl
    scan-panics create v rest n failed bad = scan-action _ _ n failed ∙ rw bad refl
    scan-panics update v rest n failed bad = scan-action _ _ n failed ∙ rw bad refl
    scan-panics delete v rest n failed bad = scan-action _ _ n failed ∙ rw bad refl

    -- A parsed command reads its first line.
    parse-scan :
        (c : Command) (cs : List Command) (rest : List Line) (failed : Bool)
        → parse_bulk_request is_blank unmarshal (print_commands (c ∷ cs) rest) failed
          ≡ some_operations (scan is_blank unmarshal action 0 (print_commands (c ∷ cs) rest) failed)
    unfolding parse_bulk_request print_commands
    parse-scan (write b i id d) cs rest failed = refl
    parse-scan (change i id d) cs rest failed = refl
    parse-scan (remove i id) cs rest failed = refl

    -- Where blanks are the lines that print nothing, and JSON that is encoded is decoded as it was, the lines of commands with index
    -- names are parsed as the operations that the commands mean.
    pub parse_bulk_request-print :
        (c : Command) (cs : List Command)
        → AllIndexed (c ∷ cs)
        → parse_bulk_request is_blank unmarshal (print_commands (c ∷ cs) []) false
          ≡ some (ok (map operation_of (c ∷ cs)))
    unfolding scan
    parse_bulk_request-print c cs indexed =
        parse-scan c cs [] false
        ∙ ap some_operations
            (scan-print (c ∷ cs) [] 0 false indexed ∙ alsos-ok (map operation_of (c ∷ cs)))

    -- Under the same conditions, an action whose entry is not an object makes the parser panic, whatever commands stand before it and whatever lines after.
    pub parse_bulk_request-panics :
        (cs : List Command) (t : OperationType) (v : Json) (rest : List Line) (failed : Bool)
        → AllIndexed cs
        → as_object (some v) ≡ none
        → parse_bulk_request is_blank unmarshal
            (print_commands cs (marshal (single (type_name t) v) ∷ rest))
            failed
          ≡ none
    unfolding parse_bulk_request print_commands
    parse_bulk_request-panics [] t v rest failed indexed bad =
        ap some_operations (scan-panics t v rest 0 failed bad)
    parse_bulk_request-panics (c ∷ cs) t v rest failed indexed bad =
        parse-scan c cs _ failed
        ∙ ap some_operations (
            scan-print (c ∷ cs) _ 0 failed indexed
            ∙ ap (alsos (map operation_of (c ∷ cs))) (scan-panics t v rest _ failed bad)
            ∙ alsos-none (map operation_of (c ∷ cs)))
