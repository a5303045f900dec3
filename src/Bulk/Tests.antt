-- ===== src/Bulk/Tests.antt =====
-- Bulk requests of pkg/coordination/bulk at concrete inputs. A line is what it decodes to, and `none` is a blank one.
use quidditch.Common.{◌≡◌, refl, Bool, true, false, Option, none, some, List, [], ◌∷◌, map}
use quidditch.Common.Results.{ok, err}
use quidditch.Json.{num, str, obj, Fields, single, get}
use quidditch.Bulk.Request.{
  index, update, scan, action_of, missing_document, missing_index, parse_bulk_request,
}
use quidditch.Bulk.Commands.{Command, write, change, remove, operation_of}
use quidditch.Bulk.RoundTrip.{print_commands, parse_bulk_request-print, parse_bulk_request-panics}

abbrev Line : Type 0
Line = Option Fields

abbrev blank : Line → Bool
blank none = true
blank (some fs) = false

abbrev commands : List Command
commands = change "books" "2" (single "price" (num 3)) ∷ remove "books" "" ∷ []

abbrev first : Command
first = write false "books" "1" (single "title" (str "antigone"))

parse_bulk_request-print_example :
    parse_bulk_request blank
      (λ l. l)
      (print_commands blank (λ l. l) some (first ∷ commands) [])
      false
    ≡ some (ok (map operation_of (first ∷ commands)))
parse_bulk_request-print_example =
    parse_bulk_request-print blank (λ l. l) some (λ fs. refl) (λ fs. refl) first commands
      (refl, (refl, (refl, tt)))

parse_bulk_request-panics_example :
    parse_bulk_request blank
      (λ l. l)
      (print_commands blank (λ l. l) some commands (some (single "update" (num 5)) ∷ none ∷ []))
      false
    ≡ none
parse_bulk_request-panics_example =
    parse_bulk_request-panics blank (λ l. l) some (λ fs. refl) (λ fs. refl) commands update (num 5)
      (none ∷ []) false (refl, (refl, tt)) refl

-- Blank lines between operations are skipped, and those between an action and its document are not.
index_without_document :
    parse_bulk_request blank
      (λ l. l)
      (none ∷ some (single "index" (obj (single "_index" (str "books")))) ∷ [])
      false
    ≡ some (err (missing_document index 2))
unfolding parse_bulk_request scan action_of get
index_without_document = refl

nameless :
    parse_bulk_request blank
      (λ l. l)
      (some (single "delete" (obj (single "_id" (str "1")))) ∷ [])
      false
    ≡ some (err (missing_index 1))
unfolding parse_bulk_request scan action_of get
nameless = refl
