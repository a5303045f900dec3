-- ===== src/Bulk/Request.antt =====
-- `ParseBulkRequest` and `BulkResponse` of pkg/coordination/bulk/bulk.go. The lines are those that the scanner gives.
use quidditch.Common.{
  ℕ, suc, String, Bool, true, false, Option, none, some, List, [], ◌∷◌, ◌++◌, str_eq,
}
use quidditch.Common.Results.{Result, ok, err}
use quidditch.Json.{Json, Fields, get, as_string, as_object, or_zero}

pub data OperationType : Type 0 where
  index create update delete : OperationType

abbrev pub type_name : OperationType → String
type_name index = "index"
type_name create = "create"
type_name update = "update"
type_name delete = "delete"

-- `BulkOperation`; a nil map is `none`.
pub record Operation : Type 0 where
  pub kind : OperationType
  pub index_name : String
  pub id : String
  pub document : Option Fields
  pub update_doc : Option Fields

pub data BulkError : Type 0 where
  empty_request no_operations read_failed : BulkError
  action_unparsed unknown_operation missing_index document_unparsed : ℕ → BulkError
  missing_document empty_document : OperationType → ℕ → BulkError

-- What is read of an operation, `none` for a panic.
abbrev pub Parsed : Type 0
Parsed = Option (Result BulkError (List Operation))

abbrev pub also : Operation → Parsed → Parsed
also o none = none
also o (some (err e)) = some (err e)
also o (some (ok os)) = some (ok (o ∷ os))

-- The type of an action and its entry: the first of the four that is there.
unfoldable pub action_of : Fields → Option (OperationType × Json)
action_of fs = elim (get "index" fs) [
  | some v ↦ some (index, v)
  | none ↦ elim (get "create" fs) [
    | some v ↦ some (create, v)
    | none ↦ elim (get "update" fs) [
      | some v ↦ some (update, v)
      | none ↦ elim (get "delete" fs) [ some v ↦ some (delete, v) | none ↦ none ]
    ]
  ]
]

abbrev pub needs_document : OperationType → Bool
needs_document delete = false
needs_document _ = true

-- The operation of an action line, before its document is read.
abbrev pub new_operation : OperationType → Fields → Operation
new_operation t meta = record {
  kind = t;
  index_name = or_zero "" (as_string (get "_index" meta));
  id = or_zero "" (as_string (get "_id" meta));
  document = none;
  update_doc = none;
}

-- An update takes the field "doc" of its document, if that is an object.
abbrev pub doc_field : Fields → Option Fields → Option Fields
doc_field d none = some d
doc_field d (some u) = some u

abbrev pub with_document : Operation → Fields → Operation
with_document o d = elim o.kind [
  | update ↦ record o { update_doc = doc_field d (as_object (get "doc" d)) }
  | index ↦ record o { document = some d }
  | create ↦ record o { document = some d }
  | delete ↦ record o { document = some d }
]

-- Whether an action comes next, or the document of an operation whose action is on a line.
pub data Next : Type 0 where
  action : Next
  document_of : Operation → ℕ → Next

-- What one line does, given how the loop goes on from the next.
abbrev pub at_operation : Operation → ℕ → (Next → Parsed) → Parsed
at_operation o n go = elim (str_eq o.index_name "") [
  | true ↦ some (err (missing_index n))
  | false ↦ elim (needs_document o.kind) [
    | true ↦ go (document_of o n)
    | false ↦ also o (go action)
  ]
]

-- The entry of an action is asserted to be an object: the assertion panics on any other value.
abbrev pub at_entry : OperationType → Option Fields → ℕ → (Next → Parsed) → Parsed
at_entry t none n go = none
at_entry t (some meta) n go = at_operation (new_operation t meta) n go

abbrev pub at_known : Option (OperationType × Json) → ℕ → (Next → Parsed) → Parsed
at_known none n go = some (err (unknown_operation n))
at_known (some (t, v)) n go = at_entry t (as_object (some v)) n go

abbrev pub at_action : Bool → Option Fields → ℕ → (Next → Parsed) → Parsed
at_action true decoded n go = go action
at_action false none n go = some (err (action_unparsed n))
at_action false (some fs) n go = at_known (action_of fs) n go

abbrev pub at_document : Operation → ℕ → Bool → Option Fields → ℕ → (Next → Parsed) → Parsed
at_document o line true decoded n go = some (err (empty_document o.kind line))
at_document o line false none n go = some (err (document_unparsed n))
at_document o line false (some d) n go = also (with_document o d) (go action)

abbrev pub some_operations : Parsed → Parsed
some_operations (some (ok [])) = some (err no_operations)
some_operations p = p

-- `bytes.TrimSpace` and `json.Unmarshal` on lines of any type.
module _ {ℓ} {Line : Type ℓ} (is_blank : Line → Bool) (unmarshal : Line → Option Fields) where
  -- The loop over the lines, from the line after the given number; `failed` is the error of the scanner.
  unfoldable pub scan : Next → ℕ → List Line → Bool → Parsed
  scan action n [] true = some (err read_failed)
  scan action n [] false = some (ok [])
  scan (document_of o line) n [] failed = some (err (missing_document o.kind line))
  scan action n (l ∷ ls) failed =
      at_action (is_blank l) (unmarshal l) (suc n) (λ next. scan next (suc n) ls failed)
  scan (document_of o line) n (l ∷ ls) failed =
      at_document o line (is_blank l) (unmarshal l) (suc n) (λ next. scan next (suc n) ls failed)

  -- `ParseBulkRequest`
  unfoldable pub parse_bulk_request : List Line → Bool → Parsed
  parse_bulk_request [] false = some (err empty_request)
  parse_bulk_request [] true = some (err read_failed)
  parse_bulk_request (l ∷ ls) failed = some_operations (scan action 0 (l ∷ ls) failed)

-- `BulkItemResult`
pub record ItemResult : Type 0 where
  pub index_name : String
  pub id : String
  pub version : ℕ
  pub outcome : String
  pub status : ℕ
  pub failure : Option (String × String)
  pub shards : Option (ℕ × ℕ × ℕ)

pub record Response : Type 0 where
  pub errors : Bool
  pub items : List (String × ItemResult)

abbrev pub new_response : Response
new_response = record { errors = false; items = [] }

-- `AddItem`
unfoldable pub add_item : OperationType → ItemResult → Response → Response
add_item t r br = record {
  errors = elim r.failure [ some e ↦ true | none ↦ br.errors ];
  items = br.items ++ (type_name t, r) ∷ [];
}
