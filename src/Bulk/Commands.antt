-- ===== src/Bulk/Commands.antt =====
-- Operations, their lines, and what one line does in the parser of pkg/coordination/bulk/bulk.go.
use quidditch.Common.{
  ℕ, suc, ◌≡◌, refl, ap, String, Bool, true, false, none, some, List, [], ◌∷◌, str_eq,
}
use quidditch.Common.Results.{ok}
use quidditch.Json.{Json, str, obj, Fields, entry, end, single, get}
use quidditch.Bulk.Request.{
  OperationType, index, create, update, delete, type_name, Operation, Parsed, also, action,
  action_of, Next, document_of, new_operation, at_operation, at_action, needs_document,
}

-- An operation and the document that its type takes.
pub data Command : Type 0 where
  write : Bool → String → String → Fields → Command
  change : String → String → Fields → Command
  remove : String → String → Command

-- What `ParseBulkRequest` promises of a command.
abbrev pub operation_of : Command → Operation
operation_of (write is_create i id d) = record {
  kind = elim is_create [ true ↦ create | false ↦ index ];
  index_name = i;
  id = id;
  document = some d;
  update_doc = none;
}
operation_of (change i id d) = record {
  kind = update;
  index_name = i;
  id = id;
  document = none;
  update_doc = some d;
}
operation_of (remove i id) = record {
  kind = delete;
  index_name = i;
  id = id;
  document = none;
  update_doc = none;
}

abbrev pub meta_fields : String → String → Fields
meta_fields i id = entry "_index" (str i) (entry "_id" (str id) end)

abbrev pub meta_of : String → String → Json
meta_of i id = obj (meta_fields i id)

-- The decoded lines of a command.
abbrev pub lines_of : Command → List Fields
lines_of (write is_create i id d) =
    single (elim is_create [ true ↦ "create" | false ↦ "index" ]) (meta_of i id) ∷ d ∷ []
lines_of (change i id d) = single "update" (meta_of i id) ∷ single "doc" (obj d) ∷ []
lines_of (remove i id) = single "delete" (meta_of i id) ∷ []

abbrev index_of : Command → String
index_of c = (operation_of c).index_name

abbrev pub AllIndexed : List Command → Type 0
AllIndexed [] = Unit
AllIndexed (c ∷ cs) = (str_eq (index_of c) "" ≡ false) × AllIndexed cs

abbrev pub alsos : List Operation → Parsed → Parsed
alsos [] p = p
alsos (o ∷ os) p = also o (alsos os p)

-- The number of the last line of commands.
abbrev pub lines_after : ℕ → List Command → ℕ
lines_after n [] = n
lines_after n (remove i id ∷ cs) = lines_after (suc n) cs
lines_after n (_ ∷ cs) = lines_after (suc (suc n)) cs

pub alsos-ok : (os : List Operation) → alsos os (some (ok [])) ≡ some (ok os)
alsos-ok [] = refl
alsos-ok (o ∷ os) = ap (also o) (alsos-ok os)

pub alsos-none : (os : List Operation) → alsos os none ≡ none
alsos-none [] = refl
alsos-none (o ∷ os) = ap (also o) (alsos-none os)

at_operation-document :
    (o : Operation) (n : ℕ) (go : Next → Parsed)
    → str_eq o.index_name "" ≡ false
    → needs_document o.kind ≡ true
    → at_operation o n go ≡ go (document_of o n)
at_operation-document o n go has needs = rw (at_operation, has) (rw (at_operation, needs) refl)

at_operation-also :
    (o : Operation) (n : ℕ) (go : Next → Parsed)
    → str_eq o.index_name "" ≡ false
    → needs_document o.kind ≡ false
    → at_operation o n go ≡ also o (go action)
at_operation-also o n go has needs = rw (at_operation, has) (rw (at_operation, needs) refl)

-- An action of a type in the line that is printed for it.
pub at_action-write :
    (t : OperationType) (i id : String) (n : ℕ) (go : Next → Parsed)
    → needs_document t ≡ true
    → str_eq i "" ≡ false
    → at_action false (some (single (type_name t) (meta_of i id))) n go
      ≡ go (document_of (new_operation t (meta_fields i id)) n)
unfolding action_of get
at_action-write index i id n go needs has =
    at_operation-document (new_operation index (meta_fields i id)) n go has refl
at_action-write create i id n go needs has =
    at_operation-document (new_operation create (meta_fields i id)) n go has refl
at_action-write update i id n go needs has =
    at_operation-document (new_operation update (meta_fields i id)) n go has refl
at_action-write delete i id n go needs has = cc

pub at_action-remove :
    (i id : String) (n : ℕ) (go : Next → Parsed)
    → str_eq i "" ≡ false
    → at_action false (some (single "delete" (meta_of i id))) n go
      ≡ also (operation_of (remove i id)) (go action)
unfolding action_of get
at_action-remove i id n go has = at_operation-also (operation_of (remove i id)) n go has refl
