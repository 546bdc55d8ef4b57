-- ===== src/Doors.antt =====
-- The two doors of an operation, the queue and HTTP: what they send to the use cases, and what each
-- refuses before it does. The collection of problems is internal/application/dto/validation; the
-- parser of identifiers and the validator that reads the tags of a struct are parameters.
pub mod Message
pub mod Request
pub mod Payload
mod Tests
use wagering_wallet_service.Base.{
  ltb, leb, if◌then◌else◌, Result, invalid_input, err, ok, Uuid, nil_uuid, codes, all, is_empty,
  is_space, ℕ, String, Bool, false, not, ◌&&◌, ◌||◌, Option, none, some, List, [], ◌∷◌, ◌++◌,
  str_eq,
}

pub record FieldError : Type 0 where
  pub field : String
  pub message : String

-- What the validator answers of one field: its name, the rule and the parameter of the rule.
pub record TagFailure : Type 0 where
  pub field : String
  pub tag : String
  pub param : String

pub data TagResult : Type 0 where
  no_failure unreadable : TagResult
  failures : List TagFailure → TagResult

-- The text that `fmt.Sprintf` makes of a text and a parameter.
pub text_append : String → String → String
text_append String.[] t = t
text_append (String.◌∷◌ c s) t = String.◌∷◌ c (text_append s t)

-- `explain`
unfoldable pub explain : TagFailure → String
unfolding text_append
explain f =
    if str_eq f.tag "required"
    then "is required"
    else if str_eq f.tag "max"
    then text_append (text_append "must not be longer than " f.param) " characters"
    else if str_eq f.tag "gt"
    then text_append "must be greater than " f.param
    else if str_eq f.tag "gte"
    then text_append "must not be lower than " f.param
    else if str_eq f.tag "lte"
    then text_append "must not be greater than " f.param
    else if str_eq f.tag "uuid"
    then "must be a UUID"
    else if str_eq f.tag "opaque"
    then "must not start or end with spaces, and must not contain control characters"
    else if str_eq f.tag "wager_kind"
    then "must be one of BET, WIN, LOSS, REFUND or ROLLBACK"
    else text_append "does not satisfy " f.tag

-- `Add`
abbrev pub add_problem : List FieldError → String → String → List FieldError
add_problem problems field message = problems ++ record { field = field; message = message } ∷ []

-- The name that the table of `Collect` gives a field.
abbrev pub renamed : List (String × String) → String → String
renamed [] field = field
renamed ((name, other_name) ∷ table) field =
    if str_eq name field then other_name else renamed table field

unfoldable pub explained : List (String × String) → List TagFailure → List FieldError
unfolding explain
explained table [] = []
explained table (f ∷ fs) =
    record { field = renamed table f.field; message = explain f } ∷ explained table fs

-- `Collect`
unfoldable pub collect : List FieldError → TagResult → List (String × String) → List FieldError
unfolding explained
collect problems no_failure table = problems
collect problems unreadable table = add_problem problems "body" "could not be validated"
collect problems (failures fs) table = problems ++ explained table fs

-- `OrNil`: nil, or the error with all its fields.
abbrev pub or_nil : List FieldError → Option (List FieldError)
or_nil [] = none
or_nil (field ∷ fields) = some (field ∷ fields)

-- `if err := problems.OrNil(); err != nil { return err }`: a `Failure` says that the error is one of
-- validation, and drops its fields, which the answers only print.
abbrev pub refuse_invalid : Option (List FieldError) → Result (Unit {0})
refuse_invalid none = ok tt
refuse_invalid (some fields) = err invalid_input

-- `Identifier`: the problems, and the identifier or `uuid.Nil`.
abbrev pub identifier :
    (String → Option Uuid) → List FieldError → String → String → List FieldError × Uuid
identifier parse_uuid problems field value =
    if is_empty value
    then (add_problem problems field "is required", nil_uuid)
    else elim (parse_uuid value) [
      | none ↦ (add_problem problems field "must be a UUID", nil_uuid)
      | some id ↦ (problems, id)
    ]

-- `unicode.IsControl`
abbrev pub is_control : ℕ → Bool
is_control c = ltb c 32 || (leb 127 c && leb c 159)

abbrev pub starts_with_space : List ℕ → Bool
starts_with_space [] = false
starts_with_space (c ∷ _) = is_space c

abbrev pub ends_with_space : List ℕ → Bool
ends_with_space [] = false
ends_with_space (c ∷ []) = is_space c
ends_with_space (_ ∷ d ∷ rest) = ends_with_space (d ∷ rest)

-- `isOpaque`: a text is not the one that `strings.TrimSpace` leaves when it has a space at an end.
unfoldable pub is_opaque : String → Bool
unfolding is_space
is_opaque value =
    if starts_with_space (codes value) || ends_with_space (codes value)
    then false
    else all (λ c. not (is_control c)) (codes value)
