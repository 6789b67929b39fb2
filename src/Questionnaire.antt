-- ===== src/Questionnaire.antt =====
-- ocg-server/src/types/questionnaire.rs: the questions of an event's organizers, and the answers of
-- its attendees. A `Uuid` is its 128 bits as a number; `Uuid::parse_str` is a parameter.
pub mod Payload
pub mod Validate
pub mod Accepted
pub mod Display
mod Tests
use open_community_groups.Prelude.Text.Slices.{is_whitespace}
use Prim.Native.Char.{Char, code}
use Prim.Native.String.{[] as empty, ◌∷◌ as ◌∷ˢ◌}
use open_community_groups.Prelude.{
  ℕ, String, Bool, true, ◌&&◌, ◌||◌, Option, none, some, List, if◌then◌else◌, find, ◌==◌, nat_eq,
  leb, nat_beq,
}

abbrev pub Uuid : Type 0
Uuid = ℕ

pub data QuestionnaireAnswerValue : Type 0 where
  many : List Uuid → QuestionnaireAnswerValue
  one : String → QuestionnaireAnswerValue

pub record QuestionnaireAnswer : Type 0 where
  pub question_id : Uuid
  pub value : QuestionnaireAnswerValue

pub record QuestionnaireAnswers : Type 0 where
  pub answers : List QuestionnaireAnswer

pub record QuestionnaireOption : Type 0 where
  pub id : Uuid
  pub label : String

pub data QuestionnaireQuestionKind : Type 0 where
  free_text multi_select single_select : QuestionnaireQuestionKind

pub record QuestionnaireQuestion : Type 0 where
  pub id : Uuid
  pub kind : QuestionnaireQuestionKind
  pub prompt : String
  pub required : Bool
  pub options : List QuestionnaireOption

value_of : Option QuestionnaireAnswer → Option QuestionnaireAnswerValue
value_of none = none
value_of (some a) = some a.value

-- `QuestionnaireAnswers::get`
unfoldable pub get : QuestionnaireAnswers → Uuid → Option QuestionnaireAnswerValue
unfolding value_of
get a id = value_of (find (λ answer. answer.question_id == id) a.answers)

-- `trim().is_empty()`: nothing but white space.
unfoldable pub is_blank : String → Bool
is_blank empty = true
is_blank (c ∷ˢ s) = is_whitespace (code c) && is_blank s
