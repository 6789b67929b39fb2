-- ===== src/Questionnaire/Validate.antt =====
-- `QuestionnaireAnswers::validate_against_questions` and `QuestionnaireQuestion::validate_answer`.
pub mod Exact
use open_community_groups.Prelude.{
  ℕ, String, Bool, true, false, not, ◌&&◌, Option, none, some, List, [], ◌∷◌, if◌then◌else◌, any,
  is_empty, ◌==◌, nat_eq,
}
use open_community_groups.Prelude.Result.{Result, ok, err, ◌>>◌}
use open_community_groups.Questionnaire.{
  Uuid, QuestionnaireAnswerValue, many, one, QuestionnaireAnswer, QuestionnaireAnswers,
  QuestionnaireQuestion, QuestionnaireQuestionKind, free_text, multi_select, single_select, get,
  is_blank,
}
use open_community_groups.Questionnaire.Payload.{validate_payload}

module _ (parse_uuid : String → Option Uuid) where
  pub has_option : QuestionnaireQuestion → Uuid → Bool
  has_option q id = any (λ option. option.id == id) q.options

  validate_free_text : QuestionnaireQuestion → QuestionnaireAnswerValue → Result String (Unit {0})
  validate_free_text q (one s) =
      if q.required && is_blank s then err "required questionnaire answer is empty" else ok tt
  validate_free_text q (many ids) = err "free-text questionnaire answer must be a string"

  validate_selected : QuestionnaireQuestion → Option Uuid → Result String (Unit {0})
  unfolding has_option
  validate_selected q none = err "single-select questionnaire answer must be an option id"
  validate_selected q (some id) =
      if has_option q id then ok tt else err "questionnaire answer references an unknown option"

  validate_single : QuestionnaireQuestion → QuestionnaireAnswerValue → Result String (Unit {0})
  unfolding validate_selected
  validate_single q (one s) = validate_selected q (parse_uuid s)
  validate_single q (many ids) = err "single-select questionnaire answer must be an option id"

  validate_multi : QuestionnaireQuestion → QuestionnaireAnswerValue → Result String (Unit {0})
  unfolding has_option
  validate_multi q (many ids) =
      if q.required && is_empty ids
      then err "required questionnaire answer is empty"
      else if any (λ id. not (has_option q id)) ids
      then err "questionnaire answer references an unknown option"
      else ok tt
  validate_multi q (one s) = err "multi-select questionnaire answer must be an option id array"

  validate_value :
      QuestionnaireQuestionKind
      → QuestionnaireQuestion
      → QuestionnaireAnswerValue
      → Result String (Unit {0})
  unfolding validate_free_text validate_single validate_multi
  validate_value free_text q v = validate_free_text q v
  validate_value single_select q v = validate_single q v
  validate_value multi_select q v = validate_multi q v

  validate_option :
      QuestionnaireQuestion → Option QuestionnaireAnswerValue → Result String (Unit {0})
  unfolding validate_value
  validate_option q none =
      if q.required then err "required questionnaire answer is missing" else ok tt
  validate_option q (some v) = validate_value q.kind q v

  unfoldable pub validate_answer :
      QuestionnaireQuestion → QuestionnaireAnswers → Result String (Unit {0})
  unfolding validate_option
  validate_answer q answers = validate_option q (get answers q.id)

  -- The loop that looks for the question of each answer.
  check_known : List QuestionnaireQuestion → List QuestionnaireAnswer → Result String (Unit {0})
  check_known questions [] = ok tt
  check_known questions (a ∷ others) =
      let rest = check_known questions others in
      if any (λ question. question.id == a.question_id) questions
      then rest
      else err "questionnaire answer references an unknown question"

  check_questions : List QuestionnaireQuestion → QuestionnaireAnswers → Result String (Unit {0})
  unfolding validate_answer
  check_questions [] answers = ok tt
  check_questions (q ∷ qs) answers = validate_answer q answers >> check_questions qs answers

  check_configured : List QuestionnaireQuestion → QuestionnaireAnswers → Result String (Unit {0})
  unfolding check_known check_questions
  check_configured [] answers =
      if is_empty answers.answers
      then ok tt
      else err "questionnaire answers cannot be submitted when questions are not configured"
  check_configured (q ∷ qs) answers =
      check_known (q ∷ qs) answers.answers >> check_questions (q ∷ qs) answers

  unfoldable pub validate_against_questions :
      QuestionnaireAnswers → List QuestionnaireQuestion → Result String (Unit {0})
  unfolding validate_payload check_configured
  validate_against_questions answers questions =
      validate_payload answers >> check_configured questions answers
