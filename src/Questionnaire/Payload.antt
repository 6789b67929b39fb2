-- ===== src/Questionnaire/Payload.antt =====
-- `QuestionnaireAnswers::validate_payload`: no question is answered twice, and no option repeated.
pub mod Checks
use open_community_groups.Prelude.{
  String, Bool, true, false, List, [], ◌∷◌, if◌then◌else◌, contains, nat_eq, Option, none, some,
}
use open_community_groups.Prelude.Result.{Result, ok, err, ◌>>◌}
use open_community_groups.Questionnaire.{
  Uuid, QuestionnaireAnswerValue, many, one, QuestionnaireAnswer, QuestionnaireAnswers,
}

-- The loop over the options; `seen` is `selected_option_ids`.
check_options : List Uuid → List Uuid → Result String (Unit {0})
check_options seen [] = ok tt
check_options seen (id ∷ ids) =
    let rest = check_options (id ∷ seen) ids in
    if contains seen id
    then err "multi-select questionnaire answers cannot repeat options"
    else rest

check_value : QuestionnaireAnswerValue → Result String (Unit {0})
unfolding check_options
check_value (many ids) = check_options [] ids
check_value (one s) = ok tt

-- The loop over the answers; `seen` is `question_ids`.
check_answers : List Uuid → List QuestionnaireAnswer → Result String (Unit {0})
unfolding check_value
check_answers seen [] = ok tt
check_answers seen (a ∷ others) =
    let rest = check_answers (a.question_id ∷ seen) others in
    if contains seen a.question_id
    then err "questionnaire answers must include each question at most once"
    else check_value a.value >> rest

unfoldable pub validate_payload : QuestionnaireAnswers → Result String (Unit {0})
unfolding check_answers
validate_payload a = check_answers [] a.answers

-- `validate_optional_questionnaire_answers`
validate_optional_questionnaire_answers : Option QuestionnaireAnswers → Result String (Unit {0})
unfolding validate_payload
validate_optional_questionnaire_answers none = ok tt
validate_optional_questionnaire_answers (some a) = validate_payload a
