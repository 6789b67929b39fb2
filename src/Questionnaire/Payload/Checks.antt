-- ===== src/Questionnaire/Payload/Checks.antt =====
-- The loops of `validate_payload` find exactly the payloads that repeat something.
use open_community_groups.Prelude.{
  ◌≡◌, ◌≢◌, ◌↔◌, refl, false, List, [], ◌∷◌, contains, nat_eq, All, arith, map,
}
use open_community_groups.Prelude.Result.{ok}
use open_community_groups.Questionnaire.{
  Uuid, QuestionnaireAnswerValue, many, one, QuestionnaireAnswer, QuestionnaireAnswers,
}
use open_community_groups.Questionnaire.Payload.{
  check_options, check_value, check_answers, validate_payload,
}
use open_community_groups.Questionnaire.Accepted.{Distinct, DistinctValue}

abbrev Unseen : List Uuid → List Uuid → Type 0
Unseen seen ids = All (λ id. contains seen id ≡ false) ids

Unseen-cons :
    (id : Uuid) (seen ids : List Uuid)
    → Unseen (id ∷ seen) ids ↔ (All (λ other. other ≢ id) ids × Unseen seen ids)
Unseen-cons id seen [] = ground arith
Unseen-cons id seen (x ∷ ids) = ground (arith, Unseen-cons id seen ids)

check_options_lem :
    (seen ids : List Uuid) → (check_options seen ids ≡ ok tt) ↔ (Unseen seen ids × Distinct ids)
unfolding check_options
check_options_lem seen [] = ground arith
check_options_lem seen (id ∷ ids) =
    ground (arith, Unseen-cons id seen ids, check_options_lem (id ∷ seen) ids)

Unseen-nil : (ids : List Uuid) → Unseen [] ids
Unseen-nil [] = tt
Unseen-nil (id ∷ ids) = (refl, Unseen-nil ids)

check_value_lem : (v : QuestionnaireAnswerValue) → (check_value v ≡ ok tt) ↔ DistinctValue v
unfolding check_value
check_value_lem (many ids) = ground (arith, check_options_lem [] ids, Unseen-nil ids)
check_value_lem (one s) = ground arith

abbrev question_ids : List QuestionnaireAnswer → List Uuid
question_ids = map (λ answer. answer.question_id)

check_answers_lem :
    (seen : List Uuid) (answers : List QuestionnaireAnswer)
    → (check_answers seen answers ≡ ok tt) ↔ (
        Unseen seen (question_ids answers)
        × Distinct (question_ids answers)
        × All (λ answer. DistinctValue answer.value) answers)
unfolding check_answers
check_answers_lem seen [] = ground arith
check_answers_lem seen (a ∷ answers) = ground (
  arith,
  check_value_lem a.value,
  Unseen-cons a.question_id seen (question_ids answers),
  check_answers_lem (a.question_id ∷ seen) answers,
)

pub validate_payload_lem :
    (a : QuestionnaireAnswers)
    → (validate_payload a ≡ ok tt) ↔ (
        Distinct (map (λ answer. answer.question_id) a.answers)
        × All (λ answer. DistinctValue answer.value) a.answers)
unfolding validate_payload
validate_payload_lem a =
    ground (arith, check_answers_lem [] a.answers, Unseen-nil (question_ids a.answers))
