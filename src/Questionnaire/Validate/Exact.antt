-- ===== src/Questionnaire/Validate/Exact.antt =====
-- `validate_against_questions` accepts what `IsAccepted` describes, and nothing else.
use open_community_groups.Prelude.{
  String, ◌≡◌, ◌↔◌, refl, true, false, not, Option, none, some, List, [], ◌∷◌, any, is_empty, ◌==◌,
  nat_eq, All, arith,
}
use open_community_groups.Prelude.Result.{Result, ok, err, ◌>>◌}
use open_community_groups.Questionnaire.{
  Uuid, QuestionnaireAnswerValue, many, one, QuestionnaireAnswer, QuestionnaireAnswers,
  QuestionnaireQuestion, QuestionnaireOption, QuestionnaireQuestionKind, free_text, multi_select,
  single_select, get,
}
use open_community_groups.Questionnaire.Payload.Checks.{validate_payload_lem}
use open_community_groups.Questionnaire.Accepted.{Any, HasOption, Fits, FitsOption, IsAccepted}
use open_community_groups.Questionnaire.Validate.{
  has_option, validate_free_text, validate_selected, validate_single, validate_multi,
  validate_value, validate_option, validate_answer, check_known, check_questions, check_configured,
  validate_against_questions,
}

both_ok : (m n : Result String (Unit {0})) → ((m >> n) ≡ ok tt) ↔ ((m ≡ ok tt) × (n ≡ ok tt))
both_ok (ok tt) n = ground arith
both_ok (err e) n = ground arith

any_id :
    (id : Uuid) (qs : List QuestionnaireQuestion)
    → (any (λ q. q.id == id) qs ≡ true) ↔ Any (λ q. q.id ≡ id) qs
any_id id [] = ground arith
any_id id (q ∷ qs) = ground (arith, any_id id qs)

any_option :
    (id : Uuid) (os : List QuestionnaireOption)
    → (any (λ o. o.id == id) os ≡ true) ↔ Any (λ o. o.id ≡ id) os
any_option id [] = ground arith
any_option id (o ∷ os) = ground (arith, any_option id os)

module _ (parse_uuid : String → Option Uuid) where
  has_option_lem :
      (q : QuestionnaireQuestion) (id : Uuid) → (has_option parse_uuid q id ≡ true) ↔ HasOption q id
  unfolding has_option
  has_option_lem q id = any_option id q.options

  known_options :
      (q : QuestionnaireQuestion) (ids : List Uuid)
      → (any (λ id. not (has_option parse_uuid q id)) ids ≡ false) ↔ All (HasOption q) ids
  known_options q [] = ground arith
  known_options q (id ∷ ids) = ground (arith, has_option_lem q id, known_options q ids)

  validate_free_text_lem :
      (q : QuestionnaireQuestion) (v : QuestionnaireAnswerValue)
      → (validate_free_text parse_uuid q v ≡ ok tt) ↔ Fits parse_uuid free_text q v
  unfolding validate_free_text
  validate_free_text_lem q (one s) = ground arith
  validate_free_text_lem q (many ids) = ground arith

  selected_lem :
      (q : QuestionnaireQuestion) (parsed : Option Uuid)
      → (validate_selected parse_uuid q parsed ≡ ok tt)
        ↔ ((id : Uuid) × (parsed ≡ some id) × HasOption q id)
  unfolding validate_selected
  selected_lem q none = (λ e. cc, λ (id, e, h). cc)
  selected_lem q (some id) = (
    λ e. (id, refl, ground (arith, e, has_option_lem q id)),
    λ (other, e, h). ground (arith, e, has_option_lem q other),
  )

  validate_single_lem :
      (q : QuestionnaireQuestion) (v : QuestionnaireAnswerValue)
      → (validate_single parse_uuid q v ≡ ok tt) ↔ Fits parse_uuid single_select q v
  unfolding validate_single validate_selected
  validate_single_lem q (one s) = selected_lem q (parse_uuid s)
  validate_single_lem q (many ids) = ground arith

  validate_multi_lem :
      (q : QuestionnaireQuestion) (v : QuestionnaireAnswerValue)
      → (validate_multi parse_uuid q v ≡ ok tt) ↔ Fits parse_uuid multi_select q v
  unfolding validate_multi
  validate_multi_lem q (one s) = ground arith
  validate_multi_lem q (many []) = ground arith
  validate_multi_lem q (many (id ∷ ids)) = ground (arith, known_options q (id ∷ ids))

  validate_value_lem :
      (kind : QuestionnaireQuestionKind) (q : QuestionnaireQuestion) (v : QuestionnaireAnswerValue)
      → (validate_value parse_uuid kind q v ≡ ok tt) ↔ Fits parse_uuid kind q v
  unfolding validate_value
  validate_value_lem free_text q v = validate_free_text_lem q v
  validate_value_lem single_select q v = validate_single_lem q v
  validate_value_lem multi_select q v = validate_multi_lem q v

  validate_option_lem :
      (q : QuestionnaireQuestion) (v : Option QuestionnaireAnswerValue)
      → (validate_option parse_uuid q v ≡ ok tt) ↔ FitsOption parse_uuid q v
  unfolding validate_option
  validate_option_lem q none = ground arith
  validate_option_lem q (some v) = validate_value_lem q.kind q v

  pub validate_answer_lem :
      (q : QuestionnaireQuestion) (answers : QuestionnaireAnswers)
      → (validate_answer parse_uuid q answers ≡ ok tt) ↔ FitsOption parse_uuid q (get answers q.id)
  unfolding validate_answer
  validate_answer_lem q answers = validate_option_lem q (get answers q.id)

  check_known_lem :
      (qs : List QuestionnaireQuestion) (answers : List QuestionnaireAnswer)
      → (check_known parse_uuid qs answers ≡ ok tt)
        ↔ All (λ answer. Any (λ q. q.id ≡ answer.question_id) qs) answers
  unfolding check_known
  check_known_lem qs [] = ground arith
  check_known_lem qs (a ∷ others) =
      ground (arith, any_id a.question_id qs, check_known_lem qs others)

  check_questions_lem :
      (qs : List QuestionnaireQuestion) (answers : QuestionnaireAnswers)
      → (check_questions parse_uuid qs answers ≡ ok tt)
        ↔ All (λ q. FitsOption parse_uuid q (get answers q.id)) qs
  unfolding check_questions
  check_questions_lem [] answers = ground arith
  check_questions_lem (q ∷ qs) answers =
      ground (arith, validate_answer_lem q answers, check_questions_lem qs answers)

  unconfigured :
      (answers : List QuestionnaireAnswer) → (is_empty answers ≡ true) ↔ All (λ answer. ⊥) answers
  unconfigured [] = ground arith
  unconfigured (a ∷ others) = ground arith

  check_configured_lem :
      (qs : List QuestionnaireQuestion) (answers : QuestionnaireAnswers)
      → (check_configured parse_uuid qs answers ≡ ok tt) ↔ (
          All (λ answer. Any (λ q. q.id ≡ answer.question_id) qs) answers.answers
          × All (λ q. FitsOption parse_uuid q (get answers q.id)) qs)
  unfolding check_configured
  check_configured_lem [] answers = ground (arith, unconfigured answers.answers)
  check_configured_lem (q ∷ qs) answers =
      ground (arith, check_known_lem (q ∷ qs) answers.answers, check_questions_lem (q ∷ qs) answers)

  -- Answers are accepted exactly if no question is answered twice and no option repeated, every
  -- answer is to one of the questions, and every question is answered by a value that fits its kind
  -- and options, is not blank or empty if required, and is there if required.
  pub validate_against_questions-IsAccepted :
      (answers : QuestionnaireAnswers) (questions : List QuestionnaireQuestion)
      → (validate_against_questions parse_uuid answers questions ≡ ok tt)
        ↔ IsAccepted parse_uuid answers questions
  unfolding validate_against_questions
  validate_against_questions-IsAccepted answers questions =
      let payload = validate_payload_lem answers in
      let configured = check_configured_lem questions answers in
      (
        λ e.
            let (p, c) = (both_ok _ _).0 e in
            record {
              distinct = (payload.0 p).0;
              distinct_options = (payload.0 p).1;
              known = (configured.0 c).0;
              fits = (configured.0 c).1;
            },
        λ a.
            (both_ok _ _).1
              (payload.1 (a.distinct, a.distinct_options), configured.1 (a.known, a.fits)),
      )
