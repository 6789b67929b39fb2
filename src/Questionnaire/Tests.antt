-- ===== src/Questionnaire/Tests.antt =====
-- A questionnaire with one question of each kind.
use open_community_groups.Prelude.{
  String, ◌≡◌, ◌↔◌, refl, true, false, Option, none, some, List, [], ◌∷◌, ◌==◌, string_eq,
  if◌then◌else◌,
}
use open_community_groups.Prelude.Result.{ok, err}
use open_community_groups.Questionnaire.{
  Uuid, many, one, QuestionnaireAnswers, QuestionnaireQuestion, QuestionnaireOption, free_text,
  multi_select, single_select, get, is_blank,
}
use open_community_groups.Questionnaire.Validate.{validate_answer, validate_against_questions}
use open_community_groups.Questionnaire.Validate.Exact.{validate_against_questions-IsAccepted}
use open_community_groups.Questionnaire.Accepted.{IsAccepted}
use open_community_groups.Questionnaire.Display.{format_answer}
use open_community_groups.Questionnaire.Display.Labels.{separated, AreLabels, format_answer-multi}

abbrev parse : String → Option Uuid
parse s = if s == "11" then some 11 else if s == "12" then some 12 else none

abbrev options : List QuestionnaireOption
options = record { id = 11; label = "Vegan" } ∷ record { id = 12; label = "Halal" } ∷ []

abbrev name : QuestionnaireQuestion
name = record { id = 1; kind = free_text; prompt = "Name?"; required = true; options = [] }

abbrev diet : QuestionnaireQuestion
diet = record { id = 2; kind = single_select; prompt = "Diet?"; required = true; options = options }

abbrev days : QuestionnaireQuestion
days = record { id = 3; kind = multi_select; prompt = "Days?"; required = false; options = options }

abbrev questions : List QuestionnaireQuestion
questions = name ∷ diet ∷ days ∷ []

abbrev answers : QuestionnaireAnswers
answers = record {
  answers =
      record { question_id = 2; value = one "12" }
      ∷ record { question_id = 1; value = one "Ada" }
      ∷ record { question_id = 3; value = many (12 ∷ 11 ∷ []) }
      ∷ [];
}

validate_against_questions-IsAccepted_example :
    (validate_against_questions parse answers questions ≡ ok tt)
    ↔ IsAccepted parse answers questions
validate_against_questions-IsAccepted_example =
    validate_against_questions-IsAccepted parse answers questions

accepted_test : validate_against_questions parse answers questions ≡ ok tt
unfolding validate_against_questions get is_blank
accepted_test = refl

blank_test :
    validate_against_questions parse
      (record { answers = record { question_id = 1; value = one " " } ∷ [] })
      (name ∷ [])
    ≡ err "required questionnaire answer is empty"
unfolding validate_against_questions get is_blank
blank_test = refl

diet_valid : validate_answer parse diet answers ≡ ok tt
unfolding validate_answer get is_blank
diet_valid = refl

days_valid : validate_answer parse days answers ≡ ok tt
unfolding validate_answer get is_blank
days_valid = refl

diet_answer : get answers 2 ≡ some (one "12")
unfolding get
diet_answer = refl

days_answer : get answers 3 ≡ some (many (12 ∷ 11 ∷ []))
unfolding get
days_answer = refl

format_answer-multi_example :
    (labels : List String) × (format_answer parse days (some answers) ≡ separated labels)
    × AreLabels days (12 ∷ 11 ∷ []) labels
format_answer-multi_example =
    format_answer-multi parse days answers days_valid (12 ∷ 11 ∷ []) refl days_answer

format_test : format_answer parse days (some answers) ≡ "Halal, Vegan"
unfolding format_answer get
format_test = refl
