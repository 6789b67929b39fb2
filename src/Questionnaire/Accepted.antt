-- ===== src/Questionnaire/Accepted.antt =====
-- Which answers are accepted, said without the loops of the code.
use open_community_groups.Prelude.{
  String, ◌≡◌, ◌≢◌, ◌⊎◌, false, Option, none, some, List, [], ◌∷◌, All, map,
}
use open_community_groups.Questionnaire.{
  Uuid, QuestionnaireAnswerValue, many, one, QuestionnaireAnswers, QuestionnaireQuestion,
  QuestionnaireQuestionKind, free_text, multi_select, single_select, get, is_blank,
}

-- One of the elements has the property.
abbrev pub Any {ℓ} : {A : Type ℓ} (P : A → Type 0) (l : List A) → Type 0
Any P [] = ⊥
Any P (x ∷ xs) = P x ⊎ Any P xs

-- No identifier stands twice in the list.
abbrev pub Distinct : List Uuid → Type 0
Distinct [] = Unit
Distinct (id ∷ ids) = All (λ other. other ≢ id) ids × Distinct ids

-- An answer that repeats no option.
abbrev pub DistinctValue : QuestionnaireAnswerValue → Type 0
DistinctValue (many ids) = Distinct ids
DistinctValue (one s) = Unit

abbrev pub HasOption : QuestionnaireQuestion → Uuid → Type 0
HasOption q id = Any (λ option. option.id ≡ id) q.options

module _ (parse_uuid : String → Option Uuid) where
  -- An answer of the kind that the question asks for, among its options, and not empty if required.
  abbrev pub Fits :
      QuestionnaireQuestionKind → QuestionnaireQuestion → QuestionnaireAnswerValue → Type 0
  Fits free_text q (one s) = (q.required ≡ false) ⊎ (is_blank s ≡ false)
  Fits single_select q (one s) = (id : Uuid) × (parse_uuid s ≡ some id) × HasOption q id
  Fits multi_select q (many ids) = ((q.required ≡ false) ⊎ (ids ≢ [])) × All (HasOption q) ids
  Fits _ _ _ = ⊥

  abbrev pub FitsOption : QuestionnaireQuestion → Option QuestionnaireAnswerValue → Type 0
  FitsOption q none = q.required ≡ false
  FitsOption q (some v) = Fits q.kind q v

  pub record IsAccepted (answers : QuestionnaireAnswers) (questions : List QuestionnaireQuestion)
      : Type 0 where
    pub distinct : Distinct (map (λ answer. answer.question_id) answers.answers)
    pub distinct_options : All (λ answer. DistinctValue answer.value) answers.answers
    pub known :
        All (λ answer. Any (λ question. question.id ≡ answer.question_id) questions) answers.answers
    pub fits : All (λ question. FitsOption question (get answers question.id)) questions
