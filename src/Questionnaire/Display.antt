-- ===== src/Questionnaire/Display.antt =====
-- The operations of `QuestionnaireQuestion` that read an answer: `format_answer`,
-- `free_text_answer`, `is_option_selected` and `option_label`.
pub mod Labels
use Prim.Native.String.{◌++◌ as ◌++ˢ◌}
use open_community_groups.Prelude.{
  String, Bool, true, false, Option, none, some, List, [], ◌∷◌, find, unwrap_or, ◌==◌, nat_eq,
  contains,
}
use open_community_groups.Questionnaire.{
  Uuid, QuestionnaireAnswerValue, many, one, QuestionnaireAnswers, QuestionnaireQuestion,
  QuestionnaireOption, QuestionnaireQuestionKind, free_text, multi_select, single_select, get,
}

-- `answers.and_then(|answers| answers.get(self.id))`
answer_of : QuestionnaireQuestion → Option QuestionnaireAnswers → Option QuestionnaireAnswerValue
answer_of q none = none
answer_of q (some answers) = get answers q.id

label_of : Option QuestionnaireOption → Option String
label_of none = none
label_of (some option) = some option.label

pub option_label : QuestionnaireQuestion → Uuid → Option String
unfolding label_of
option_label q id = label_of (find (λ option. option.id == id) q.options)

-- `filter_map(|option_id| self.option_label(*option_id))`
option_labels : QuestionnaireQuestion → List Uuid → List String
unfolding option_label
option_labels q [] = []
option_labels q (id ∷ ids) =
    let rest = option_labels q ids in
    elim (option_label q id) [ none ↦ rest | some label ↦ label ∷ rest ]

-- `join(", ")`
abbrev pub join : List String → String
join [] = ""
join (label ∷ []) = label
join (label ∷ other ∷ labels) = label ++ˢ (", " ++ˢ join (other ∷ labels))

-- `free_text_answer`
pub free_text_answer : QuestionnaireQuestion → Option QuestionnaireAnswers → Option String
unfolding answer_of
free_text_answer q answers = text_of q.kind (answer_of q answers)
  where
    text_of : QuestionnaireQuestionKind → Option QuestionnaireAnswerValue → Option String
    text_of free_text (some (one s)) = some s
    text_of _ _ = none

module _ (parse_uuid : String → Option Uuid) where
  selected_label : QuestionnaireQuestion → Option Uuid → String
  unfolding option_label
  selected_label q none = ""
  selected_label q (some id) = unwrap_or "" (option_label q id)

  format_value :
      QuestionnaireQuestionKind → QuestionnaireQuestion → Option QuestionnaireAnswerValue → String
  unfolding selected_label option_labels
  format_value free_text q (some (one s)) = s
  format_value single_select q (some (one s)) = selected_label q (parse_uuid s)
  format_value multi_select q (some (many ids)) = join (option_labels q ids)
  format_value _ q _ = ""

  unfoldable pub format_answer : QuestionnaireQuestion → Option QuestionnaireAnswers → String
  unfolding format_value answer_of
  format_answer q answers = format_value q.kind q (answer_of q answers)

  is_selected : Option Uuid → Uuid → Bool
  is_selected none id = false
  is_selected (some selected) id = selected == id

  value_selects : Option QuestionnaireAnswerValue → Uuid → Bool
  unfolding is_selected
  value_selects none id = false
  value_selects (some (one s)) id = is_selected (parse_uuid s) id
  value_selects (some (many ids)) id = contains ids id

  pub is_option_selected : QuestionnaireQuestion → Option QuestionnaireAnswers → Uuid → Bool
  unfolding value_selects answer_of
  is_option_selected q answers id = value_selects (answer_of q answers) id
