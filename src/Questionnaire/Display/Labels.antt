-- ===== src/Questionnaire/Display/Labels.antt =====
-- What is displayed of a valid answer.
use open_community_groups.Prelude.{
  String, ◌≡◌, refl, inl, inr, true, false, Option, some, List, [], ◌∷◌, find, ◌==◌, nat_eq, All,
  arith, Bool-cases, ap, sym, ◌∙◌,
}
use mathlib.Core.Path.{subst}
use Prim.Native.String.{◌++◌ as ◌++ˢ◌}
use text.Mathlib.TextLemmas.{nil-append, cons-append}
use open_community_groups.Questionnaire.{
  Uuid, QuestionnaireAnswerValue, many, one, QuestionnaireAnswers, QuestionnaireQuestion,
  QuestionnaireOption, QuestionnaireQuestionKind, multi_select, single_select, get,
}
use open_community_groups.Prelude.Result.{ok}
use open_community_groups.Questionnaire.Validate.{validate_answer}
use open_community_groups.Questionnaire.Validate.Exact.{validate_answer_lem}
use open_community_groups.Questionnaire.Accepted.{Any, HasOption, Fits, FitsOption}
use open_community_groups.Questionnaire.Display.{
  answer_of, option_label, label_of, option_labels, join, selected_label, format_value,
  format_answer, is_option_selected, value_selects, is_selected,
}

later :
    {id : Uuid} (o : QuestionnaireOption) (options : List QuestionnaireOption)
    → (o.id == id) ≡ false
    → Any (λ option. option.id ≡ id) (o ∷ options)
    → Any (λ option. option.id ≡ id) options
later o options e (inl p) = absurd (ground (arith, e, p))
later o options e (inr m) = m

find_option :
    (id : Uuid) (options : List QuestionnaireOption)
    → Any (λ option. option.id ≡ id) options
    → (option : QuestionnaireOption) × (find (λ o. o.id == id) options ≡ some option)
      × Any (λ o. o ≡ option) options
      × (option.id ≡ id)
find_option id [] h = absurd h
find_option id (o ∷ options) h = elim (Bool-cases (o.id == id)) [
  | inl e ↦ (o, ground (arith, e), inl refl, ground (arith, e))
  | inr e ↦
      let (option, found, m, i) = find_option id options (later o options e h) in
      (option, ground (arith, e, found), inr m, i)
]

-- The question's options give each identifier its label.
abbrev pub AreLabels : QuestionnaireQuestion → List Uuid → List String → Type 0
AreLabels q [] [] = Unit
AreLabels q (id ∷ ids) (label ∷ labels) =
    Any (λ o. (o.id ≡ id) × (o.label ≡ label)) q.options × AreLabels q ids labels
AreLabels q _ _ = ⊥

labelled :
    (id : Uuid) (options : List QuestionnaireOption)
    → Any (λ option. option.id ≡ id) options
    → (option : QuestionnaireOption) × (find (λ o. o.id == id) options ≡ some option)
      × Any (λ o. (o.id ≡ id) × (o.label ≡ option.label)) options
labelled id [] h = absurd h
labelled id (o ∷ options) h = elim (Bool-cases (o.id == id)) [
  | inl e ↦ (o, ground (arith, e), inl (ground (arith, e), refl))
  | inr e ↦
      let (option, found, m) = labelled id options (later o options e h) in
      (option, ground (arith, e, found), inr m)
]

option_labels-AreLabels :
    (q : QuestionnaireQuestion) (ids : List Uuid)
    → All (HasOption q) ids
    → AreLabels q ids (option_labels q ids)
unfolding option_labels option_label label_of
option_labels-AreLabels q [] h = tt
option_labels-AreLabels q (id ∷ ids) (h, hs) =
    let (o, found, m) = labelled id q.options h in
    rw (found, AreLabels) (m, option_labels-AreLabels q ids hs)

-- Every text but the first, with ", " before it.
abbrev pub followed : List String → String
followed [] = ""
followed (text ∷ texts) = ", " ++ˢ (text ++ˢ followed texts)

-- The texts, with ", " between each two of them.
abbrev pub separated : List String → String
separated [] = ""
separated (text ∷ texts) = text ++ˢ followed texts

append-nil : (s : String) → s ++ˢ "" ≡ s
append-nil String.[] = nil-append ""
append-nil (String.◌∷◌ c s) = cons-append c s "" ∙ ap (String.◌∷◌ c) (append-nil s)

join-separated : (labels : List String) → join labels ≡ separated labels
join-separated [] = refl
join-separated (a ∷ []) = sym (append-nil a)
join-separated (a ∷ b ∷ labels) = ap (λ s. a ++ˢ (", " ++ˢ s)) (join-separated (b ∷ labels))

module _ (parse_uuid : String → Option Uuid) (q : QuestionnaireQuestion)
    (answers : QuestionnaireAnswers) (valid : validate_answer parse_uuid q answers ≡ ok tt) where
  value-Fits :
      (kind : QuestionnaireQuestionKind) (v : QuestionnaireAnswerValue)
      → q.kind ≡ kind
      → get answers q.id ≡ some v
      → Fits parse_uuid kind q v
  value-Fits kind v k e =
      subst (λ c. Fits parse_uuid c q v) k
        (subst (FitsOption parse_uuid q) e ((validate_answer_lem parse_uuid q answers).0 valid))

  -- What is displayed of a valid answer to a single-select question is the label of one of its
  -- options, and that option is shown as selected.
  format_answer-single :
      (s : String)
      → q.kind ≡ single_select
      → get answers q.id ≡ some (one s)
      → (option : QuestionnaireOption) × Any (λ o. o ≡ option) q.options
        × (format_answer parse_uuid q (some answers) ≡ option.label)
        × (is_option_selected parse_uuid q (some answers) option.id ≡ true)
  unfolding format_answer is_option_selected answer_of format_value value_selects selected_label
      is_selected option_label label_of
  format_answer-single s kind value =
      let (id, parsed, has) = value-Fits single_select (one s) kind value in
      let (o, found, m, i) = find_option id q.options has in
      (o, m, ground (arith, kind, value, parsed, found), ground (arith, value, parsed, i))

  -- What is displayed of a valid answer to a multi-select question are the labels that the question's
  -- options give the identifiers of the answer, in its order, with ", " between each two of them.
  pub format_answer-multi :
      (ids : List Uuid)
      → q.kind ≡ multi_select
      → get answers q.id ≡ some (many ids)
      → (labels : List String) × (format_answer parse_uuid q (some answers) ≡ separated labels)
        × AreLabels q ids labels
  unfolding format_answer answer_of format_value
  format_answer-multi ids kind value =
      let labels = option_labels q ids in
      let shown : format_answer parse_uuid q (some answers) ≡ join labels =
        ground (arith, kind, value) in
      (
        labels,
        shown ∙ join-separated labels,
        option_labels-AreLabels q ids (value-Fits multi_select (many ids) kind value).1,
      )
