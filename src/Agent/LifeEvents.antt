-- ===== src/Agent/LifeEvents.antt =====
-- agent/life_events.py: a marriage or a birth that a message tells of.
use adhikar_ai.Prelude.{String, ◌||◌, Option, none, some, List, [], ◌∷◌, any, if◌then◌else◌}
use adhikar_ai.Prelude.Int.{pos}
use adhikar_ai.Prelude.Text.{lower}
use adhikar_ai.Value.{Value, text, number, is_substring}

pub record LifeEvent : Type 0 where
  pub event_type : String
  pub profile_patch : List (String × Value)
  pub member_patch : List (String × Value)

abbrev child_words : List String
child_words =
    "had a baby" ∷ "gave birth" ∷ "child birth" ∷ "newborn" ∷ "baby girl" ∷ "baby boy" ∷ []

abbrev marriage : LifeEvent
marriage = record {
  event_type = "marriage";
  profile_patch = ("marital_status", text "married") ∷ [];
  member_patch = [];
}

abbrev child_birth : String → LifeEvent
child_birth gender = record {
  event_type = "child_birth";
  profile_patch = [];
  member_patch =
      ("relationship_to_primary", text "child")
      ∷ ("age", number (pos 0))
      ∷ ("gender", text gender)
      ∷ [];
}

unfoldable pub detect_life_event : String → Option LifeEvent
unfolding is_substring
detect_life_event message =
    let low = lower message in
    let has = λ (word : String). is_substring word low in
    let gender = if has "girl" then "female" else if has "boy" then "male" else "unknown" in
    if has "married" || has "wedding"
    then some marriage
    else if any has child_words
    then some (child_birth gender)
    else none
