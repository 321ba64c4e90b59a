-- ===== src/Sessions/Members.antt =====
-- services/sessions/session_service.py: the node of a turn that finds whom the message is about, and what
-- has happened to them.
use adhikar_ai.Prelude.{
  ℕ, String, Bool, true, false, ◌&&◌, Option, none, some, List, [], ◌∷◌, ◌++◌, map, ◌==◌, nat_eq,
  string_eq, option_eq, find, if◌then◌else◌,
}
use adhikar_ai.Prelude.Dict.{lookup}
use adhikar_ai.Prelude.Exec.{pure, gets, or_raise, modify, ◌>>=◌, ◌>>◌}
use adhikar_ai.Prelude.Text.{str_nat}
use adhikar_ai.Value.{Value, text}
use adhikar_ai.Agent.{profile_dump}
use adhikar_ai.Agent.LifeEvents.{LifeEvent, detect_life_event}
use adhikar_ai.Sessions.{
  ProfileRow, ConversationSession, values, ProfileEvent, ConversationTables, Chat, Env,
  internal_error, add_profile, add_profile_event, set_session,
}
use adhikar_ai.Sessions.State.{profile_model, with_columns, new_profile}
use adhikar_ai.Sessions.Turn.{ChatInput, Context}

-- `=` of a column and a text.
abbrev is_text : String → Option Value → Bool
is_text s (some (text t)) = t == s
is_text s _ = false

abbrev pub is_member : Context → String → ProfileRow → Bool
is_member c reference p =
    (p.organisation_id == c.organisation_id && p.household_id == c.row.household_id)
    && is_text reference (lookup "relationship_to_primary" p.columns)

abbrev pub new_member : Env → Context → String → ProfileRow
new_member env c reference =
    new_profile env.member_id c.organisation_id c.row.household_id
      (("display_name", text reference) ∷ ("relationship_to_primary", text reference) ∷ [])

-- The member that the facts are about, added if the household has none.
abbrev pub find_member : Env → Context → String → Chat ProfileRow
find_member env c reference = do
  found ← gets λ (t : ConversationTables). find (is_member c reference) t.profiles
  elim found [
    | some member ↦ pure member
    | none ↦ do modify (add_profile (new_member env c reference)); pure (new_member env c reference)
  ]

abbrev pub with_active : ℕ → ConversationSession → ConversationSession
with_active id row = record row { active_profile_id = some id }

abbrev pub activate : Env → Context → ProfileRow → Chat Context
activate env c member = do
  modify (set_session c.row.id (with_active member.id))
  profile ← or_raise (profile_model env.validate (some member)) internal_error
  pure (record c {
    row = with_active member.id c.row;
    state = record c.state { active_member_id = str_nat member.id; user_profile = profile };
    profile_data = profile_dump profile;
  })

unfoldable pub switch_member : Env → Context → Chat Context
switch_member env c =
    let reference = c.extracted.active_member_reference in
    let switched : Chat Context = do member ← find_member env c reference; activate env c member
    in if reference == "self" then pure c else switched

abbrev patched : Option Value → String → List (String × Value)
patched none name = []
patched (some v) name = (name, v) ∷ []

abbrev child_columns : List (String × Value) → List (String × Value)
child_columns patch =
    patched (lookup "relationship_to_primary" patch) "display_name"
    ++ ((
      "relationship_to_primary",
      elim (lookup "relationship_to_primary" patch) [ none ↦ text "child" | some v ↦ v ],
    )
        ∷ (patched (lookup "age" patch) "age" ++ patched (lookup "gender" patch) "gender"))

abbrev new_child : Env → Context → LifeEvent → ProfileRow
new_child env c event =
    new_profile env.child_id c.organisation_id c.row.household_id (child_columns event.member_patch)

abbrev child_event : Env → Context → LifeEvent → ProfileEvent
child_event env c event = record {
  organisation_id = c.organisation_id;
  profile_id = env.child_id;
  event_type = event.event_type;
  source = "conversation";
  changed_fields = map (λ (e : String × Value). e.0) event.member_patch;
  previous_values = values [];
  new_values = values event.member_patch;
}

-- `if life_event.member_patch and row.household_id`
abbrev has_child : Context → LifeEvent → Bool
has_child c event = elim event.member_patch [
  | [] ↦ false
  | _ ∷ _ ↦ elim c.row.household_id [ none ↦ false | some _ ↦ true ]
]

abbrev pub add_child : Env → Context → LifeEvent → ConversationTables → ConversationTables
add_child env c event t =
    if has_child c event
    then add_profile_event (child_event env c event) (add_profile (new_child env c event) t)
    else t

abbrev pub apply_event : Env → Context → Option LifeEvent → Chat Context
apply_event env c none = pure c
apply_event env c (some event) = do
  modify (add_child env c event)
  pure (record c { profile_data = with_columns event.profile_patch c.profile_data })

-- `_node_detect_life_event`
unfoldable pub detect_event : Env → ChatInput → Context → Chat Context
detect_event env input context = do
  c ← switch_member env context
  apply_event env c (detect_life_event input.message)
