-- ===== src/Accounts/Login.antt =====
-- services/phase4.py: what a verified code does to the citizen's account, with `mark_guest_migration`.
use adhikar_ai.Prelude.{
  ℕ, String, Bool, true, false, not, ◌&&◌, Option, none, some, List, [], ◌∷◌, ◌++◌, ◌==◌, nat_eq,
  string_eq, contains, find, if◌then◌else◌,
}
use adhikar_ai.Prelude.Dict.{lookup, insert}
use adhikar_ai.Prelude.Result.{ApiError}
use adhikar_ai.Prelude.Exec.{pure, gets, or_raise, modify, ◌>>=◌, ◌>>◌}
use adhikar_ai.Prelude.Sorting.{sort}
use adhikar_ai.Prelude.Text.{is_empty, str_leb}
use adhikar_ai.Value.{Value, Items, text, array, nil, cons, items_of}
use adhikar_ai.Db.Tables.{update_rows}
use adhikar_ai.Accounts.{User, Profile, AccountTables}
use adhikar_ai.Accounts.Otp.{Db, Env, VerifyOtpRequest}

abbrev set_user : ℕ → (User → User) → AccountTables → AccountTables
set_user id f t = record t { users = update_rows (λ (u : User). u.id == id) f t.users }

abbrev set_profile : ℕ → (Profile → Profile) → AccountTables → AccountTables
set_profile id f t = record t { profiles = update_rows (λ (p : Profile). p.id == id) f t.profiles }

-- The texts of an array; the key of the migrated ids is written by `mark_guest_migration` alone, and any
-- other value under it counts as an error of the program.
abbrev texts_of : Items → Option (List String)
texts_of nil = some []
texts_of (cons (text s) items) = elim (texts_of items) [ none ↦ none | some ss ↦ some (s ∷ ss) ]
texts_of _ = none

unfoldable pub migrated_ids : Option Value → Option (List String)
migrated_ids none = some []
migrated_ids (some (array items)) = texts_of items
migrated_ids _ = none

abbrev pub internal_error : ApiError
internal_error = record { status_code = 500; code = "INTERNAL_SERVER_ERROR"; field = none }

abbrev dedupe : List String → List String
dedupe [] = []
dedupe (s ∷ ss) = if contains s ss then dedupe ss else s ∷ dedupe ss

abbrev migrated_key : String
migrated_key = "migrated_guest_profile_ids"

unfoldable pub add_migrated : Profile → List String → Profile
add_migrated profile ids = record profile {
  custom_attributes =
      insert migrated_key (array (items_of (sort str_leb (dedupe ids)))) profile.custom_attributes;
}

-- Whether the profile took the guest's profile over now.
unfoldable pub migrate : Profile → String → Db Bool
unfolding migrated_ids add_migrated
migrate profile guest_profile_id = do
  ids ← or_raise (migrated_ids (lookup migrated_key profile.custom_attributes)) internal_error
  let fresh = not (contains guest_profile_id ids)
  modify λ t.
      if fresh then set_profile profile.id (λ p. add_migrated p (guest_profile_id ∷ ids)) t else t
  pure fresh

unfoldable pub mark_guest_migration : Option ℕ → String → Db Bool
unfolding migrate
mark_guest_migration none guest_profile_id = pure false
mark_guest_migration (some profile_id) guest_profile_id = do
  profile ← gets λ (t : AccountTables). find (λ (p : Profile). p.id == profile_id) t.profiles
  elim profile [ none ↦ pure false | some p ↦ migrate p guest_profile_id ]

-- `if request.guest_profile_id`
abbrev guest_id : Option String → Option String
guest_id none = none
guest_id (some s) = if is_empty s then none else some s

abbrev new_profile : Env → VerifyOtpRequest → Profile
new_profile env request = record {
  id = env.profile_id;
  organisation_id = request.organisation_id;
  custom_attributes = elim (guest_id request.guest_profile_id) [
    | none ↦ []
    | some guest ↦ ("guest_profile_id", text guest) ∷ []
  ];
}

abbrev new_user : Env → VerifyOtpRequest → String → User
new_user env request phone = record {
  id = env.user_id;
  organisation_id = request.organisation_id;
  phone_e164 = phone;
  phone_verified_at = some env.now;
  primary_profile_id = some env.profile_id;
  language_code = request.language_code;
  notification_opt_in = false;
  deleted_at = none;
}

-- The user with the verified number, made with a profile at the first login, and whether a guest's
-- profile was taken over.
unfoldable pub log_in : Env → VerifyOtpRequest → String → Db (ℕ × Bool)
unfolding mark_guest_migration
log_in env request phone = do
  found ← gets λ (t : AccountTables).
      find (λ (u : User). u.organisation_id == request.organisation_id && u.phone_e164 == phone)
        t.users
  let guest = guest_id request.guest_profile_id
  elim found [
    | none ↦ do
      modify λ t. record t {
        profiles = t.profiles ++ new_profile env request ∷ [];
        users = t.users ++ new_user env request phone ∷ [];
      }
      pure (env.user_id, elim guest [ none ↦ false | some _ ↦ true ])
    | some user ↦ do
      modify (
          set_user user.id λ u. record u {
            phone_verified_at = some env.now;
            language_code = request.language_code;
          })
      migrated ← elim guest [
        | none ↦ pure false
        | some id ↦ mark_guest_migration user.primary_profile_id id
      ]
      pure (user.id, migrated)
  ]
