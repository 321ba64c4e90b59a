-- ===== src/Accounts/Citizen/Deletion.antt =====
-- What `delete_account` of services/phase4.py means for the sessions of core/security.py.
use adhikar_ai.Prelude.{
  ℕ, String, ◌≡◌, ◌≢◌, ◌↔◌, refl, sym, ap, ◌∙◌, false, Option, some, List, [], ◌∷◌, find-some, ◌==◌,
  nat_eq, Bool-cases, inl, inr, arith,
}
use adhikar_ai.Prelude.Result.{ok}
use adhikar_ai.Prelude.Exec.{run}
use adhikar_ai.Db.Tables.{update_rows}
use adhikar_ai.Accounts.{User}
use adhikar_ai.Accounts.Citizen.{CitizenTables, CitizenEnv, deleted, delete_account}
use adhikar_ai.Core.Security.Access.{IsOpened, require_user-IsOpened, IsOpened-require_user}
use adhikar_ai.Core.Security.{SecurityEnv, current_user, user_by_id, require_user}

module _ (cenv : CitizenEnv) (gone : ℕ) where
  abbrev without : List User → List User
  without users = update_rows (λ (u : User). u.id == gone) (deleted cenv) users

  -- The row of the deleted account is still found, and is no current user.
  current_user-gone :
      (users : List User) (who : User) → current_user (user_by_id gone (without users)) ≢ ok who
  current_user-gone [] who h = ground (arith, h)
  current_user-gone (u ∷ users) who h = elim (Bool-cases (u.id == gone)) [
    | inl e ↦ ground (arith, h, e)
    | inr e ↦ current_user-gone users who (ground (arith, h, e))
  ]

  find-other :
      (id : ℕ) (users : List User)
      → (id == gone) ≡ false
      → user_by_id id (without users) ≡ user_by_id id users
  find-other id [] e = refl
  find-other id (u ∷ users) e = ground (
    arith,
    e,
    find-other id users e,
    nat_eq.test_iff u.id gone,
    nat_eq.test_iff u.id id,
    nat_eq.test_iff id gone,
  )

module _ (env : SecurityEnv) (cenv : CitizenEnv) (gone : ℕ) (users : List User) where
  opens-before :
      (at : ℕ) (cookie : Option String) (who : User)
      → IsOpened env at cookie (without cenv gone users) who
      → IsOpened env at cookie users who × (who.id ≢ gone)
  opens-before at cookie who o = elim (Bool-cases (o.id == gone)) [
    | inl e ↦
        let same = (nat_eq.test_iff o.id gone).0 e in
        let opened : current_user (user_by_id gone (without cenv gone users)) ≡ ok who =
          ap (λ id. current_user (user_by_id id (without cenv gone users))) (sym same)
          ∙ ap current_user o.found
          ∙ rw o.present refl in
        absurd (current_user-gone cenv gone users who opened)
    | inr e ↦
        let found : user_by_id o.id users ≡ some who =
          sym (find-other cenv gone o.id users e) ∙ o.found in
        let own = (find-some _ who users found).1 in
        (
          record {
            payload = o.payload;
            id = o.id;
            read = o.read;
            named = o.named;
            found = found;
            present = o.present;
          },
          λ same.
              ground (arith, same, e, own, nat_eq.test_iff who.id o.id, nat_eq.test_iff o.id gone),
        )
  ]

  opens-after :
      (at : ℕ) (cookie : Option String) (who : User)
      → IsOpened env at cookie users who
      → who.id ≢ gone
      → IsOpened env at cookie (without cenv gone users) who
  opens-after at cookie who o other =
      let own = (find-some _ who users o.found).1 in
      let e : (o.id == gone) ≡ false =
        ground (arith, other, own, nat_eq.test_iff who.id o.id, nat_eq.test_iff o.id gone) in
      record {
        payload = o.payload;
        id = o.id;
        read = o.read;
        named = o.named;
        found = find-other cenv gone o.id users e ∙ o.found;
        present = o.present;
      }

-- After an account is deleted, no request reaches it, whatever its token, and every other account is reached
-- by exactly the requests that reached it before.
pub delete_account_ends_sessions :
    (env : SecurityEnv) (cenv : CitizenEnv) (user who : User) (t : CitizenTables) (at : ℕ)
    (cookie : Option String)
    → (require_user env at cookie (run (delete_account cenv user) t).1.users ≡ ok who)
      ↔ ((require_user env at cookie t.users ≡ ok who) × (who.id ≢ user.id))
unfolding delete_account
delete_account_ends_sessions env cenv user who t at cookie = (
  λ h.
      let o = require_user-IsOpened env at cookie (without cenv user.id t.users) who h in
      let (before, other) = opens-before env cenv user.id t.users at cookie who o in
      (IsOpened-require_user env at cookie t.users who before, other),
  λ (h, other).
      let o = require_user-IsOpened env at cookie t.users who h in
      let after = opens-after env cenv user.id t.users at cookie who o other in
      IsOpened-require_user env at cookie (without cenv user.id t.users) who after,
)
