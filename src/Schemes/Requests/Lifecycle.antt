-- ===== src/Schemes/Requests/Lifecycle.antt =====
-- The status of a scheme and its `is_active` flag, which services/schemes.py and the expiry run write.
use adhikar_ai.Prelude.{
  ℕ, String, Bool, true, false, ◌≡◌, refl, inl, inr, Option, List, [], ◌∷◌, ◌++◌, All, All-append,
  Bool-cases, Option-cases, arith, ◌==◌, string_eq,
}
use adhikar_ai.Db.Rows.{Lifecycle, is_active_status, Scheme}
use adhikar_ai.Db.Tables.{Tables, update_rows}
use adhikar_ai.Schemes.{create_scheme, set_scheme, get_scheme, new_scheme, category_id}
use adhikar_ai.Schemes.Update.{
  update_scheme, publish_scheme, archive_scheme, apply_update, UpdateSchemeRequest,
}
use adhikar_ai.Schemes.Expiry.{expire_schemes, has_expired, expired}
use adhikar_ai.Schemes.Requests.{
  AdminRequest, create, update, publish, archive, expire, handle, Reachable, initial, then_request,
}

All-update_rows :
    {A : Type 0} (P : A → Type 0) (p : A → Bool) (f : A → A)
    → ((a : A) → P a → P (f a))
    → (rows : List A) → All P rows
    → All P (update_rows p f rows)
All-update_rows P p f keeps [] h = tt
All-update_rows P p f keeps (row ∷ rows) (h, hs) = (
  elim (Bool-cases (p row)) [ inl k ↦ rw k (keeps row h) | inr k ↦ rw k h ],
  All-update_rows P p f keeps rows hs,
)

-- The flag says whether the status is `active`.
abbrev pub Agrees : Scheme → Type 0
Agrees scheme = scheme.is_active ≡ is_active_status scheme.status

abbrev pub IsConsistent : Tables → Type 0
IsConsistent t = All Agrees t.schemes

set_scheme-IsConsistent :
    (id : String) (f : Scheme → Scheme) (t : Tables)
    → ((s : Scheme) → Agrees (f s))
    → IsConsistent t
    → IsConsistent (set_scheme id f t)
set_scheme-IsConsistent id f t sets h =
    All-update_rows Agrees (λ s. s.id == id) f (λ s k. sets s) t.schemes h

update-Agrees :
    (request : UpdateSchemeRequest) (category : Option ℕ) (s : Scheme)
    → Agrees (apply_update request category s)
update-Agrees request category s = ground arith

handle-IsConsistent :
    (request : AdminRequest) (t : Tables) → IsConsistent t → IsConsistent (handle request t).1
unfolding create_scheme update_scheme publish_scheme archive_scheme expire_schemes
handle-IsConsistent (create request) t h =
    let scheme = new_scheme request (category_id request.organisation_id request.category_code t) in
    let added : All Agrees (t.schemes ++ scheme ∷ []) =
      All-append Agrees t.schemes (scheme ∷ []) h (refl, tt) in
    ground (arith, added)
handle-IsConsistent (update id request) t h =
    let category = category_id request.organisation_id request.category_code t in
    let changed =
      set_scheme-IsConsistent id (apply_update request category) t (update-Agrees request category)
        h in
    ground (arith, changed)
handle-IsConsistent (publish org id) t h = elim (Option-cases (get_scheme id t)) [
  | inl e ↦ ground arith
  | inr (s, e) ↦
      let changed =
        set_scheme-IsConsistent s.id (λ x. record x { status = Lifecycle.active; is_active = true })
          t (λ x. refl) h in
      ground (arith, changed)
]
handle-IsConsistent (archive org id reason) t h = elim (Option-cases (get_scheme id t)) [
  | inl e ↦ ground arith
  | inr (s, e) ↦
      let changed =
        set_scheme-IsConsistent s.id
          (λ x. record x { status = Lifecycle.archived; is_active = false }) t (λ x. refl) h in
      ground (arith, changed)
]
handle-IsConsistent (expire today) t h =
    All-update_rows Agrees (has_expired today) expired (λ s k. refl) t.schemes h

-- In every state that requests reach from a consistent one, a scheme's `is_active` flag is set exactly
-- when its status is `active`.
pub Reachable-IsConsistent :
    (start after : Tables) → IsConsistent start → Reachable start after → IsConsistent after
Reachable-IsConsistent start after h initial = h
Reachable-IsConsistent start after h (then_request {t} earlier request e) =
    rw e (handle-IsConsistent request t (Reachable-IsConsistent start t h earlier))
