-- ===== src/Accounts/Citizen/Subscriptions.antt =====
-- The push subscriptions that `subscribe_notifications` of services/phase4.py keeps.
use mathlib.Core.Path.{subst}
use adhikar_ai.Prelude.{
  filter-append_out, ℕ, String, ◌≤◌, ◌≡◌, refl, sym, ap, ◌∙◌, Bool, true, Option, none, some, List,
  [], ◌∷◌, ◌++◌, map, length, filter, find, Bool-cases, nat_eq, string_eq, inl, inr, arith,
}
use adhikar_ai.Prelude.Exec.{run}
use adhikar_ai.Db.Tables.{update_rows}
use adhikar_ai.Accounts.{User}
use adhikar_ai.Accounts.Citizen.{
  NotificationSubscription, CitizenTables, PushSubscriptionRequest, is_subscription, renewed,
  new_subscription, put_subscription, subscribe_notifications,
}

-- An organisation has at most one row for an endpoint.
abbrev pub IsSingle : List NotificationSubscription → Type 0
IsSingle rows =
    (org : ℕ) (endpoint : String) → length (filter (is_subscription org endpoint) rows) ≤ 1

-- The row that a request leaves for its endpoint.
abbrev subscription_after :
    User → PushSubscriptionRequest → Option NotificationSubscription → NotificationSubscription
subscription_after user request none = new_subscription user request
subscription_after user request (some row) = renewed request row

module _ (request : PushSubscriptionRequest) (user : User) where
  length-renewed :
      (org : ℕ) (endpoint : String) (p : NotificationSubscription → Bool)
      (rows : List NotificationSubscription)
      → length (filter (is_subscription org endpoint) (update_rows p (renewed request) rows))
        ≡ length (filter (is_subscription org endpoint) rows)
  length-renewed org endpoint p [] = refl
  length-renewed org endpoint p (row ∷ rows) = ground (arith, length-renewed org endpoint p rows)

  filter-renewed :
      (org : ℕ) (endpoint : String) (rows : List NotificationSubscription)
      → filter
          (is_subscription org endpoint)
          (update_rows (is_subscription org endpoint) (renewed request) rows)
        ≡ map (renewed request) (filter (is_subscription org endpoint) rows)
  filter-renewed org endpoint [] = refl
  filter-renewed org endpoint (row ∷ rows) = ground (arith, filter-renewed org endpoint rows)

nil_of_length : (rows : List NotificationSubscription) → length rows ≤ 0 → rows ≡ []
nil_of_length [] h = refl
nil_of_length (row ∷ rows) h = absurd (omega (arith, h))

module _ (p : NotificationSubscription → Bool) where
  filter-only :
      (row : NotificationSubscription) (rows : List NotificationSubscription)
      → find p rows ≡ some row
      → length (filter p rows) ≤ 1
      → filter p rows ≡ row ∷ []
  filter-only row [] h one = absurd (ground (arith, h))
  filter-only row (x ∷ rows) h one =
      ground (arith, h, one, nil_of_length (filter p rows), filter-only row rows)

  filter-append_none :
      (row : NotificationSubscription) (rows : List NotificationSubscription)
      → find p rows ≡ none
      → filter p (rows ++ row ∷ []) ≡ filter p (row ∷ [])
  filter-append_none row [] h = refl
  filter-append_none row (x ∷ rows) h = ground (arith, h, filter-append_none row rows)

is_subscription-new :
    (user : User) (request : PushSubscriptionRequest)
    → is_subscription user.organisation_id request.endpoint (new_subscription user request) ≡ true
is_subscription-new user request = ground (
  arith,
  nat_eq.test_iff user.organisation_id user.organisation_id,
  string_eq.test_iff request.endpoint request.endpoint,
)

module _ (user : User) (request : PushSubscriptionRequest) (rows : List NotificationSubscription)
    (single : IsSingle rows) where
  abbrev same : NotificationSubscription → Bool
  same = is_subscription user.organisation_id request.endpoint

  put_subscription-only :
      (existing : Option NotificationSubscription)
      → find same rows ≡ existing
      → filter same (put_subscription user request existing rows)
        ≡ subscription_after user request existing ∷ []
  put_subscription-only none h =
      filter-append_none same (new_subscription user request) rows h
      ∙ rw (is_subscription-new user request) refl
  put_subscription-only (some row) h =
      filter-renewed request user user.organisation_id request.endpoint rows
      ∙ ap (map (renewed request))
          (filter-only same row rows h (single user.organisation_id request.endpoint))

  put_subscription-IsSingle :
      (existing : Option NotificationSubscription)
      → find same rows ≡ existing
      → IsSingle (put_subscription user request existing rows)
  put_subscription-IsSingle (some row) h org endpoint =
      omega (arith, single org endpoint, length-renewed request user org endpoint same rows)
  put_subscription-IsSingle none h org endpoint =
      let new = new_subscription user request in
      elim (Bool-cases (is_subscription org endpoint new)) [
        | inl e ↦
            let same_org : user.organisation_id ≡ org =
              ground (arith, e, nat_eq.test_iff user.organisation_id org) in
            let same_endpoint : request.endpoint ≡ endpoint =
              ground (arith, e, string_eq.test_iff request.endpoint endpoint) in
            let only = put_subscription-only none h in
            subst (λ p. length (filter p (rows ++ new ∷ [])) ≤ 1)
              (λ i. is_subscription (same_org i) (same_endpoint i))
              (omega (arith, ap (length {A = NotificationSubscription}) only))
        | inr e ↦ omega (
          arith,
          single org endpoint,
          ap (length {A = NotificationSubscription})
              (filter-append_out (is_subscription org endpoint) new rows e),
        )
      ]

-- Whose row it is.
abbrev pub owner_after : User → Option NotificationSubscription → ℕ
owner_after user none = user.id
owner_after user (some row) = row.user_id

-- What a subscription leaves for its endpoint.
pub record IsSubscribed (user : User) (request : PushSubscriptionRequest)
    (rows : List NotificationSubscription) (row : NotificationSubscription) : Type 0 where
  pub active : row.is_active ≡ true
  pub keys : row.p256dh ≡ request.p256dh
  pub secret : row.auth ≡ request.auth
  pub owner :
      row.user_id
      ≡ owner_after user (find (is_subscription user.organisation_id request.endpoint) rows)

subscription_after-IsSubscribed :
    (user : User) (request : PushSubscriptionRequest) (rows : List NotificationSubscription)
    (existing : Option NotificationSubscription)
    → find (is_subscription user.organisation_id request.endpoint) rows ≡ existing
    → IsSubscribed user request rows (subscription_after user request existing)
subscription_after-IsSubscribed user request rows none h = record {
  active = refl;
  keys = refl;
  secret = refl;
  owner = ap (owner_after user) (sym h);
}
subscription_after-IsSubscribed user request rows (some row) h = record {
  active = refl;
  keys = refl;
  secret = refl;
  owner = ap (owner_after user) (sym h);
}

-- Where an organisation has at most one row for an endpoint, it has so after a subscription, too. The only
-- row for the endpoint is then active and has the keys of the request; it belongs to the user of the row
-- that was there, and to the subscriber if there was none.
pub subscribe_notifications-IsSingle :
    (user : User) (request : PushSubscriptionRequest) (t : CitizenTables)
    → IsSingle t.notification_subscriptions
    → let after = (run (subscribe_notifications user request) t).1.notification_subscriptions in
      IsSingle after
      × ((row : NotificationSubscription) × (filter
              (is_subscription user.organisation_id request.endpoint)
              after
            ≡ row ∷ [])
          × IsSubscribed user request t.notification_subscriptions row)
unfolding subscribe_notifications
subscribe_notifications-IsSingle user request t single =
    let rows = t.notification_subscriptions in
    let existing = find (is_subscription user.organisation_id request.endpoint) rows in
    (
      put_subscription-IsSingle user request rows single existing refl,
      (
        subscription_after user request existing,
        put_subscription-only user request rows single existing refl,
        subscription_after-IsSubscribed user request rows existing refl,
      ),
    )
