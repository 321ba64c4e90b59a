-- ===== src/Accounts/Sync/Resend.antt =====
-- What happens when a phone sends its recorded actions again: `process_offline_sync` of phase4.py.
use mathlib.Core.Path.{subst}
use adhikar_ai.Prelude.{
  ℕ, String, true, ◌≡◌, ◌++◌, refl, map, inl, inr, none, List, [], ◌∷◌, nat_eq, string_eq, All,
  is_some, arith,
}
use adhikar_ai.Prelude.Result.{ok, done, Result-cases}
use adhikar_ai.Prelude.Exec.{run, begin, Session}
use adhikar_ai.Accounts.Sync.{
  duplicate, OfflineSyncItem, OfflineSyncEvent, OfflineSyncResult, existing_event, recorded,
  sync_result, assert_no_aadhaar_payload, sync_item, sync_items, process_offline_sync,
}

module _ (org user_id : ℕ) where
  -- The key is recorded for the organisation.
  abbrev Has : List OfflineSyncEvent → String → Type 0
  Has rows key = is_some (existing_event org key rows) ≡ true

  Has-append :
      (key : String) (rows more : List OfflineSyncEvent) → Has rows key → Has (rows ++ more) key
  Has-append key [] more h = absurd (ground arith)
  Has-append key (row ∷ rows) more h = ground (arith, Has-append key rows more)

  Has-recorded :
      (item : OfflineSyncItem) (rows : List OfflineSyncEvent)
      → Has (rows ++ recorded org user_id item ∷ []) item.idempotency_key
  Has-recorded item [] =
      ground (
        arith,
        nat_eq.test_iff org org,
        string_eq.test_iff item.idempotency_key item.idempotency_key,
      )
  Has-recorded item (row ∷ rows) = ground (arith, Has-recorded item rows)

  -- The item would be answered `duplicate`.
  abbrev IsKnown : List OfflineSyncEvent → OfflineSyncItem → Type 0
  IsKnown rows item =
      (assert_no_aadhaar_payload item.payload ≡ done) × Has rows item.idempotency_key

  sync_item-ok :
      (item : OfflineSyncItem) (s s' : Session (List OfflineSyncEvent)) (r : OfflineSyncResult)
      → sync_item org user_id item s ≡ (ok r, s')
      → IsKnown s'.view item × ((key : String) → Has s.view key → Has s'.view key)
  unfolding sync_item
  sync_item-ok item s s' r h = (
    ground (arith, Has-recorded item s.view),
    λ key k. ground (arith, Has-append key s.view (recorded org user_id item ∷ []) k),
  )

  sync_items-known :
      (items : List OfflineSyncItem) (s : Session (List OfflineSyncEvent))
      → All (IsKnown s.view) items
      → sync_items org user_id items s ≡ (ok (map (λ i. sync_result i duplicate none) items), s)
  unfolding sync_items sync_item
  sync_items-known [] s h = refl
  sync_items-known (item ∷ items) s ((clean, known), h) =
      ground (arith, clean, known, sync_items-known items s h)

  sync_items-ok :
      (items : List OfflineSyncItem) (s s' : Session (List OfflineSyncEvent))
      (results : List OfflineSyncResult)
      → sync_items org user_id items s ≡ (ok results, s')
      → All (IsKnown s'.view) items × ((key : String) → Has s.view key → Has s'.view key)
  unfolding sync_items
  sync_items-ok [] s s' results h = (tt, λ key k. ground arith)
  sync_items-ok (item ∷ items) s s' results h =
      let (first, s1) = sync_item org user_id item s in
      let (later, s2) = sync_items org user_id items s1 in
      elim (Result-cases first) [
        | inr (e, f) ↦ absurd (ground arith)
        | inl (r, f) ↦ elim (Result-cases later) [
          | inr (e, g) ↦ absurd (ground arith)
          | inl (rest, g) ↦
              let ((clean, known), kept) = sync_item-ok item s s1 r (λ i. (f i, s1)) in
              let (knowns, kept') = sync_items-ok items s1 s2 rest (λ i. (g i, s2)) in
              let ends : s2 ≡ s' = ground arith in
              subst
                (λ (end : Session (List OfflineSyncEvent)).
                  All (IsKnown end.view) (item ∷ items)
                  × ((key : String) → Has s.view key → Has end.view key))
                ends
                (
                  ((clean, kept' item.idempotency_key known), knowns),
                  λ key k. kept' key (kept key k),
                )
        ]
      ]

  -- When a batch has been accepted, sending it again records nothing and answers `duplicate` to each
  -- item.
  pub process_offline_sync_again :
      (items : List OfflineSyncItem) (rows after : List OfflineSyncEvent)
      (results : List OfflineSyncResult)
      → run (process_offline_sync org user_id items) rows ≡ (ok results, after)
      → run (process_offline_sync org user_id items) after
        ≡ (ok (map (λ i. sync_result i duplicate none) items), after)
  unfolding process_offline_sync
  process_offline_sync_again items rows after results h =
      let (first, s1) = sync_items org user_id items (begin rows) in
      elim (Result-cases first) [
        | inr (e, f) ↦ absurd (ground arith)
        | inl (r, f) ↦
            let (knowns, _) = sync_items-ok items (begin rows) s1 r (λ i. (f i, s1)) in
            let committed : s1.view ≡ after = ground arith in
            let known : All (IsKnown after) items = rw (← committed) knowns in
            ground (arith, sync_items-known items (begin after) known)
      ]
