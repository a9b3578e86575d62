-- ===== src/PeerLink/Storage/Events/Following.antt =====
-- A client that follows the cursors from page to page sees every event of a link once, in order.
use rez_sdk.Common.{
  ℕ, zero, suc, ◌+◌, ◌≤◌, ◌<◌, ◌≡◌, refl, sym, ap, subst, ◌∙◌, false, none, some, List, [], ◌∷◌,
  ◌++◌, String, ltb, ◌==◌, arith, inl, inr, Bool-cases, length, length-append, All,
}
use mathlib.Core.List.{append_assoc}
use rez_sdk.Common.Text.{trim}
use rez_sdk.PeerLink.Storage.Base.{Record, array, KeyValueStore, ok, read}
use rez_sdk.PeerLink.Storage.Sessions.Device.{IsFull, assert_non_empty-full}
use rez_sdk.PeerLink.Storage.Events.{
  index_key, start_of, window, last_event_id, cursor_after, list_by_peer_link_id,
}
use rez_sdk.Transport.Framing.{take, drop}
use rez_sdk.PeerLink.Storage.Events.Pages.{
  ids, items, collect, IsStored, AreDistinct, items_of-ids, distinct_before, behind-last, drop-ids,
  take-ids, take_all, length-ids, last_event_id-items, not_nil, All-split, items-append, Cut-at,
}

module _ (kv : KeyValueStore) (owner link : String) (n : ℕ) (s : kv.State)
    (full_owner : IsFull owner) (full_link : IsFull link) (key : String)
    (keyed : index_key (trim owner) (trim link) ≡ ok key) where
  -- One page, by the ids that are in its window.
  page-of :
      (cursor : String) (es its : List (String × Record)) (start : ℕ)
      → read kv key s ≡ some (array (ids es))
      → start_of (record { limit = suc n; cursor = cursor }) (ids es) ≡ start
      → take (suc n) (drop start (ids es)) ≡ ids its
      → All (IsStored kv (trim owner) s) its
      → list_by_peer_link_id kv owner link (record { limit = suc n; cursor = cursor }) s
        ≡ ok (record {
          items = items its;
          next_cursor = cursor_after (suc n) start (length (ids es)) (items its);
        })
  unfolding list_by_peer_link_id window
  page-of cursor es its start listed starts shown stored =
      let limited : (suc n == 0) ≡ false = ground arith in
      rw
        (
          assert_non_empty-full owner "ownerAccountId" full_owner,
          assert_non_empty-full link "peerLinkId" full_link,
          keyed,
          listed,
          starts,
          limited,
          shown,
          items_of-ids kv (trim owner) s its stored,
        )
        refl

  -- The last page shows all that is left.
  last_page :
      (done rest : List (String × Record)) (cursor : String)
      → read kv key s ≡ some (array (ids (done ++ rest)))
      → All (IsStored kv (trim owner) s) rest
      → start_of (record { limit = suc n; cursor = cursor }) (ids (done ++ rest)) ≡ length done
      → length rest ≤ suc n
      → list_by_peer_link_id kv owner link (record { limit = suc n; cursor = cursor }) s
        ≡ ok (record { items = items rest; next_cursor = none })
  last_page done rest cursor listed stored starts short =
      let shown : take (suc n) (drop (length done) (ids (done ++ rest))) ≡ ids rest =
        ap (take (suc n)) (drop-ids done rest)
        ∙ take_all (suc n) (ids rest) (omega (arith, length-ids rest)) in
      let ended : cursor_after (suc n) (length done) (length (ids (done ++ rest))) (items rest)
          ≡ none =
        ground (arith, length-ids (done ++ rest), length-append done rest) in
      page-of cursor (done ++ rest) rest (length done) listed starts shown stored
      ∙ ap (λ c. ok (record { items = items rest; next_cursor = c })) ended

  -- Another page shows so many, and ends with a cursor for the last one.
  middle_page :
      (done front back : List (String × Record)) (last : String × Record) (cursor : String)
      → read kv key s ≡ some (array (ids (done ++ ((front ++ last ∷ []) ++ back))))
      → All (IsStored kv (trim owner) s) (front ++ last ∷ [])
      → start_of
          (record { limit = suc n; cursor = cursor })
          (ids (done ++ ((front ++ last ∷ []) ++ back)))
        ≡ length done
      → length front ≡ n
      → 0 < length back
      → list_by_peer_link_id kv owner link (record { limit = suc n; cursor = cursor }) s
        ≡ ok (record { items = items (front ++ last ∷ []); next_cursor = some last.1.event_id })
  middle_page done front back last cursor listed stored starts size more =
      let its = front ++ last ∷ [] in
      let count : suc n ≡ length its = omega (arith, size, length-append front (last ∷ [])) in
      let shown : take (suc n) (drop (length done) (ids (done ++ (its ++ back)))) ≡ ids its =
        ap (take (suc n)) (drop-ids done (its ++ back))
        ∙ ap (λ m. take m (ids (its ++ back))) count
        ∙ take-ids its back in
      let goes_on : cursor_after (suc n) (length done) (length (ids (done ++ (its ++ back))))
            (items its)
          ≡ some (last_event_id (items its)) =
        ground (
          arith,
          length-ids (done ++ (its ++ back)),
          length-append done (its ++ back),
          length-append its back,
          not_nil front last,
        ) in
      page-of cursor (done ++ (its ++ back)) its (length done) listed starts shown stored
      ∙ ap (λ c. ok (record { items = items its; next_cursor = c }))
          (goes_on ∙ ap some (last_event_id-items front last))

  -- The cursor of a page leads behind it.
  start-behind :
      (done front back : List (String × Record)) (last : String × Record)
      → AreDistinct ((done ++ front) ++ last ∷ back)
      → IsStored kv (trim owner) s last
      → start_of
          (record { limit = suc n; cursor = last.1.event_id })
          (ids ((done ++ front) ++ last ∷ back))
        ≡ suc (length (done ++ front))
  unfolding start_of
  start-behind done front back last distinct stored =
      rw (stored.named, stored.full)
        (behind-last (done ++ front) last back (distinct_before (done ++ front) last back distinct))

  -- The remaining pages, behind a first part that was shown.
  collect-rest :
      (fuel : ℕ) (done rest all : List (String × Record)) (cursor : String)
      → all ≡ done ++ rest
      → read kv key s ≡ some (array (ids all))
      → All (IsStored kv (trim owner) s) rest
      → AreDistinct all
      → start_of (record { limit = suc n; cursor = cursor }) (ids all) ≡ length done
      → length rest < fuel
      → collect kv owner link (suc n) s fuel cursor ≡ some (items rest)
  unfolding collect
  collect-rest zero done rest all cursor whole listed stored distinct starts enough =
      absurd (omega arith)
  collect-rest (suc fuel) done rest all cursor whole listed stored distinct starts enough =
      elim (Bool-cases (ltb (suc n) (length rest))) [
        | inr short ↦
            rw
              (last_page done rest cursor (rw (← whole) listed) stored (rw (← whole) starts)
                (ground arith))
              refl
        | inl long ↦
            let c = Cut-at n rest (ground arith) in
            let its = c.front ++ c.last ∷ [] in
            let split : rest ≡ its ++ c.back =
              c.whole ∙ sym (append_assoc c.front (c.last ∷ []) c.back) in
            let parts =
              All-split (IsStored kv (trim owner) s) its c.back
                (subst (All (IsStored kv (trim owner) s)) split stored) in
            let all_split : all ≡ done ++ (its ++ c.back) = whole ∙ ap (λ r. done ++ r) split in
            let all_last : all ≡ (done ++ c.front) ++ c.last ∷ c.back =
              whole
              ∙ ap (λ r. done ++ r) c.whole
              ∙ sym (append_assoc done c.front (c.last ∷ c.back)) in
            let last_stored =
              (All-split (IsStored kv (trim owner) s) c.front (c.last ∷ []) parts.0).1.0 in
            let size : length rest ≡ length its + length c.back =
              ap length split ∙ length-append its c.back in
            let its_size : length its ≡ suc n =
              length-append c.front (c.last ∷ []) ∙ omega (arith, c.size) in
            let next =
              collect-rest fuel (done ++ its) c.back all c.last.1.event_id
                (all_split ∙ sym (append_assoc done its c.back)) listed parts.1 distinct
                (subst
                  (λ x.
                    start_of (record { limit = suc n; cursor = c.last.1.event_id }) (ids x)
                    ≡ length (done ++ its))
                  (sym all_last)
                  (start-behind done c.front c.back c.last (subst AreDistinct all_last distinct)
                      last_stored
                    ∙ omega (
                      arith,
                      length-append done its,
                      length-append done c.front,
                      length-append c.front (c.last ∷ []),
                    )))
                (ground arith) in
            let page =
              middle_page done c.front c.back c.last cursor
                (subst (λ x. read kv key s ≡ some (array (ids x))) all_split listed) parts.0
                (subst
                  (λ x. start_of (record { limit = suc n; cursor = cursor }) (ids x) ≡ length done)
                  all_split starts)
                c.size (ground arith) in
            rw (page, next) (ap some (sym (items-append its c.back) ∙ ap items (sym split)))
      ]

-- If every id in a link's index is stored under itself, and none stands there twice, then the pages of any
-- size, each asked for with the cursor of the one before, are together the events of the index in their
-- order; as many requests as there are ids, and one more, are enough.
pub collect-items :
    (kv : KeyValueStore) (owner link : String) (n : ℕ) (s : kv.State) (key : String)
    (es : List (String × Record))
    → IsFull owner
    → IsFull link
    → index_key (trim owner) (trim link) ≡ ok key
    → read kv key s ≡ some (array (ids es))
    → All (IsStored kv (trim owner) s) es
    → AreDistinct es
    → collect kv owner link (suc n) s (suc (length es)) "" ≡ some (items es)
unfolding start_of
collect-items kv owner link n s key es full_owner full_link keyed listed stored distinct =
    collect-rest kv owner link n s full_owner full_link key keyed (suc (length es)) [] es es "" refl
      listed stored distinct refl (omega arith)
