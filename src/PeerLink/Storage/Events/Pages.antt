-- ===== src/PeerLink/Storage/Events/Pages.antt =====
-- The pages of a link's events, and lists of entries.
use rez_sdk.Common.{
  ℕ, zero, suc, ◌≤◌, ◌<◌, ◌≡◌, refl, ap, false, Option, none, some, List, [], ◌∷◌, ◌++◌, map,
  String, str_eq, eq_refl, arith, length, All,
}
use rez_sdk.Common.Text.{is_empty, trim}
use rez_sdk.PeerLink.Storage.Base.{Record, Stored, object, KeyValueStore, Result, ok, throws, read}
use rez_sdk.PeerLink.Storage.Events.{
  record_key, behind, Page, last_event_id, is_nil, items_of, list_by_peer_link_id,
}
use rez_sdk.Transport.Framing.{take, drop}

abbrev pub ids : List (String × Record) → List String
ids = map (λ (e : String × Record). e.0)

abbrev pub items : List (String × Record) → List Stored
items = map (λ (e : String × Record). object e.1)

-- The pages from a cursor on, done far done the fuel goes.
module _ (kv : KeyValueStore) (owner link : String) (limit : ℕ) (s : kv.State) where
  abbrev pub page_at : String → Result Page
  page_at cursor = list_by_peer_link_id kv owner link (record { limit = limit; cursor = cursor }) s

  abbrev pub and_more : List Stored → Option (List Stored) → Option (List Stored)
  and_more shown none = none
  and_more shown (some more) = some (shown ++ more)

  abbrev pub go_on :
      List Stored → Option String → (String → Option (List Stored)) → Option (List Stored)
  go_on shown none next = some shown
  go_on shown (some cursor) next = and_more shown (next cursor)

  abbrev pub follow : Result Page → (String → Option (List Stored)) → Option (List Stored)
  follow (throws e) next = none
  follow (ok page) next = go_on page.items page.next_cursor next

  unfoldable pub collect : ℕ → String → Option (List Stored)
  collect zero cursor = none
  collect (suc fuel) cursor = follow (page_at cursor) (collect fuel)

-- The event is stored under its id, which is that of the record, trimmed.
module _ (kv : KeyValueStore) (owner : String) (s : kv.State) where
  pub record IsStored (e : String × Record) : Type 0 where
    pub key : String
    pub keyed : record_key owner e.0 ≡ ok key
    pub found : read kv key s ≡ some (object e.1)
    pub named : trim e.1.event_id ≡ e.0
    pub full : is_empty e.0 ≡ false

  pub items_of-ids :
      (es : List (String × Record)) → All IsStored es → items_of kv owner (ids es) s ≡ ok (items es)
  unfolding items_of
  items_of-ids [] h = refl
  items_of-ids (e ∷ es) h = rw (h.0.keyed, items_of-ids es h.1, h.0.found) refl

-- No id stands twice.
abbrev pub AreDistinct : List (String × Record) → Type 0
AreDistinct [] = Unit
AreDistinct (e ∷ es) = All (λ (x : String × Record). str_eq e.0 x.0 ≡ false) es × AreDistinct es

pub distinct_before :
    (done : List (String × Record)) (e : String × Record) (rest : List (String × Record))
    → AreDistinct (done ++ e ∷ rest)
    → All (λ (x : String × Record). str_eq x.0 e.0 ≡ false) done
distinct_before [] e rest d = tt
distinct_before (a ∷ done) e rest d = (head_of done d.0, distinct_before done e rest d.1)
  where
    head_of :
        (xs : List (String × Record))
        → All (λ (x : String × Record). str_eq a.0 x.0 ≡ false) (xs ++ e ∷ rest)
        → str_eq a.0 e.0 ≡ false
    head_of [] h = h.0
    head_of (x ∷ xs) h = head_of xs h.1

pub behind-last :
    (done : List (String × Record)) (e : String × Record) (rest : List (String × Record))
    → All (λ (x : String × Record). str_eq x.0 e.0 ≡ false) done
    → behind e.0 (ids (done ++ e ∷ rest)) ≡ suc (length done)
unfolding behind
behind-last [] e rest h = rw (eq_refl e.0) refl
behind-last (a ∷ done) e rest h = rw (h.0, behind-last done e rest h.1) refl

pub drop-ids :
    (done rest : List (String × Record)) → drop (length done) (ids (done ++ rest)) ≡ ids rest
drop-ids [] rest = refl
drop-ids (a ∷ done) rest = drop-ids done rest

pub take-ids :
    (done rest : List (String × Record)) → take (length done) (ids (done ++ rest)) ≡ ids done
take-ids [] rest = refl
take-ids (a ∷ done) rest = ap (λ r. a.0 ∷ r) (take-ids done rest)

pub take_all : (n : ℕ) (xs : List String) → length xs ≤ n → take n xs ≡ xs
take_all zero [] h = refl
take_all zero (x ∷ xs) h = absurd (omega arith)
take_all (suc n) [] h = refl
take_all (suc n) (x ∷ xs) h = ap (λ r. x ∷ r) (take_all n xs (omega arith))

pub length-ids : (es : List (String × Record)) → length (ids es) ≡ length es
length-ids [] = refl
length-ids (e ∷ es) = ap suc (length-ids es)

pub last_event_id-items :
    (qs : List (String × Record)) (e : String × Record)
    → last_event_id (items (qs ++ e ∷ [])) ≡ e.1.event_id
last_event_id-items [] e = refl
last_event_id-items (q ∷ []) e = refl
last_event_id-items (q ∷ p ∷ qs) e = last_event_id-items (p ∷ qs) e

pub not_nil :
    (qs : List (String × Record)) (e : String × Record) → is_nil (items (qs ++ e ∷ [])) ≡ false
not_nil [] e = refl
not_nil (q ∷ qs) e = refl

pub All-split :
    (P : String × Record → Type 0) (xs ys : List (String × Record))
    → All P (xs ++ ys)
    → All P xs × All P ys
All-split P [] ys h = (tt, h)
All-split P (x ∷ xs) ys h = let (a, b) = All-split P xs ys h.1 in ((h.0, a), b)

pub items-append : (xs ys : List (String × Record)) → items (xs ++ ys) ≡ items xs ++ items ys
items-append [] ys = refl
items-append (x ∷ xs) ys = ap (λ r. object x.1 ∷ r) (items-append xs ys)

-- The entries up to the n-th one, that one, and the others.
pub record Cut (n : ℕ) (es : List (String × Record)) : Type 0 where
  pub front : List (String × Record)
  pub last : String × Record
  pub back : List (String × Record)
  pub whole : es ≡ front ++ last ∷ back
  pub size : length front ≡ n

pub Cut-at : (n : ℕ) (es : List (String × Record)) → n < length es → Cut n es
Cut-at n [] h = absurd (omega arith)
Cut-at zero (e ∷ es) h = record { front = []; last = e; back = es; whole = refl; size = refl }
Cut-at (suc n) (e ∷ es) h =
    let c = Cut-at n es (omega arith) in
    record {
      front = e ∷ c.front;
      last = c.last;
      back = c.back;
      whole = ap (λ r. e ∷ r) c.whole;
      size = ap suc c.size;
    }
