-- ===== src/PeerLink/Storage/Links/Race.antt =====
-- Two updates of a link with the same expected version, in two orders of their steps.
use rez_sdk.Common.{ℕ, ◌+◌, ◌≡◌, refl, sym, ap, ◌∙◌, some, List, [], ◌∷◌}
use rez_sdk.PeerLink.Storage.Base.{
  Record, object, KeyValueStore, IsLawful, version_mismatch, ok, throws, read,
}
use rez_sdk.PeerLink.Storage.Links.{LinkKeys, keys_of, check_update, write, update}
use rez_sdk.PeerLink.Storage.Links.Steps.{
  called, returned, refused, Turn, first, second, proceed, Race, turn, turns,
}
use rez_sdk.PeerLink.Storage.Links.Versions.{
  keys_of-apart, check_update-IsNext, read-write, update-check, check_update_again,
}

-- One call after the other, and both checks before either write.
abbrev pub in_turn : List Turn
in_turn = first ∷ first ∷ first ∷ second ∷ second ∷ second ∷ []

abbrev pub interleaved : List Turn
interleaved = first ∷ second ∷ first ∷ first ∷ second ∷ second ∷ []

module _ (kv : KeyValueStore) (law : IsLawful kv) where
  abbrev pub both_called : Record → Record → ℕ → kv.State → Race kv
  both_called r other expected s = record {
    store = s;
    one = called r expected;
    other = called other expected;
  }

  -- What the two orders come to, where each call alone returns `next` and `last`.
  pub record IsRace (r other : Record) (k l : LinkKeys) (expected : ℕ) (next last : Record)
      (s : kv.State) : Type 0 where
    pub first_in_turn : (turns kv in_turn (both_called r other expected s)).one ≡ returned next
    pub second_in_turn :
        (turns kv in_turn (both_called r other expected s)).other
        ≡ refused (version_mismatch l.peer_link_id)
    pub kept_in_turn :
        read kv k.link (turns kv in_turn (both_called r other expected s)).store
        ≡ some (object next)
    pub first_interleaved :
        (turns kv interleaved (both_called r other expected s)).one ≡ returned next
    pub second_interleaved :
        (turns kv interleaved (both_called r other expected s)).other ≡ returned last
    pub kept_interleaved :
        read kv k.link (turns kv interleaved (both_called r other expected s)).store
        ≡ some (object last)
    pub same_version : (next.version ≡ expected + 1) × (last.version ≡ expected + 1)

  turns-in_turn :
      (r other : Record) (k l : LinkKeys) (expected : ℕ) (s : kv.State) (next : Record)
      → keys_of r ≡ ok k
      → keys_of other ≡ ok l
      → check_update r k expected (read kv k.link s) ≡ ok next
      → check_update other l expected (read kv l.link (write kv k next s))
        ≡ throws (version_mismatch l.peer_link_id)
      → turns kv in_turn (both_called r other expected s) ≡ record {
        store = write kv k next s;
        one = returned next;
        other = refused (version_mismatch l.peer_link_id);
      }
  unfolding turns turn proceed write
  turns-in_turn r other k l expected s next hk hl checks mismatch =
      rw (hk, checks, hl, mismatch) refl

  turns-interleaved :
      (r other : Record) (k l : LinkKeys) (expected : ℕ) (s : kv.State) (next last : Record)
      → keys_of r ≡ ok k
      → keys_of other ≡ ok l
      → check_update r k expected (read kv k.link s) ≡ ok next
      → check_update other l expected (read kv l.link s) ≡ ok last
      → turns kv interleaved (both_called r other expected s) ≡ record {
        store = write kv l last (write kv k next s);
        one = returned next;
        other = returned last;
      }
  unfolding turns turn proceed write
  turns-interleaved r other k l expected s next last hk hl checks checks' =
      rw (hk, checks, hl, checks') refl

  -- Two calls of `update` on one link, each of which alone would succeed, with the same expected version:
  -- run one after the other, the second is refused as a mismatch, and the record of the first is kept. When
  -- both have read the link before either has written, both return, with the same version, and the record
  -- of the first is gone.
  pub updates_interleaved :
      (r other : Record) (k l : LinkKeys) (expected : ℕ) (s s' s'' : kv.State) (next last : Record)
      → keys_of r ≡ ok k
      → keys_of other ≡ ok l
      → l.link ≡ k.link
      → update kv r expected s ≡ ok (s', next)
      → update kv other expected s ≡ ok (s'', last)
      → IsRace r other k l expected next last s
  updates_interleaved r other k l expected s s' s'' next last hk hl same h h' =
      let (checks, after) = update-check kv law r k expected s s' next hk h in
      let (checks', after') = update-check kv law other l expected s s'' last hl h' in
      let mismatch : check_update other l expected (read kv l.link (write kv k next s))
          ≡ throws (version_mismatch l.peer_link_id) =
        ap (λ u. check_update other l expected (read kv l.link u)) (sym after)
        ∙ check_update_again kv law r other k l expected s s' next hk same h in
      let e = turns-in_turn r other k l expected s next hk hl checks mismatch in
      let e' = turns-interleaved r other k l expected s next last hk hl checks checks' in
      record {
        first_in_turn = ap (λ (w : Race kv). w.one) e;
        second_in_turn = ap (λ (w : Race kv). w.other) e;
        kept_in_turn =
            ap (λ (w : Race kv). read kv k.link w.store) e
            ∙ read-write kv law k next s (keys_of-apart r hk);
        first_interleaved = ap (λ (w : Race kv). w.one) e';
        second_interleaved = ap (λ (w : Race kv). w.other) e';
        kept_interleaved =
            ap (λ (w : Race kv). read kv k.link w.store) e'
            ∙ ap (λ x. read kv x (write kv l last (write kv k next s))) (sym same)
            ∙ read-write kv law l last (write kv k next s) (keys_of-apart other hl);
        same_version = (
          (check_update-IsNext r k expected (read kv k.link s) checks).version,
          (check_update-IsNext other l expected (read kv l.link s) checks').version,
        );
      }
