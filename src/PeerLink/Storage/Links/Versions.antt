-- ===== src/PeerLink/Storage/Links/Versions.antt =====
-- The expected version of an update: what it refuses, and what it does not.
use rez_sdk.Common.{
  ℕ, zero, suc, ◌+◌, ◌≡◌, refl, sym, ap, subst, ◌∙◌, true, false, Option, some, str_eq, leb, ◌==◌,
  arith,
}
use rez_sdk.PeerLink.Storage.Base.{
  Record, Stored, object, KeyValueStore, IsLawful, version_mismatch, bad_expected_version,
  owner_changed, pair_changed, ok, throws, read, normalize_version, assert_non_empty, pair_key_for,
}
use rez_sdk.PeerLink.Storage.Distinct.{apart, apart-append, str_eq-false}
use rez_sdk.PeerLink.Storage.Reading.{
  >>=-eq-ok, ensure-eq-ok, ok-injective, key_of-ok, read-set_self, read-set_ne,
}
use rez_sdk.PeerLink.Storage.Links.{
  LinkKeys, record_key, pair_key, keys_of, held, check_update, write, update,
}

-- The record of a link and the entry of a pair never share a key.
pub keys_of-apart : (r : Record) {k : LinkKeys} → keys_of r ≡ ok k → str_eq k.pair k.link ≡ false
unfolding keys_of record_key pair_key
keys_of-apart r {k} h =
    let (a, ha, h1) = >>=-eq-ok (assert_non_empty r.peer_link_id "peerLinkId") _ h in
    let (b, hb, h2) = >>=-eq-ok (assert_non_empty r.local_account_id "localAccountId") _ h1 in
    let (c, hc, h3) = >>=-eq-ok (assert_non_empty r.peer_account_id "peerAccountId") _ h2 in
    let (link, hl, h4) = >>=-eq-ok (record_key b a) _ h3 in
    let (pair, hp, h5) = >>=-eq-ok (pair_key b c) _ h4 in
    let differ : apart "peer-link:pairs:" "peer-link:records:" ≡ true = unfold apart in refl in
    let link_at = key_of-ok "peer-link:records:" b "ownerAccountId" a "peerLinkId" hl in
    let pair_at = key_of-ok "peer-link:pairs:" b "localAccountId" c "peerAccountId" hp in
    str_eq-false k.pair k.link (λ same.
      apart-append "peer-link:pairs:" "peer-link:records:" _ _ differ (
        sym pair_at
        ∙ ap (λ (x : LinkKeys). x.pair) (ok-injective h5)
        ∙ same
        ∙ ap (λ (x : LinkKeys). x.link) (sym (ok-injective h5))
        ∙ link_at))

-- What a successful check has found.
pub record IsNext (r : Record) (expected : ℕ) (stored : Option Stored) (next : Record)
    : Type 0 where
  pub positive : leb 1 expected ≡ true
  pub version : next.version ≡ expected + 1
  pub fields : next ≡ record r { version = next.version }

pub check_update-IsNext :
    (r : Record) (k : LinkKeys) (expected : ℕ) (stored : Option Stored) {next : Record}
    → check_update r k expected stored ≡ ok next
    → IsNext r expected stored next
unfolding check_update
check_update-IsNext r k expected stored {next} h =
    let (current, hc, h1) = >>=-eq-ok (held k.peer_link_id stored) _ h in
    let (p, h2) = ensure-eq-ok (leb 1 expected) bad_expected_version _ h1 in
    let (v, h3) =
      ensure-eq-ok (normalize_version current == expected) (version_mismatch k.peer_link_id) _ h2 in
    let (o, h4) =
      ensure-eq-ok (str_eq current.local_account_id k.local_account_id) owner_changed _ h3 in
    let (x, hx, h5) =
      >>=-eq-ok (pair_key_for current.local_account_id current.peer_account_id) _ h4 in
    let (y, hy, h6) = >>=-eq-ok (pair_key_for k.local_account_id k.peer_account_id) _ h5 in
    let (same, h7) = ensure-eq-ok (str_eq x y) pair_changed _ h6 in
    let e = ok-injective h7 in
    record {
      positive = p;
      version = ap (λ (n : Record). n.version) (sym e) ∙ ground arith;
      fields = sym e ∙ ap (λ m. record r { version = m }) (ap (λ (n : Record). n.version) e);
    }

check_update-mismatch :
    (r : Record) (k : LinkKeys) (expected : ℕ) (current : Record)
    → leb 1 expected ≡ true
    → current.version ≡ expected + 1
    → check_update r k expected (some (object current)) ≡ throws (version_mismatch k.peer_link_id)
unfolding check_update normalize_version
check_update-mismatch r k expected current p v =
    let larger : (elim current.version [ zero ↦ 1 | suc n ↦ suc n ]) == expected ≡ false =
      ground arith in
    rw (p, larger) refl

module _ (kv : KeyValueStore) (law : IsLawful kv) where
  pub read-write :
      (k : LinkKeys) (r : Record) (s : kv.State)
      → str_eq k.pair k.link ≡ false
      → read kv k.link (write kv k r s) ≡ some (object r)
  unfolding write
  read-write k r s differ =
      read-set_ne kv law k.pair k.link _ _ differ ∙ read-set_self kv law k.link (object r) s

  pub update-check :
      (r : Record) (k : LinkKeys) (expected : ℕ) (s s' : kv.State) (next : Record)
      → keys_of r ≡ ok k
      → update kv r expected s ≡ ok (s', next)
      → (check_update r k expected (read kv k.link s) ≡ ok next) × (s' ≡ write kv k next s)
  unfolding update
  update-check r k expected s s' next hk h =
      let (k', hk', h1) = >>=-eq-ok (keys_of r) _ h in
      let (n, hn, h2) = >>=-eq-ok (check_update r k' expected (read kv k'.link s)) _ h1 in
      let e = ok-injective h2 in
      let same : k' ≡ k = ok-injective (sym hk' ∙ hk) in
      let named : n ≡ next = ap (λ (o : kv.State × Record). o.1) e in
      (
        subst (λ (x : LinkKeys). check_update r x expected (read kv x.link s) ≡ ok next) same
            (hn ∙ ap ok named),
        sym (ap (λ (o : kv.State × Record). o.0) e)
            ∙ ap (λ (x : LinkKeys). write kv x n s) same
            ∙ ap (λ m. write kv k m s) named,
      )

  -- What an update finds, when one with the same expected version has succeeded before.
  pub check_update_again :
      (r other : Record) (k l : LinkKeys) (expected : ℕ) (s s' : kv.State) (next : Record)
      → keys_of r ≡ ok k
      → l.link ≡ k.link
      → update kv r expected s ≡ ok (s', next)
      → check_update other l expected (read kv l.link s') ≡ throws (version_mismatch l.peer_link_id)
  check_update_again r other k l expected s s' next hk same h =
      let (checked, after) = update-check r k expected s s' next hk h in
      let n = check_update-IsNext r k expected (read kv k.link s) checked in
      let found : read kv l.link s' ≡ some (object next) =
        ap (λ x. read kv x s') same
        ∙ ap (read kv k.link) after
        ∙ read-write k next s (keys_of-apart r hk) in
      rw found (check_update-mismatch other l expected next n.positive n.version)

  -- After an update that succeeded, no other update of the same link succeeds with the same expected
  -- version: it is refused as a mismatch.
  pub update_again :
      (r other : Record) (k l : LinkKeys) (expected : ℕ) (s s' : kv.State) (next : Record)
      → keys_of r ≡ ok k
      → keys_of other ≡ ok l
      → l.link ≡ k.link
      → update kv r expected s ≡ ok (s', next)
      → update kv other expected s' ≡ throws (version_mismatch l.peer_link_id)
  unfolding update
  update_again r other k l expected s s' next hk hl same h =
      rw (hl, check_update_again r other k l expected s s' next hk same h) refl
