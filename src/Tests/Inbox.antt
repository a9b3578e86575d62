-- ===== src/Tests/Inbox.antt =====
-- Claims of inboxes, and a store of them.
use rez_sdk.Common.{ℕ, ◌+◌, ◌≡◌, refl, true, false, none, some, List, [], ◌∷◌, String, str_eq}
use rez_sdk.Common.Text.{trim}
use rez_sdk.Common.Value.{Number, Value, undefined, text, number, trimmed, to_number}
use rez_sdk.Common.Dict.{lookup, insert, erase}
use rez_sdk.Inbox.Claim.{
  Capability, IsFaithful, RawClaim, Claim, live, read_retention, lease_of, read_lease,
  read_close_keys, read_root_cap, assemble, normalize_stored, row_of,
}
use rez_sdk.Inbox.Store.{
  err, generation_conflict, accepted, landed_and_refused, Minted, Store, rows, persist_all, load,
  hydrate, commit, persist_claim, persist_read, persist, accept_lease, accept_found,
  record_accepted_lease, next_generation, remint_claim, remint_found, remint_generation,
  final_generation_of,
}
use rez_sdk.Inbox.Store.Atomicity.{IsAtomic, store_IsAtomic}
use rez_sdk.Inbox.Store.Remint.{remint_generation_once}
use rez_sdk.Inbox.Store.Keeping.{IsMinted}
use rez_sdk.Inbox.Store.Restart.{
  StoreOp, persist_op, lease_op, perform, perform_all, start, perform_durable,
}

-- Capabilities that are their own JSON.
abbrev caps : Capability
caps = record { Cap = ℕ; Json = ℕ; of_json = λ j. j; to_json = λ c. c }

abbrev caps-IsFaithful : IsFaithful caps
caps-IsFaithful = record { of-to = λ c. refl }

program : Unit {0}
unfolding trim trimmed to_number lookup insert erase read_retention lease_of read_lease
    read_close_keys read_root_cap assemble normalize_stored row_of rows persist_all load hydrate
    commit persist_claim persist_read persist accept_lease accept_found record_accepted_lease
    next_generation remint_claim remint_found remint_generation perform perform_all
program = tt

abbrev raw : RawClaim caps
raw = record {
  inbox_id = text " inbox-1 ";
  claimant_public_key_b64 = text "pub";
  claimant_private_key_b64 = text "priv";
  claimed_at_ms = number (Number.integer 1000);
  claim_signature_b64 = text "sig";
  root_cap = live 7;
  close_public_key_b64 = text "close-pub";
  close_private_key_b64 = text "close-priv";
  generation = number (Number.integer 3);
  lease = none;
}

abbrev claim : Claim caps
claim = record {
  inbox_id = "inbox-1";
  claimant_public_key_b64 = "pub";
  claimant_private_key_b64 = "priv";
  claimed_at_ms = Number.integer 1000;
  claim_signature_b64 = "sig";
  root_cap = 7;
  close_keys = some (record {
    close_public_key_b64 = "close-pub";
    close_private_key_b64 = "close-priv";
    generation = 3;
  });
  lease = none;
}

normalized : normalize_stored caps raw ≡ some claim
unfolding program
normalized = refl

-- Close keys without a generation make the record corrupt.
no_generation : normalize_stored caps (record raw { generation = undefined }) ≡ none
unfolding program
no_generation = refl

abbrev minted : Minted
minted = record {
  close_public_key_b64 = "close-pub-4";
  close_private_key_b64 = "close-priv-4";
  claim_signature_b64 = "sig-4";
  claimed_at_ms = Number.integer 2000;
}

minted-IsMinted : IsMinted minted
unfolding trim
minted-IsMinted = record {
  close_public = record { trim_same = refl; solid = refl };
  close_private = record { trim_same = refl; solid = refl };
  signature = record { trim_same = refl; solid = refl };
  claimed = (refl, refl);
}

abbrev earlier : List (StoreOp caps)
earlier =
    persist_op accepted raw
    ∷ persist_op landed_and_refused (record raw { inbox_id = text "inbox-2" })
    ∷ []

abbrev renew : StoreOp caps
renew =
    lease_op accepted (text "inbox-1") (number (Number.integer 1000)) (number (Number.integer 5000))
      undefined

perform_durable_example :
    let t = (perform caps renew (perform_all caps earlier (start caps []))).0 in
    (start caps t.stored).claims ≡ t.claims
unfolding program
perform_durable_example =
    perform_durable caps caps-IsFaithful [] earlier renew (tt, (tt, tt)) tt refl

abbrev one_claim : Store caps
one_claim = record {
  claims = ("inbox-1", claim) ∷ [];
  hydrated = true;
  stored = row_of caps claim ∷ [];
}

store_IsAtomic_example :
    ((r : RawClaim caps) → IsAtomic caps one_claim (persist caps landed_and_refused r one_claim))
    × ((id issued expires retention : Value)
        → IsAtomic caps one_claim
            (record_accepted_lease caps landed_and_refused id issued expires retention one_claim))
    × ((id final : Value) (m : Minted)
        → IsAtomic caps one_claim (remint_generation caps landed_and_refused id final m one_claim))
store_IsAtomic_example = store_IsAtomic caps landed_and_refused one_claim

abbrev third : Value
third = number (Number.integer 3)

remint_generation_once_example :
    let t = (remint_generation caps accepted (text "inbox-1") third minted one_claim).0 in
    (final_generation_of third ≡ some 3)
    × (4 ≡ 3 + 1)
    × ((c : Claim caps) × (lookup (trimmed (text "inbox-1")) one_claim.claims ≡ some c)
        × (lookup (trimmed (text "inbox-1")) t.claims ≡ some (next_generation caps 4 minted c)))
    × ((j : String)
        → str_eq (trimmed (text "inbox-1")) j ≡ false
        → lookup j t.claims ≡ lookup j one_claim.claims)
    × ((remint_generation caps accepted (text "inbox-1") third minted t).1
        ≡ err generation_conflict)
unfolding program
remint_generation_once_example =
    remint_generation_once caps accepted accepted (text "inbox-1") third minted minted one_claim
      (record { inbox_id = "inbox-1"; from_generation = 3; to_generation = 4 }) refl
