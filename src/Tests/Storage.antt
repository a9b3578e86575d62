-- ===== src/Tests/Storage.antt =====
-- Peer-link storage over an association list.
use rez_sdk.Common.{ℕ, ◌≡◌, refl, some, List, [], ◌∷◌, String, is_some, filter, map}
use package.text.Mathlib.Text.{starts_with}
use rez_sdk.Common.Text.{trim}
use rez_sdk.Common.Dict.{Dict, lookup, insert, erase, lookup-insert, lookup-erase}
use rez_sdk.PeerLink.Storage.Base.{
  Record, blank, Stored, object, text, array, KeyValueStore, IsLawful, ok, throws, version_mismatch,
  read,
}
use rez_sdk.PeerLink.Storage.Links as Links
use rez_sdk.PeerLink.Storage.Links.Versions.{update_again}
use rez_sdk.PeerLink.Storage.Links.Race.{IsRace, updates_interleaved}
use rez_sdk.PeerLink.Storage.Events as Events
use rez_sdk.PeerLink.Storage.Events.Pages.{collect, items}
use rez_sdk.PeerLink.Storage.Events.Following.{collect-items}

abbrev keys_with : String → Dict Stored → List String
keys_with prefix entries =
    filter (λ k. starts_with k prefix) (map (λ (e : String × Stored). e.0) entries)

abbrev pub host : KeyValueStore
host = record {
  State = Dict Stored;
  get = λ k entries. lookup k entries;
  set = λ k v entries. insert k v entries;
  delete = λ k entries. (erase k entries, is_some (lookup k entries));
  keys = λ prefix entries. keys_with prefix entries;
}

pub host-IsLawful : IsLawful host
host-IsLawful = record {
  get-set = λ k j v s. lookup-insert k j v s;
  get-delete = λ k j s. lookup-erase k j s;
  delete_found = λ k s. refl;
}

program : Unit {0}
unfolding trim lookup insert erase Links.create Links.update Links.keys_of Links.check_create
    Links.check_update Links.write Links.get_by_pair read Links.list_by_owner
program = tt

abbrev link : Record
link = record blank { peer_link_id = "pl1"; local_account_id = "alice"; peer_account_id = "bob" }

abbrev at_version : String → ℕ → Dict Stored
at_version status version =
    ("peer-link:records:alice::pl1", object (record link { status = status; version = version }))
    ∷ ("peer-link:pairs:alice::bob", text "pl1")
    ∷ []

created : Links.create host link [] ≡ ok (at_version "" 1, record link { version = 1 })
unfolding program
created = refl

found :
    Links.get_by_pair host " alice" "bob" (at_version "" 1)
    ≡ ok (some (object (record link { version = 1 })))
unfolding program
found = refl

abbrev keys : Links.LinkKeys
keys = record {
  link = "peer-link:records:alice::pl1";
  pair = "peer-link:pairs:alice::bob";
  peer_link_id = "pl1";
  local_account_id = "alice";
  peer_account_id = "bob";
}

abbrev accepted : Record
accepted = record link { status = "accepted" }

abbrev revoked : Record
revoked = record link { status = "revoked" }

update_again_example :
    Links.update host revoked 1 (at_version "accepted" 2) ≡ throws (version_mismatch "pl1")
unfolding program
update_again_example =
    update_again host host-IsLawful accepted revoked keys keys 1 (at_version "" 1)
      (at_version "accepted" 2) (record accepted { version = 2 }) refl refl refl refl

updates_interleaved_example :
    IsRace host host-IsLawful accepted revoked keys keys 1
      (record accepted { version = 2 })
      (record revoked { version = 2 })
      (at_version "" 1)
unfolding program
updates_interleaved_example =
    updates_interleaved host host-IsLawful accepted revoked keys keys 1 (at_version "" 1)
      (at_version "accepted" 2) (at_version "revoked" 2) (record accepted { version = 2 })
      (record revoked { version = 2 }) refl refl refl refl refl

abbrev event : String → String × Record
event id = (id, record blank { owner_account_id = "alice"; peer_link_id = "pl1"; event_id = id })

abbrev logged : Dict Stored
logged =
    ("peer-link:events:alice::e1", object (event "e1").1)
    ∷ ("peer-link:events:index:alice::pl1", array ("e1" ∷ "e2" ∷ "e3" ∷ []))
    ∷ ("peer-link:events:alice::e2", object (event "e2").1)
    ∷ ("peer-link:events:alice::e3", object (event "e3").1)
    ∷ []

abbrev append_all : List (String × Record) → Dict Stored → Dict Stored
append_all [] s = s
append_all (e ∷ es) s = elim (Events.append host e.1 s) [ ok x ↦ append_all es x.0 | throws _ ↦ s ]

abbrev events : List (String × Record)
events = event "e1" ∷ event "e2" ∷ event "e3" ∷ []

event_program : Unit {0}
unfolding program Events.append Events.record_key Events.index_key Events.list_by_peer_link_id
    collect
event_program = tt

appended : append_all events [] ≡ logged
unfolding event_program
appended = refl

collect-items_example : collect host "alice" "pl1" 2 logged 4 "" ≡ some (items events)
unfolding event_program
collect-items_example =
    collect-items host "alice" "pl1" 1 logged "peer-link:events:index:alice::pl1" events refl refl
      refl refl
      (
        record {
          key = "peer-link:events:alice::e1";
          keyed = refl;
          found = refl;
          named = refl;
          full = refl;
        },
        (
          record {
            key = "peer-link:events:alice::e2";
            keyed = refl;
            found = refl;
            named = refl;
            full = refl;
          },
          (
            record {
              key = "peer-link:events:alice::e3";
              keyed = refl;
              found = refl;
              named = refl;
              full = refl;
            },
            tt,
          ),
        ),
      )
      ((refl, (refl, tt)), ((refl, tt), (tt, tt)))
