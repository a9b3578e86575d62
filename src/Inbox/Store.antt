-- ===== src/Inbox/Store.antt =====
-- The store of claims and its operations (src/inbox/InboxClaimStore.js). An operation
-- runs to its end before the next begins; keys, signatures and times come as arguments.
pub mod Atomicity
pub mod Durability
pub mod Keeping
pub mod Restart
pub mod Remint
use rez_sdk.Common.{
  ℕ, zero, suc, ◌+◌, ◌≡◌, Bool, true, false, not, ◌&&◌, ◌||◌, Option, none, some, List, [], ◌∷◌,
  String, str_eq, is_some, if◌then◌else◌, ◌==◌, length, map,
}
use rez_sdk.Common.Text.{is_empty, trim}
use rez_sdk.Common.Value.{Number, Value, text, number, trimmed, to_number}
use rez_sdk.Common.Dict.{Dict, lookup, insert, erase}
use rez_sdk.Inbox.Claim.{
  Capability, RetentionClass, transient, Lease, CloseKeys, is_window, read_retention, RawClaim,
  Claim, normalize_stored, row_of, positive_integer,
}

-- The errors that the operations throw.
pub data Failure : Type 0 where
  not_hydrated no_claim invalid_claim invalid_lease_window unknown_retention_class : Failure
  not_remintable missing_final_generation generation_conflict write_refused : Failure

pub data Result (A : Type 0) : Type 0 where
  ok : A → Result A
  err : Failure → Result A

-- How the key-value store takes a write: it keeps the value; it refuses; or it keeps it and still
-- reports a failure.
pub data Write : Type 0 where
  accepted refused landed_and_refused : Write

-- The lease of a claim that is persisted again is kept, unless the new record has one.
abbrev pub or_lease : Option Lease → Option Lease → Option Lease
or_lease none other = other
or_lease (some l) other = some l

-- `Number.isInteger(v) && v >= 1`, with no conversion
abbrev pub final_generation_of : Value → Option ℕ
final_generation_of (number n) = positive_integer n
final_generation_of _ = none

-- The default of `retentionClass`
abbrev pub or_transient : Value → Value
or_transient Value.undefined = text "transient"
or_transient v = v

abbrev pub accepted_lease : Number → Number → RetentionClass → Lease
accepted_lease issued expires cls = record {
  issued_at_ms = issued;
  expires_at_ms = expires;
  retention_class = cls;
}

-- What a re-mint draws: the new close keys, the signature over the new claim, the time.
pub record Minted : Type 0 where
  pub close_public_key_b64 : String
  pub close_private_key_b64 : String
  pub claim_signature_b64 : String
  pub claimed_at_ms : Number

pub record Generations : Type 0 where
  pub inbox_id : String
  pub from_generation : ℕ
  pub to_generation : ℕ

module _ (k : Capability) where
  -- The claims in memory, by inbox; `stored` is what lies under the store's key.
  pub record Store : Type 0 where
    pub claims : Dict (Claim k)
    pub hydrated : Bool
    pub stored : List (RawClaim k)

  unfoldable pub rows : Dict (Claim k) → List (RawClaim k)
  rows [] = []
  rows ((_, c) ∷ m) = row_of k c ∷ rows m

  -- `#persistAll`
  unfoldable pub persist_all : Write → Store → Store × Result (Unit {0})
  persist_all accepted s = (record s { stored = rows s.claims }, ok tt)
  persist_all refused s = (s, err write_refused)
  persist_all landed_and_refused s = (record s { stored = rows s.claims }, err write_refused)

  abbrev pub load_one : Option (Claim k) → Dict (Claim k) → Dict (Claim k)
  load_one none m = m
  load_one (some c) m = insert c.inbox_id c m

  -- The loop of `hydrate`
  unfoldable pub load : Dict (Claim k) → List (RawClaim k) → Dict (Claim k)
  load m [] = m
  load m (r ∷ rs) = load (load_one (normalize_stored k r) m) rs

  unfoldable pub hydrate : Store → Store
  unfolding load
  hydrate s =
      if s.hydrated then s else record s { claims = load s.claims s.stored; hydrated = true }

  abbrev pub lease_at : Option (Claim k) → Option Lease
  lease_at none = none
  lease_at (some c) = c.lease

  -- What a failed write leaves of the claims.
  abbrev pub roll_back : String → Option (Claim k) → Dict (Claim k) → Dict (Claim k)
  roll_back id none m = erase id m
  roll_back id (some c) m = insert id c m

  -- The end of an operation that wrote to the entry `id`, where `existing` stood before.
  unfoldable pub commit :
      {A : Type 0} → String → Option (Claim k) → A → Store × Result (Unit {0}) → Store × Result A
  commit id existing a (s, ok _) = (s, ok a)
  commit id existing a (s, err f) = (record s { claims = roll_back id existing s.claims }, err f)

  -- `persist` for a record that was read.
  unfoldable pub persist_claim : Write → Claim k → Store → Store × Result (Claim k)
  persist_claim w c s =
      let existing = lookup c.inbox_id s.claims in
      let kept = record c { lease = or_lease c.lease (lease_at existing) } in
      commit c.inbox_id existing kept
        (persist_all w (record s { claims = insert c.inbox_id kept s.claims }))

  unfoldable pub persist_read : Write → Option (Claim k) → Store → Store × Result (Claim k)
  persist_read w none s = (s, err invalid_claim)
  persist_read w (some c) s = persist_claim w c s

  unfoldable pub persist : Write → RawClaim k → Store → Store × Result (Claim k)
  persist w r s =
      if not s.hydrated then (s, err not_hydrated) else persist_read w (normalize_stored k r) s

  -- `recordAcceptedLease` on the claim that was found, and the retention class that was read.
  unfoldable pub accept_lease :
      Write
      → String
      → Number
      → Number
      → Option RetentionClass
      → Claim k
      → Store
      → Store × Result Lease
  accept_lease w id issued expires none c s = (s, err unknown_retention_class)
  accept_lease w id issued expires (some cls) c s =
      let lease = accepted_lease issued expires cls in
      commit id (some c) lease
        (persist_all w (record s { claims = insert id (record c { lease = some lease }) s.claims }))

  unfoldable pub accept_found :
      Write → String → Number → Number → Value → Option (Claim k) → Store → Store × Result Lease
  accept_found w id issued expires retention none s = (s, err no_claim)
  accept_found w id issued expires retention (some c) s =
      if not (is_window issued expires)
      then (s, err invalid_lease_window)
      else accept_lease w id issued expires (read_retention retention) c s

  unfoldable pub record_accepted_lease :
      Write → Value → Value → Value → Value → Store → Store × Result Lease
  record_accepted_lease w inbox_id issued_at_ms expires_at_ms retention_class s =
      if not s.hydrated
      then (s, err not_hydrated)
      else accept_found w (trimmed inbox_id) (to_number issued_at_ms) (to_number expires_at_ms)
          (or_transient retention_class) (lookup (trimmed inbox_id) s.claims) s

  -- The claim of the next generation: the inbox and the claimant's keys stay, the close keys, the
  -- signature and the time are new, and the lease is dropped.
  unfoldable pub next_generation : ℕ → Minted → Claim k → Claim k
  next_generation generation m c = record c {
    close_keys = some (record {
      close_public_key_b64 = m.close_public_key_b64;
      close_private_key_b64 = m.close_private_key_b64;
      generation = generation;
    });
    claimed_at_ms = m.claimed_at_ms;
    claim_signature_b64 = m.claim_signature_b64;
    lease = none;
  }

  -- The checks of `remintGeneration` in their order, and the re-mint.
  unfoldable pub remint_claim :
      Write
      → String
      → Option ℕ
      → Minted
      → Claim k
      → Option CloseKeys
      → Store
      → Store × Result Generations
  remint_claim w id final m c none s = (s, err not_remintable)
  remint_claim w id none m c (some keys) s = (s, err missing_final_generation)
  remint_claim w id (some final) m c (some keys) s =
      if not (keys.generation == final)
      then (s, err generation_conflict)
      else commit id (some c)
          (record { inbox_id = id; from_generation = final; to_generation = final + 1 })
          (persist_all w
            (record s { claims = insert id (next_generation (final + 1) m c) s.claims }))

  unfoldable pub remint_found :
      Write → String → Option ℕ → Minted → Option (Claim k) → Store → Store × Result Generations
  remint_found w id final m none s = (s, err no_claim)
  remint_found w id final m (some c) s = remint_claim w id final m c c.close_keys s

  unfoldable pub remint_generation :
      Write → Value → Value → Minted → Store → Store × Result Generations
  remint_generation w inbox_id final_generation m s =
      if not s.hydrated
      then (s, err not_hydrated)
      else remint_found w (trimmed inbox_id) (final_generation_of final_generation) m
          (lookup (trimmed inbox_id) s.claims) s

  -- The readers, on a store that is hydrated (they throw before): `get`, `has`, `leaseState`, `size`.
  unfoldable pub get : Value → Store → Option (Claim k)
  get inbox_id s = if is_empty (trimmed inbox_id) then none else lookup (trimmed inbox_id) s.claims

  unfoldable pub has : Value → Store → Bool
  has inbox_id s =
      if is_empty (trimmed inbox_id) then false else is_some (lookup (trimmed inbox_id) s.claims)

  unfoldable pub lease_state : Value → Store → Option Lease
  lease_state inbox_id s =
      if is_empty (trimmed inbox_id) then none else lease_at (lookup (trimmed inbox_id) s.claims)

  unfoldable pub size : Store → ℕ
  size s = length s.claims
