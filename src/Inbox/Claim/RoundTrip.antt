-- ===== src/Inbox/Claim/RoundTrip.antt =====
-- A claim survives storage: what is written for a well-formed claim is read back as that claim.
use rez_sdk.Common.{
  ℕ, zero, suc, ◌≡◌, refl, subst, ◌≤◌, true, false, not, ◌&&◌, ◌||◌, Option, none, some, String,
  some_eq, if-some-injective, if-none-some, arith, inl, inr, Bool-cases,
}
use rez_sdk.Common.Text.{is_empty, trim}
use rez_sdk.Common.Value.{
  Number, Value, text, trimmed, trimmed-trimmed, is_finite, is_positive, to_number,
}
use rez_sdk.Inbox.Claim.{
  Capability, IsFaithful, RetentionClass, transient, standard, retention_text, read_retention,
  Lease, RawLease, CloseKeys, is_window, lease_of, read_lease, positive_integer, RawClaim, Claim,
  read_root_cap, read_close_keys, assemble, normalize_stored, row_lease, row_public, row_private,
  row_generation, row_of,
}

-- A text that is no blank and has no white space around it.
pub record IsTrimmed (s : String) : Type 0 where
  pub trim_same : trim s ≡ s
  pub solid : is_empty s ≡ false

abbrev pub IsNormalKeys : Option CloseKeys → Type 0
IsNormalKeys none = Unit
IsNormalKeys (some c) =
    IsTrimmed c.close_public_key_b64 × IsTrimmed c.close_private_key_b64 × (1 ≤ c.generation)

abbrev pub IsNormalLease : Option Lease → Type 0
IsNormalLease none = Unit
IsNormalLease (some l) = is_window l.issued_at_ms l.expires_at_ms ≡ true

abbrev pub IsTime : Number → Type 0
IsTime n = (is_finite n ≡ true) × (is_positive n ≡ true)

module _ (k : Capability) where
  pub record IsNormal (c : Claim k) : Type 0 where
    pub inbox_id : IsTrimmed c.inbox_id
    pub claimant_public : IsTrimmed c.claimant_public_key_b64
    pub claimant_private : IsTrimmed c.claimant_private_key_b64
    pub signature : IsTrimmed c.claim_signature_b64
    pub claimed : IsTime c.claimed_at_ms
    pub keys : IsNormalKeys c.close_keys
    pub leased : IsNormalLease c.lease

read_retention_text : (c : RetentionClass) → read_retention (text (retention_text c)) ≡ some c
unfolding read_retention
read_retention_text transient = refl
read_retention_text standard = refl

read_lease-row_lease : (l : Option Lease) → IsNormalLease l → read_lease (row_lease l) ≡ l
unfolding read_lease to_number lease_of
read_lease-row_lease none h = refl
read_lease-row_lease (some l) h = rw (read_retention_text, h) refl

positive_integer_pos : (n : ℕ) → 1 ≤ n → positive_integer (Number.integer n) ≡ some n
positive_integer_pos zero h = absurd (omega arith)
positive_integer_pos (suc n) h = refl

read_close_keys-row :
    (o : Option CloseKeys)
    → IsNormalKeys o
    → read_close_keys
        (trimmed (row_public o))
        (trimmed (row_private o))
        (positive_integer (to_number (row_generation o)))
      ≡ some o
unfolding read_close_keys to_number trimmed
read_close_keys-row none h = refl
read_close_keys-row (some c) (p, q, g) =
    rw (p.trim_same, q.trim_same, positive_integer_pos c.generation g, p.solid, q.solid) refl

trimmed-IsTrimmed : (v : Value) → is_empty (trimmed v) ≡ false → IsTrimmed (trimmed v)
trimmed-IsTrimmed v e = record { trim_same = trim_of_trimmed v; solid = e }
  where
    trim_of_trimmed : (v : Value) → trim (trimmed v) ≡ trimmed v
    trim_of_trimmed v = unfold trimmed in trimmed-trimmed v

lease_of-IsNormalLease : (i e : Number) (o : Option RetentionClass) → IsNormalLease (lease_of i e o)
unfolding lease_of
lease_of-IsNormalLease i e none = tt
lease_of-IsNormalLease i e (some c) = elim (Bool-cases (is_window i e)) [
  | inl h ↦ rw h h
  | inr h ↦ rw h tt
]

read_lease-IsNormalLease : (l : Option RawLease) → IsNormalLease (read_lease l)
unfolding read_lease
read_lease-IsNormalLease none = tt
read_lease-IsNormalLease (some r) = lease_of-IsNormalLease _ _ _

positive_integer-pos : (n : Number) {g : ℕ} → positive_integer n ≡ some g → 1 ≤ g
positive_integer-pos (Number.integer (suc n)) e = ground arith
positive_integer-pos _ e = cc

none_empty :
    (s t u v : String)
    → (is_empty s || is_empty t || is_empty u || is_empty v) ≡ false
    → (is_empty s ≡ false) × (is_empty t ≡ false) × (is_empty u ≡ false) × (is_empty v ≡ false)
none_empty s t u v h = ground arith

both_times : (n : Number) → (not (is_finite n) || not (is_positive n)) ≡ false → IsTime n
both_times n h = ground arith

both_solid :
    (s t : String)
    → (not (is_empty s) && not (is_empty t)) ≡ true
    → (is_empty s ≡ false) × (is_empty t ≡ false)
both_solid s t h = ground arith

read_close_keys-IsNormalKeys :
    (v w : Value) (g : Option ℕ) {o : Option CloseKeys}
    → ((n : ℕ) → g ≡ some n → 1 ≤ n)
    → read_close_keys (trimmed v) (trimmed w) g ≡ some o
    → IsNormalKeys o
unfolding read_close_keys
read_close_keys-IsNormalKeys v w none p e =
    subst IsNormalKeys (some_eq (if-none-some _ (some none) e).1) tt
read_close_keys-IsNormalKeys v w (some g) p e =
    let (solid, same) =
      if-some-injective (not (is_empty (trimmed v)) && not (is_empty (trimmed w))) e in
    let (a, b) = both_solid (trimmed v) (trimmed w) solid in
    subst IsNormalKeys same (trimmed-IsTrimmed v a, trimmed-IsTrimmed w b, p g refl)

module _ (k : Capability) (faithful : IsFaithful k) where
  -- A well-formed claim is read back from its row unchanged, if its capability is read back from its
  -- JSON.
  pub normalize_stored-row_of :
      (c : Claim k) → IsNormal k c → normalize_stored k (row_of k c) ≡ some c
  unfolding normalize_stored row_of trimmed to_number assemble read_root_cap
  normalize_stored-row_of c h = simp (
    h.inbox_id.trim_same,
    h.inbox_id.solid,
    h.claimant_public.trim_same,
    h.claimant_public.solid,
    h.claimant_private.trim_same,
    h.claimant_private.solid,
    h.signature.trim_same,
    h.signature.solid,
    h.claimed.0,
    h.claimed.1,
    read_close_keys-row c.close_keys h.keys,
    read_lease-row_lease c.lease h.leased,
    faithful.of-to,
  )

module _ (k : Capability) where
  assemble-IsNormal :
      (r : RawClaim k) (cap : Option k.Cap) (keys : Option (Option CloseKeys)) (c : Claim k)
      → IsTrimmed (trimmed r.inbox_id)
      → IsTrimmed (trimmed r.claimant_public_key_b64)
      → IsTrimmed (trimmed r.claimant_private_key_b64)
      → IsTrimmed (trimmed r.claim_signature_b64)
      → IsTime (to_number r.claimed_at_ms)
      → ((o : Option CloseKeys) → keys ≡ some o → IsNormalKeys o)
      → assemble k r cap keys ≡ some c
      → IsNormal k c
  unfolding assemble
  assemble-IsNormal r (some root) (some keys) c id public private signature time close e =
      subst (IsNormal k) (some_eq e) (record {
        inbox_id = id;
        claimant_public = public;
        claimant_private = private;
        signature = signature;
        claimed = time;
        keys = close keys refl;
        leased = read_lease-IsNormalLease r.lease;
      })
  assemble-IsNormal r none (some keys) c id public private signature time close e = cc
  assemble-IsNormal r (some _) none c id public private signature time close e = cc
  assemble-IsNormal r none none c id public private signature time close e = cc

  -- What is read from storage or from a caller is well-formed.
  pub normalize_stored-IsNormal :
      (r : RawClaim k) (c : Claim k) → normalize_stored k r ≡ some c → IsNormal k c
  unfolding normalize_stored
  normalize_stored-IsNormal r c e =
      let (texts, e1) = if-none-some _ _ e in
      let (times, e2) = if-none-some _ _ e1 in
      let (id, public, private, signature) =
        none_empty (trimmed r.inbox_id) (trimmed r.claimant_public_key_b64)
          (trimmed r.claimant_private_key_b64) (trimmed r.claim_signature_b64) texts in
      assemble-IsNormal r _ _ c (trimmed-IsTrimmed r.inbox_id id)
        (trimmed-IsTrimmed r.claimant_public_key_b64 public)
        (trimmed-IsTrimmed r.claimant_private_key_b64 private)
        (trimmed-IsTrimmed r.claim_signature_b64 signature)
        (both_times (to_number r.claimed_at_ms) times)
        (λ o f.
          read_close_keys-IsNormalKeys r.close_public_key_b64 r.close_private_key_b64 _
            (λ n g. positive_integer-pos (to_number r.generation) g) f)
        e2
