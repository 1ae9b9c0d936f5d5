-- ===== src/Guards/Kept.antt =====
-- What the guards of src/auth and the updates of one merchant leave of the merchants and the API keys of the others.
use orbit_stream_backend.Common.{
  ℕ, ◌==◌, ==_iff, ◌≡◌, refl, sym, ap, ◌∙◌, inl, inr, Bool, true, false, not, ◌||◌, List, [], ◌∷◌,
  Option, none, some, if◌then◌else◌, map, filter, find?, any, arith, Bool-cases,
}
use orbit_stream_backend.Store.{Session}
use orbit_stream_backend.Merchants.{
  Role, admin, Merchant, ApiKey, AuditLogEntry, Directory, Outside, log, has_merchant_id,
  update_merchant,
}
use orbit_stream_backend.Merchants.ApiKeys.{has_key_id, deactivate}
use orbit_stream_backend.Guards.{
  GuardRequest, ResourceType, resolve_owner_id, check_owner, check_ids, ownership_guard, same_role,
  check_role, check_member, roles_guard,
}

-- Not the user's own merchant; a user without one has none of its own.
abbrev pub is_other : Option ℕ → ℕ → Bool
is_other none id = true
is_other (some m) id = not (id == m)

-- The merchants and the keys of the others are as before.
pub record AreKept (own : Option ℕ) (d d' : Directory) : Type 0 where
  pub merchants :
      filter (λ m. is_other own m.id) d'.merchants ≡ filter (λ m. is_other own m.id) d.merchants
  pub api_keys :
      filter (λ k. is_other own k.merchant_id) d'.api_keys
      ≡ filter (λ k. is_other own k.merchant_id) d.api_keys

-- Only the audit log may differ.
abbrev pub OnlyLogs : Directory → Directory → Type 0
OnlyLogs d d' = (d'.merchants ≡ d.merchants) × (d'.api_keys ≡ d.api_keys)

pub OnlyLogs-AreKept : (own : Option ℕ) (d d' : Directory) → OnlyLogs d d' → AreKept own d d'
OnlyLogs-AreKept own d d' (ms, ks) = record {
  merchants = ap (filter (λ m. is_other own m.id)) ms;
  api_keys = ap (filter (λ k. is_other own k.merchant_id)) ks;
}

pub AreKept-trans :
    (own : Option ℕ) (d d1 d2 : Directory) → AreKept own d d1 → AreKept own d1 d2 → AreKept own d d2
AreKept-trans own d d1 d2 a b = record {
  merchants = b.merchants ∙ a.merchants;
  api_keys = b.api_keys ∙ a.api_keys;
}

pub log-OnlyLogs : (out : Outside) (e : AuditLogEntry) (d : Directory) → OnlyLogs d (log out e d)
unfolding log
log-OnlyLogs out e d = elim (Bool-cases out.audit_fails) [
  | inl b ↦ rw b (refl, refl)
  | inr b ↦ rw b (refl, refl)
]

check_role-OnlyLogs :
    (out : Outside) (roles : List Role) (req : GuardRequest) (o : Option Merchant) (d : Directory)
    → OnlyLogs d (check_role out roles req o d).1
check_role-OnlyLogs out roles req none d = (refl, refl)
check_role-OnlyLogs out roles req (some m) d =
    elim (Bool-cases (same_role m.role admin || any (same_role m.role) roles)) [
      | inl b ↦ rw b (refl, refl)
      | inr b ↦ rw b (log-OnlyLogs out _ d)
    ]

check_member-OnlyLogs :
    (out : Outside) (roles : List Role) (req : GuardRequest) (o : Option ℕ) (d : Directory)
    → OnlyLogs d (check_member out roles req o d).1
check_member-OnlyLogs out roles req none d = (refl, refl)
check_member-OnlyLogs out roles req (some id) d =
    check_role-OnlyLogs out roles req (find? (has_merchant_id id) d.merchants) d

pub roles_guard-OnlyLogs :
    (out : Outside) (roles : List Role) (req : GuardRequest) (d : Directory)
    → OnlyLogs d (roles_guard out roles req d).1
unfolding roles_guard
roles_guard-OnlyLogs out [] req d = (refl, refl)
roles_guard-OnlyLogs out (r ∷ rs) req d = check_member-OnlyLogs out (r ∷ rs) req req.merchant_id d

check_owner-OnlyLogs :
    (out : Outside) (type : ResourceType) (req : GuardRequest) (m id : ℕ) (o : Option ℕ)
    (d : Directory)
    → OnlyLogs d (check_owner out type req m id o d).1
check_owner-OnlyLogs out type req m id none d = log-OnlyLogs out _ d
check_owner-OnlyLogs out type req m id (some owner) d = elim (Bool-cases (owner == m)) [
  | inl b ↦ rw b (refl, refl)
  | inr b ↦ rw b (log-OnlyLogs out _ d)
]

check_ids-OnlyLogs :
    (out : Outside) (type : ResourceType) (req : GuardRequest) (mo io : Option ℕ)
    (sessions : List Session) (d : Directory)
    → OnlyLogs d (check_ids out type req mo io sessions d).1
check_ids-OnlyLogs out type req none io sessions d = (refl, refl)
check_ids-OnlyLogs out type req (some m) none sessions d = (refl, refl)
check_ids-OnlyLogs out type req (some m) (some id) sessions d =
    check_owner-OnlyLogs out type req m id (resolve_owner_id type id d sessions) d

pub ownership_guard-OnlyLogs :
    (out : Outside) (type : ResourceType) (req : GuardRequest) (sessions : List Session)
    (d : Directory)
    → OnlyLogs d (ownership_guard out (some type) req sessions d).1
unfolding ownership_guard
ownership_guard-OnlyLogs out type req sessions d =
    check_ids-OnlyLogs out type req req.merchant_id req.resource_id sessions d

-- An update of the row with the id m leaves the others.
updated_others :
    (m : ℕ) (f : Merchant → Merchant) (ms : List Merchant)
    → ((a : Merchant) → (f a).id ≡ a.id)
    → filter (λ a. is_other (some m) a.id) (map (λ a. if has_merchant_id m a then f a else a) ms)
      ≡ filter (λ a. is_other (some m) a.id) ms
updated_others m f [] keeps = refl
updated_others m f (a ∷ ms) keeps = elim (Bool-cases (a.id == m)) [
  | inl b ↦ rw (b, keeps a, b) (updated_others m f ms keeps)
  | inr b ↦ rw (b, b) (ap (λ l. a ∷ l) (updated_others m f ms keeps))
]

pub update-AreKept :
    (m : ℕ) (f : Merchant → Merchant) (d : Directory)
    → ((a : Merchant) → (f a).id ≡ a.id)
    → AreKept (some m) d (update_merchant m f d)
update-AreKept m f d keeps = record {
  merchants = updated_others m f d.merchants keeps;
  api_keys = refl;
}

-- No two keys have one id.
abbrev pub AreKeys : List ApiKey → Type 0
AreKeys [] = Unit
AreKeys (k ∷ ks) = (any (has_key_id k.id) ks ≡ false) × AreKeys ks

untouched :
    (id : ℕ) (ks : List ApiKey)
    → any (has_key_id id) ks ≡ false
    → map (λ k. if has_key_id id k then deactivate k else k) ks ≡ ks
untouched id [] h = refl
untouched id (k ∷ ks) h = elim (Bool-cases (has_key_id id k)) [
  | inl b ↦ ground (arith, b, h)
  | inr b ↦ rw b (ap (λ l. k ∷ l) (untouched id ks (rw b at h)))
]

-- Deactivating a key of the merchant leaves the keys of the others.
pub deactivated_others :
    (id m : ℕ) (ks : List ApiKey) (k : ApiKey)
    → AreKeys ks
    → find? (has_key_id id) ks ≡ some k
    → k.merchant_id ≡ m
    → filter
        (λ a. is_other (some m) a.merchant_id)
        (map (λ a. if has_key_id id a then deactivate a else a) ks)
      ≡ filter (λ a. is_other (some m) a.merchant_id) ks
deactivated_others id m [] k keys e own = refl
deactivated_others id m (a ∷ ks) k (new, keys) e own = elim (Bool-cases (has_key_id id a)) [
  | inl b ↦
      let same : a ≡ k = ground (arith, (rw b at e)) in
      let mine : (a.merchant_id == m) ≡ true =
        (==_iff a.merchant_id m).1 (ap (λ (x : ApiKey). x.merchant_id) same ∙ own) in
      rw (b, mine)
        (ap (filter (λ x. is_other (some m) x.merchant_id))
          (untouched id ks (sym (ap (λ i. any (has_key_id i) ks) ((==_iff a.id id).0 b)) ∙ new)))
  | inr b ↦
      let rest = deactivated_others id m ks k keys (rw b at e) own in
      rw b (elim (Bool-cases (a.merchant_id == m)) [
        | inl c ↦ rw c rest
        | inr c ↦ rw c (ap (λ l. a ∷ l) rest)
      ])
]
