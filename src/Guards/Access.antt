-- ===== src/Guards/Access.antt =====
-- Who passes the guards of src/auth, and what the route that revokes an API key can change.
use orbit_stream_backend.Common.{
  ℕ, ◌==◌, ==_iff, ◌≡◌, ◌≢◌, ◌↔◌, refl, sym, ap, subst, ◌∙◌, inl, inr, ◌||◌, List, [], ◌∷◌, Option,
  none, some, find?, any, Result, ok, err, arith, Bool-cases,
}
use orbit_stream_backend.Store.{Session}
use orbit_stream_backend.Merchants.{
  Role, admin, merchant, Merchant, ApiKey, AuditLogEntry, Directory, Outside, log, has_merchant_id,
}
use orbit_stream_backend.Merchants.ApiKeys.{has_key_id}
use orbit_stream_backend.Guards.{
  Refusal, GuardRequest, ResourceType, api_key, resolve_owner_id, field_of, check_owner, check_ids,
  ownership_guard, same_role, check_role, check_member, roles_guard,
}
use orbit_stream_backend.Guards.RevokeRoute.{then_next, revoke_route}
use orbit_stream_backend.Guards.JwtStrategy.{User}

-- The merchant owns the resource.
abbrev pub Owns : ResourceType → Option ℕ → Option ℕ → List Session → Directory → Type 0
Owns type merchant_id resource_id sessions d =
    (m : ℕ) × (id : ℕ) × (merchant_id ≡ some m)
    × (resource_id ≡ some id)
    × (resolve_owner_id type id d sessions ≡ some m)

check_owner_iff :
    (out : Outside) (type : ResourceType) (req : GuardRequest) (m id : ℕ) (o : Option ℕ)
    (d : Directory)
    → ((check_owner out type req m id o d).0 ≡ ok tt) ↔ (o ≡ some m)
check_owner_iff out type req m id none d = ground arith
check_owner_iff out type req m id (some owner) d = ground arith

check_ids_iff :
    (out : Outside) (type : ResourceType) (req : GuardRequest) (mo io : Option ℕ)
    (sessions : List Session) (d : Directory)
    → ((check_ids out type req mo io sessions d).0 ≡ ok tt) ↔ Owns type mo io sessions d
check_ids_iff out type req none io sessions d =
    (λ e. absurd (ground (arith, e)), λ (m, id, e, f, g). absurd (ground (arith, e)))
check_ids_iff out type req (some n) none sessions d =
    (λ e. absurd (ground (arith, e)), λ (m, id, e, f, g). absurd (ground (arith, f)))
check_ids_iff out type req (some n) (some i) sessions d =
    let (to, from) = check_owner_iff out type req n i (resolve_owner_id type i d sessions) d in
    (
      λ e. (n, i, refl, refl, to e),
      λ (m, id, e, f, g). from (
          subst (λ k. resolve_owner_id type i d sessions ≡ some k) (ground (arith, e))
            (subst (λ k. resolve_owner_id type k d sessions ≡ some m) (ground (arith, f)) g)),
    )

-- The guard lets a request through exactly if its merchant owns the resource that it names.
pub ownership_guard_iff :
    (out : Outside) (type : ResourceType) (req : GuardRequest) (sessions : List Session)
    (d : Directory)
    → ((ownership_guard out (some type) req sessions d).0 ≡ ok tt)
      ↔ Owns type req.merchant_id req.resource_id sessions d
unfolding ownership_guard
ownership_guard_iff out type req sessions d =
    check_ids_iff out type req req.merchant_id req.resource_id sessions d

log_api_keys :
    (out : Outside) (e : AuditLogEntry) (d : Directory) → (log out e d).api_keys ≡ d.api_keys
unfolding log
log_api_keys out e d = elim (Bool-cases out.audit_fails) [ inl b ↦ rw b refl | inr b ↦ rw b refl ]

check_role_keys :
    (out : Outside) (roles : List Role) (req : GuardRequest) (o : Option Merchant) (d : Directory)
    → (check_role out roles req o d).1.api_keys ≡ d.api_keys
check_role_keys out roles req none d = refl
check_role_keys out roles req (some m) d =
    elim (Bool-cases (same_role m.role admin || any (same_role m.role) roles)) [
      | inl b ↦ rw b refl
      | inr b ↦ rw b (log_api_keys out _ d)
    ]

check_member_keys :
    (out : Outside) (roles : List Role) (req : GuardRequest) (o : Option ℕ) (d : Directory)
    → (check_member out roles req o d).1.api_keys ≡ d.api_keys
check_member_keys out roles req none d = refl
check_member_keys out roles req (some id) d =
    check_role_keys out roles req (find? (has_merchant_id id) d.merchants) d

roles_guard_keys :
    (out : Outside) (roles : List Role) (req : GuardRequest) (d : Directory)
    → (roles_guard out roles req d).1.api_keys ≡ d.api_keys
unfolding roles_guard
roles_guard_keys out [] req d = refl
roles_guard_keys out (r ∷ rs) req d = check_member_keys out (r ∷ rs) req req.merchant_id d

-- The request is refused, and the table of the keys is as before.
abbrev pub Refused : Result Refusal (Unit {0}) × Directory → Directory → Type 0
Refused r d = (r.0 ≢ ok tt) × (r.1.api_keys ≡ d.api_keys)

foreign_owner :
    (out : Outside) (type : ResourceType) (req : GuardRequest) (m id : ℕ) (o : Option ℕ)
    (d : Directory)
    → o ≢ some m
    → Refused (check_owner out type req m id o d) d
foreign_owner out type req m id none d h = (ground arith, log_api_keys out _ d)
foreign_owner out type req m id (some owner) d h = elim (Bool-cases (owner == m)) [
  | inl b ↦ absurd (h (ap some ((==_iff owner m).0 b)))
  | inr b ↦ rw b (ground arith, log_api_keys out _ d)
]

foreign_ids :
    (out : Outside) (req : GuardRequest) (mo : Option ℕ) (id : ℕ) (sessions : List Session)
    (k : ApiKey) (d : Directory)
    → find? (has_key_id id) d.api_keys ≡ some k
    → mo ≢ some k.merchant_id
    → Refused (check_ids out api_key req mo (some id) sessions d) d
unfolding resolve_owner_id
foreign_ids out req none id sessions k d e h = (ground arith, refl)
foreign_ids out req (some m) id sessions k d e h =
    foreign_owner out api_key req m id _ d
      (λ same. h (sym (sym (ap (field_of (λ (a : ApiKey). a.merchant_id)) e) ∙ same)))

then_next-Refused :
    (r : Result Refusal (Unit {0}) × Directory)
    (next : Directory → Result Refusal (Unit {0}) × Directory) (d : Directory)
    → r.1.api_keys ≡ d.api_keys
    → (r.0 ≡ ok tt → Refused (next r.1) r.1)
    → Refused (then_next r next) d
then_next-Refused (ok tt, d') next d same h = (let (bad, keys) = h refl in (bad, keys ∙ same))
then_next-Refused (err e, d') next d same h = (ground arith, same)

-- A key is never revoked through the route for a user who is not of its merchant: the request is
-- refused, and the table of the keys is as before.
pub revoke_route-Refused :
    (out : Outside) (user : User) (req : GuardRequest) (key_id : ℕ) (sessions : List Session)
    (k : ApiKey) (d : Directory)
    → find? (has_key_id key_id) d.api_keys ≡ some k
    → user.merchant_id ≢ some k.merchant_id
    → Refused (revoke_route out user req key_id sessions d) d
unfolding revoke_route ownership_guard
revoke_route-Refused out user req key_id sessions k d e h =
    let r = record req { merchant_id = user.merchant_id; resource_id = some key_id } in
    let keys = roles_guard_keys out (admin ∷ merchant ∷ []) r d in
    then_next-Refused (roles_guard out (admin ∷ merchant ∷ []) r d) _ d keys (λ _.
      let d1 = (roles_guard out (admin ∷ merchant ∷ []) r d).1 in
      let (bad, kept) =
        foreign_ids out r user.merchant_id key_id sessions k d1
          (ap (find? (has_key_id key_id)) keys ∙ e) h in
      then_next-Refused (check_ids out api_key r user.merchant_id (some key_id) sessions d1) _ d1
        kept (λ good. absurd (bad good)))
