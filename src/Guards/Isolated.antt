-- ===== src/Guards/Isolated.antt =====
-- What a request of one user leaves of the merchants and the API keys of the others.
use orbit_stream_backend.Common.{
  ℕ, ◌==◌, ==_iff, ◌≡◌, refl, sym, ap, subst, ◌∙◌, inl, inr, ◌&&◌, ◌||◌, List, [], ◌∷◌, ◌++◌,
  Option, none, some, filter, find?, any, Result, ok, err, arith, Bool-cases,
}
use orbit_stream_backend.Store.{Session}
use orbit_stream_backend.Merchants.{
  admin, merchant, Merchant, ApiKey, AuditLogEntry, Directory, Outside, MerchantUpdate, log,
  has_merchant_id, has_wallet, find_by_wallet, apply_update, update, no_fields, takes_email,
  set_webhook,
}
use orbit_stream_backend.Merchants.ApiKeys.{
  has_key_id, deactivate_key, revoked, revoke_api_key, generate_api_key, new_key,
}
use orbit_stream_backend.Origins.{CacheCall, Platform, invalidated, set_cors_origins}
use orbit_stream_backend.Guards.{
  Refusal, GuardRequest, api_key, field_of, resolve_owner_id, ownership_guard, roles_guard,
}
use orbit_stream_backend.Guards.Access.{Owns, ownership_guard_iff}
use orbit_stream_backend.Guards.JwtStrategy.{User}
use orbit_stream_backend.Guards.RevokeRoute.{revoke_handler, then_next, revoke_route}
use orbit_stream_backend.Guards.Kept.{
  is_other, AreKept, OnlyLogs, OnlyLogs-AreKept, AreKept-trans, log-OnlyLogs, roles_guard-OnlyLogs,
  ownership_guard-OnlyLogs, update-AreKept, AreKeys, deactivated_others,
}
use orbit_stream_backend.Guards.MerchantRoutes.{
  MerchantRequest, get_profile, list_keys, get_origins, update_profile, generate_key, revoke_key,
  put_webhook, put_origins, roles_of, as_reply, handle_own, handle_found, after_roles,
  merchant_route,
}

same : (own : Option ℕ) (d : Directory) → AreKept own d d
same own d = record { merchants = refl; api_keys = refl }

logged :
    (own : Option ℕ) (out : Outside) (e : AuditLogEntry) (d d' : Directory)
    → AreKept own d d'
    → AreKept own d (log out e d')
logged own out e d d' h =
    AreKept-trans own d d' (log out e d') h
      (OnlyLogs-AreKept own d' (log out e d') (log-OnlyLogs out e d'))

invalidated-AreKept :
    (own : Option ℕ) (c : CacheCall) (id : ℕ) (o : Option Merchant) (d : Directory) (p : Platform)
    → AreKept own p.directory d
    → AreKept own p.directory (invalidated c id o d p).1.directory
unfolding invalidated
invalidated-AreKept own c id none d p h = same own p.directory
invalidated-AreKept own c id (some m) d p h = h

appended_other :
    (m : ℕ) (ks : List ApiKey) (k : ApiKey)
    → k.merchant_id ≡ m
    → filter (λ a. is_other (some m) a.merchant_id) (ks ++ k ∷ [])
      ≡ filter (λ a. is_other (some m) a.merchant_id) ks
appended_other m [] k e = rw ((==_iff k.merchant_id m).1 e) refl
appended_other m (a ∷ ks) k e = elim (Bool-cases (a.merchant_id == m)) [
  | inl b ↦ rw b (appended_other m ks k e)
  | inr b ↦ rw b (ap (λ l. a ∷ l) (appended_other m ks k e))
]

updated : (m : ℕ) (u : MerchantUpdate) (d : Directory) → AreKept (some m) d (update m u d).1
unfolding update
updated m u d =
    elim (Bool-cases
      (no_fields u || (takes_email m u.email d.merchants && any (has_merchant_id m) d.merchants))) [
        | inl b ↦ rw b (same (some m) d)
        | inr b ↦ rw b (update-AreKept m (apply_update u) d (λ a. refl))
      ]

handle_own-AreKept :
    (out : Outside) (c : CacheCall) (request : MerchantRequest) (m : Merchant) (p : Platform)
    → AreKept (some m.id) p.directory (handle_own out c request m p).1.directory
unfolding handle_own update generate_api_key set_webhook set_cors_origins
handle_own-AreKept out c get_profile m p = same _ p.directory
handle_own-AreKept out c list_keys m p = same _ p.directory
handle_own-AreKept out c get_origins m p = same _ p.directory
handle_own-AreKept out c (update_profile u) m p = updated m.id u p.directory
handle_own-AreKept out c (generate_key environment) m p =
    logged (some m.id) out _ p.directory _ (record {
      merchants = refl;
      api_keys = appended_other m.id p.directory.api_keys (new_key out m.id environment) refl;
    })
handle_own-AreKept out c (revoke_key id) m p = same _ p.directory
handle_own-AreKept out c (put_webhook url) m p =
    logged (some m.id) out _ p.directory _ (update-AreKept m.id _ p.directory (λ a. refl))
handle_own-AreKept out c (put_origins os) m p =
    invalidated-AreKept (some m.id) c m.id _ _ p (update-AreKept m.id _ p.directory (λ a. refl))

-- The route of a guard and what follows, for what holds of the directory at the end.
then_next_lem :
    (P : Directory → Type 0) (r : Result Refusal (Unit {0}) × Directory)
    (next : Directory → Result Refusal (Unit {0}) × Directory)
    → P r.1
    → (r.0 ≡ ok tt → P (next r.1).1)
    → P (then_next r next).1
then_next_lem P (ok tt, d) next h k = k refl
then_next_lem P (err e, d) next h k = h

revoked-OnlyLogs :
    (out : Outside) (m id : ℕ) (o : Option ApiKey) (d : Directory)
    → OnlyLogs d (revoked out m id o d).1
revoked-OnlyLogs out m id none d = (refl, refl)
revoked-OnlyLogs out m id (some k) d = elim (Bool-cases (k.merchant_id == m)) [
  | inl b ↦ rw b (log-OnlyLogs out _ d)
  | inr b ↦ rw b (refl, refl)
]

-- The handler, once the owner of the key is the user's merchant.
revoke_handler-AreKept :
    (out : Outside) (o : Option Merchant) (own id : ℕ) (k : ApiKey) (d : Directory)
    → AreKeys d.api_keys
    → find? (has_key_id id) d.api_keys ≡ some k
    → k.merchant_id ≡ own
    → AreKept (some own) d (revoke_handler out o id d).1
unfolding revoke_api_key
revoke_handler-AreKept out none own id k d keys e mine = same (some own) d
revoke_handler-AreKept out (some m) own id k d keys e mine =
    AreKept-trans (some own) d (deactivate_key id d) _
      (record { merchants = refl; api_keys = deactivated_others id own d.api_keys k keys e mine })
      (OnlyLogs-AreKept (some own) (deactivate_key id d) _
        (revoked-OnlyLogs out m.id id (find? (has_key_id id) d.api_keys) (deactivate_key id d)))

owned_key :
    (o : Option ApiKey) (m : ℕ)
    → field_of (λ k. k.merchant_id) o ≡ some m
    → (k : ApiKey) × (o ≡ some k) × (k.merchant_id ≡ m)
owned_key none m e = absurd (ground (arith, e))
owned_key (some k) m e = (k, refl, ground (arith, e))

after_guards :
    (out : Outside) (o : Option Merchant) (own : Option ℕ) (id : ℕ) (sessions : List Session)
    (d d1 d2 : Directory)
    → OnlyLogs d d1
    → OnlyLogs d1 d2
    → AreKeys d.api_keys
    → Owns api_key own (some id) sessions d1
    → AreKept own d (revoke_handler out o id d2).1
unfolding resolve_owner_id
after_guards out o own id sessions d d1 d2 k1 k2 keys (m, i, e, f, g) =
    let (k, found, mine) = owned_key (find? (has_key_id i) d1.api_keys) m g in
    let logs : OnlyLogs d d2 = (k2.0 ∙ k1.0, k2.1 ∙ k1.1) in
    let same_id : i ≡ id = ground (arith, f) in
    subst (λ w. AreKept w d (revoke_handler out o id d2).1) (sym e)
      (AreKept-trans (some m) d d2 _ (OnlyLogs-AreKept (some m) d d2 logs) (
        revoke_handler-AreKept out o m id k d2 (subst AreKeys (sym logs.1) keys)
          (ap (find? (has_key_id id)) k2.1
            ∙ subst (λ j. find? (has_key_id j) d1.api_keys ≡ some k) same_id found)
          mine))

revoke_route-AreKept :
    (out : Outside) (user : User) (req : GuardRequest) (id : ℕ) (sessions : List Session)
    (d : Directory)
    → AreKeys d.api_keys
    → AreKept user.merchant_id d (revoke_route out user req id sessions d).1
unfolding revoke_route
revoke_route-AreKept out user req id sessions d keys =
    let r = record req { merchant_id = user.merchant_id; resource_id = some id } in
    let g1 = roles_guard out (admin ∷ merchant ∷ []) r d in
    let g2 = ownership_guard out (some api_key) r sessions g1.1 in
    let k1 = roles_guard-OnlyLogs out (admin ∷ merchant ∷ []) r d in
    let k2 = ownership_guard-OnlyLogs out api_key r sessions g1.1 in
    let own = user.merchant_id in
    then_next_lem (AreKept own d) g1 _ (OnlyLogs-AreKept own d g1.1 k1) (λ _.
      then_next_lem (AreKept own d) g2 _
        (AreKept-trans own d g1.1 g2.1 (OnlyLogs-AreKept own d g1.1 k1)
          (OnlyLogs-AreKept own g1.1 g2.1 k2))
        (λ passed.
          after_guards out (find_by_wallet user.wallet_address g2.1) own id sessions d g1.1 g2.1 k1
            k2 keys ((ownership_guard_iff out api_key r sessions g1.1).0 passed)))

found_owner :
    (o : Option Merchant) (m : Merchant) (own : Option ℕ)
    → own ≡ field_of (λ a. a.id) o
    → o ≡ some m
    → own ≡ some m.id
found_owner o m own e f = e ∙ ap (field_of (λ (a : Merchant). a.id)) f

handle_found-AreKept :
    (out : Outside) (c : CacheCall) (request : MerchantRequest) (o : Option Merchant)
    (own : Option ℕ) (p : Platform)
    → own ≡ field_of (λ a. a.id) o
    → AreKept own p.directory (handle_found out c request o p).1.directory
handle_found-AreKept out c get_profile none own p e = same own p.directory
handle_found-AreKept out c list_keys none own p e = same own p.directory
handle_found-AreKept out c get_origins none own p e = same own p.directory
handle_found-AreKept out c (update_profile u) none own p e = same own p.directory
handle_found-AreKept out c (generate_key environment) none own p e = same own p.directory
handle_found-AreKept out c (revoke_key id) none own p e = same own p.directory
handle_found-AreKept out c (put_webhook url) none own p e = same own p.directory
handle_found-AreKept out c (put_origins os) none own p e = same own p.directory
handle_found-AreKept out c request (some m) own p e =
    subst (λ w. AreKept w p.directory (handle_own out c request m p).1.directory) (sym e)
      (handle_own-AreKept out c request m p)

after_roles-AreKept :
    (out : Outside) (c : CacheCall) (user : User) (request : MerchantRequest)
    (r : Result Refusal (Unit {0}) × Directory) (p : Platform)
    → OnlyLogs p.directory r.1
    → user.merchant_id ≡ field_of (λ a. a.id) (find_by_wallet user.wallet_address p.directory)
    → AreKept user.merchant_id p.directory (after_roles out c user request r p).1.directory
unfolding find_by_wallet
after_roles-AreKept out c user request (err e, d) p logs own =
    OnlyLogs-AreKept user.merchant_id p.directory d logs
after_roles-AreKept out c user request (ok u, d) p logs own =
    AreKept-trans user.merchant_id p.directory d _
      (OnlyLogs-AreKept user.merchant_id p.directory d logs)
      (handle_found-AreKept out c request (find? (has_wallet user.wallet_address) d.merchants)
        user.merchant_id (record p { directory = d })
        (own
          ∙ ap (λ ms. field_of (λ (a : Merchant). a.id) (find? (has_wallet user.wallet_address) ms))
              (sym logs.0)))

by_roles :
    (out : Outside) (c : CacheCall) (user : User) (req : GuardRequest) (request : MerchantRequest)
    (p : Platform)
    → user.merchant_id ≡ field_of (λ a. a.id) (find_by_wallet user.wallet_address p.directory)
    → AreKept user.merchant_id p.directory
        (after_roles out c user request
          (roles_guard out
            (roles_of request)
            (record req { merchant_id = user.merchant_id })
            p.directory)
          p).1.directory
by_roles out c user req request p own =
    after_roles-AreKept out c user request _ p
      (roles_guard-OnlyLogs out (roles_of request) _ p.directory) own

as_reply_lem : (r : Result Refusal (Unit {0}) × Directory) → (as_reply r).1 ≡ r.1
as_reply_lem (ok u, d) = refl
as_reply_lem (err e, d) = refl

-- Whatever a user asks of the routes of its own merchant, and however the request ends, the merchants and
-- the API keys of all others are as before. The user has the merchant that its wallet has in the table,
-- and no two keys have one id.
pub merchant_route-AreKept :
    (out : Outside) (c : CacheCall) (user : User) (req : GuardRequest) (sessions : List Session)
    (request : MerchantRequest) (p : Platform)
    → user.merchant_id ≡ field_of (λ a. a.id) (find_by_wallet user.wallet_address p.directory)
    → AreKeys p.directory.api_keys
    → AreKept user.merchant_id p.directory
        (merchant_route out c user req sessions request p).1.directory
unfolding merchant_route
merchant_route-AreKept out c user req sessions (revoke_key id) p own keys =
    subst (AreKept user.merchant_id p.directory)
      (sym (as_reply_lem (revoke_route out user req id sessions p.directory)))
      (revoke_route-AreKept out user req id sessions p.directory keys)
merchant_route-AreKept out c user req sessions get_profile p own keys =
    by_roles out c user req get_profile p own
merchant_route-AreKept out c user req sessions list_keys p own keys =
    by_roles out c user req list_keys p own
merchant_route-AreKept out c user req sessions get_origins p own keys =
    by_roles out c user req get_origins p own
merchant_route-AreKept out c user req sessions (update_profile u) p own keys =
    by_roles out c user req (update_profile u) p own
merchant_route-AreKept out c user req sessions (generate_key environment) p own keys =
    by_roles out c user req (generate_key environment) p own
merchant_route-AreKept out c user req sessions (put_webhook url) p own keys =
    by_roles out c user req (put_webhook url) p own
merchant_route-AreKept out c user req sessions (put_origins os) p own keys =
    by_roles out c user req (put_origins os) p own
