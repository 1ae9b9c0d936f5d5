-- ===== src/RateLimit/Keyspace.antt =====
-- The counters of different rules and clients are kept apart.
use orbit_stream_backend.Common.{
  ◌≡◌, ◌≢◌, refl, ap, sym, ◌∙◌, Bool, true, false, [], ◌∷◌, ◌++◌, arith, All, if◌then◌else◌,
}
use orbit_stream_backend.Common.Text.{Text, codes, text_eq}
use orbit_stream_backend.RateLimit.Rules.{
  Rule, auth_rule, register_rule, create_rule, get_rule, default_rule, resolve_rule,
}

-- The key of the counter: `${rule.name}:${identity}`.
unfoldable pub keyspace : Rule → Text → Text
keyspace rule identity = rule.name ++ (b':' ∷ identity)

abbrev HasNoColon : Text → Type 0
HasNoColon = All (λ c. c ≢ b':')

colon_split :
    (a b x y : Text)
    → HasNoColon a
    → HasNoColon b
    → a ++ (b':' ∷ x) ≡ b ++ (b':' ∷ y)
    → (a ≡ b) × (x ≡ y)
colon_split [] [] x y ha hb e = ground arith
colon_split [] (d ∷ b) x y ha hb e = ground arith
colon_split (c ∷ a) [] x y ha hb e = ground arith
colon_split (c ∷ a) (d ∷ b) x y ha hb e = ground (arith, colon_split a b x y ha.1 hb.1)

-- What holds of both branches holds of the conditional.
if_both {ℓ κ} :
    {A : Type ℓ} (P : A → Type κ) (b : Bool) {x y : A} → P x → P y → P (if b then x else y)
if_both P true p q = p
if_both P false p q = q

-- What holds of the five rules holds of the one that is resolved.
resolve_rule-cases {ℓ} :
    (P : Rule → Type ℓ) (method path : Text)
    → P auth_rule
    → P register_rule
    → P create_rule
    → P get_rule
    → P default_rule
    → P (resolve_rule method path)
unfolding resolve_rule
resolve_rule-cases P method path a r c g d =
    if_both P _ a (if_both P _ r (if_both P _ c (if_both P _ g d)))

resolve_rule-HasNoColon : (method path : Text) → HasNoColon (resolve_rule method path).name
resolve_rule-HasNoColon method path =
    resolve_rule-cases (λ r. HasNoColon r.name) method path (omega arith) (omega arith)
      (omega arith) (omega arith) (omega arith)

-- The five names tell the rules apart.
abbrev rule_named : Text → Rule
rule_named name =
    if text_eq name (codes "auth")
    then auth_rule
    else if text_eq name (codes "merchants-register")
    then register_rule
    else if text_eq name (codes "checkout-create")
    then create_rule
    else if text_eq name (codes "checkout-get")
    then get_rule
    else default_rule

rule_named-resolve_rule :
    (method path : Text) → resolve_rule method path ≡ rule_named (resolve_rule method path).name
rule_named-resolve_rule method path =
    resolve_rule-cases (λ r. r ≡ rule_named r.name) method path refl refl refl refl refl

-- Two requests are counted under one key only if they fall under one rule and have one identity.
pub keyspace-injective :
    (method method' path path' identity identity' : Text)
    → keyspace (resolve_rule method path) identity ≡ keyspace (resolve_rule method' path') identity'
    → (resolve_rule method path ≡ resolve_rule method' path') × (identity ≡ identity')
unfolding keyspace
keyspace-injective method method' path path' identity identity' e =
    let (name, same) =
      colon_split (resolve_rule method path).name (resolve_rule method' path').name identity
        identity' (resolve_rule-HasNoColon method path) (resolve_rule-HasNoColon method' path') e in
    (
      rule_named-resolve_rule method path
          ∙ ap rule_named name
          ∙ sym (rule_named-resolve_rule method' path'),
      same,
    )
