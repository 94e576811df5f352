-- ===== src/Recipes/Workspace/Normalized.antt =====
-- Raw parameters that were normalized are left alone.
use terramate_api_wrapper.Base.{
  String, true, false, not, ◌&&◌, some, ◌==◌, string_eq, ◌⊎◌, ◌≡◌, refl, sym, ap, ◌∙◌, arith,
  Bool-cases, inl, inr,
}
use terramate_api_wrapper.Value.{Value, null, str, list, nil, cons, Fields, get, put}
use terramate_api_wrapper.Result.{ok, ok-inj, bind-ok}
use terramate_api_wrapper.Recipes.BundleInstance.Entries.{get-put, put_found}
use terramate_api_wrapper.Recipes.NetworkFoundation.{get_or}
use terramate_api_wrapper.Recipes.Workspace.{
  truthy, get_truthy, first_item, fill, is_generic, normalize_domains, normalize_fields,
}

-- What `fill` leaves alone.
abbrev Filled : String → Value → Fields → Type 0
Filled key v d = (get_truthy key d ≡ true) ⊎ (get key d ≡ some v)

fill_kept : (key : String) (v : Value) (d : Fields) → Filled key v d → fill key v d ≡ d
fill_kept key v d (inl h) = rw h refl
fill_kept key v d (inr h) = elim (Bool-cases (get_truthy key d)) [
  | inl e ↦ rw e refl
  | inr e ↦ rw e (put_found key v d h)
]

fill-Filled : (key : String) (v : Value) (d : Fields) → Filled key v (fill key v d)
fill-Filled key v d = elim (Bool-cases (get_truthy key d)) [
  | inl e ↦ inl (rw e e)
  | inr e ↦ inr (rw (e, get-put key key v d) (ground arith))
]

fill-other :
    (key : String) (v : Value) (j : String) (d : Fields)
    → (key == j) ≡ false
    → get j (fill key v d) ≡ get j d
fill-other key v j d h = elim (Bool-cases (get_truthy key d)) [
  | inl e ↦ rw e refl
  | inr e ↦ rw (e, get-put j key v d, h) refl
]

Filled-same :
    (key : String) (v : Value) (d e : Fields)
    → get key e ≡ get key d
    → Filled key v d
    → Filled key v e
Filled-same key v d e same (inl h) = inl (rw (get_or, same) h)
Filled-same key v d e same (inr h) = inr (same ∙ h)

-- The domains are given, and so is the domain, or it is the first of them.
abbrev Domains : Fields → Type 0
Domains d =
    (get_truthy "business_domains" d ≡ true)
    × ((get_truthy "business_domain" d ≡ true)
        ⊎ ((v : Value) × (get "business_domain" d ≡ some v)
            × (first_item (get_or null "business_domains" d) ≡ ok v)))

Domains-kept : (d : Fields) → Domains d → normalize_domains d ≡ ok d
unfolding normalize_domains
Domains-kept d (bds, inl bd) = rw (bds, bd) refl
Domains-kept d (bds, inr (v, there, first)) = elim (Bool-cases (get_truthy "business_domain" d)) [
  | inl e ↦ rw (bds, e) refl
  | inr e ↦ rw (bds, e, first) (ap ok (put_found "business_domain" v d there))
]

-- Reading one of the two keys once they are written.
domain_read : (v : Value) (d : Fields) → get "business_domain" (put "business_domain" v d) ≡ some v
unfolding string_eq
domain_read v d = get-put "business_domain" "business_domain" v d

domain_past :
    (v : Value) (d : Fields)
    → get "business_domain" (put "business_domains" v d) ≡ get "business_domain" d
unfolding string_eq
domain_past v d = get-put "business_domain" "business_domains" v d

domains_read :
    (v : Value) (d : Fields) → get "business_domains" (put "business_domains" v d) ≡ some v
unfolding string_eq
domains_read v d = get-put "business_domains" "business_domains" v d

domains_past :
    (v : Value) (d : Fields)
    → get "business_domains" (put "business_domain" v d) ≡ get "business_domains" d
unfolding string_eq
domains_past v d = get-put "business_domains" "business_domain" v d

-- A domain that is known, as the one of the domains.
alone-Domains :
    (v : Value) (d : Fields)
    → get_truthy "business_domain" d ≡ true
    → Domains (put "business_domains" (list (cons v nil)) d)
alone-Domains v d h = (
  rw (get_or, domains_read (list (cons v nil)) d) refl,
  inl (rw (get_or, domain_past (list (cons v nil)) d) h),
)

default_truthy : truthy (str "controltower") ≡ true
unfolding string_eq
default_truthy = refl

normalized-Domains : (d e : Fields) → normalize_domains d ≡ ok e → Domains e
unfolding normalize_domains
normalized-Domains d e h = elim (Bool-cases (get_truthy "business_domains" d)) [
  | inl bds ↦ elim (Bool-cases (get_truthy "business_domain" d)) [
    | inl bd ↦ rw (sym (ok-inj (rw (bds, bd) at h))) (bds, inl bd)
    | inr bd ↦
        let (v, first, made) =
          bind-ok (first_item (get_or null "business_domains" d))
            (λ (v : Value). ok (put "business_domain" v d)) e (rw (bds, bd) at h) in
        rw (sym (ok-inj made)) (
          rw (get_or, domains_past v d) bds,
          inr (v, domain_read v d, rw (get_or, domains_past v d) first),
        )
  ]
  | inr bds ↦ elim (Bool-cases (get_truthy "business_domain" d)) [
    | inl bd ↦
        rw (sym (ok-inj (rw (bds, bd) at h))) (alone-Domains (get_or null "business_domain" d) d bd)
    | inr bd ↦ elim (Bool-cases (get_truthy "name" d && not (is_generic (get_or null "name" d)))) [
      | inl named ↦
          let name = get_or null "name" d in
          rw (sym (ok-inj (rw (bds, bd, named) at h))) (
            alone-Domains name (put "business_domain" name d)
              (rw (get_or, domain_read name d) (ground (arith, named))))
      | inr unnamed ↦
          let default = str "controltower" in
          rw (sym (ok-inj (rw (bds, bd, unnamed) at h))) (
            alone-Domains default (put "business_domain" default d)
              (rw (get_or, domain_read default d) default_truthy))
    ]
  ]
]

abbrev name_default : Fields → Value
name_default d = get_or (str "workspace") "business_domain" d

abbrev fills : Fields → Fields
fills d =
    fill "subnet_size" (str "small")
      (fill "environment" (str "sbx") (fill "name" (name_default d) d))

-- The keys that are filled in, in what is filled.
module _ (d : Fields) where
  abbrev named : Fields
  named = fill "name" (name_default d) d

  abbrev placed : Fields
  placed = fill "environment" (str "sbx") named

  fills-past :
      (j : String)
      → ("name" == j) ≡ false
      → ("environment" == j) ≡ false
      → ("subnet_size" == j) ≡ false
      → get j (fills d) ≡ get j d
  fills-past j n e s =
      fill-other "subnet_size" (str "small") j placed s
      ∙ (fill-other "environment" (str "sbx") j named e ∙ fill-other "name" (name_default d) j d n)

  full_name : Filled "name" (name_default d) (fills d)
  unfolding string_eq
  full_name =
      Filled-same "name" (name_default d) named (fills d)
        (fill-other "subnet_size" (str "small") "name" placed refl
          ∙ fill-other "environment" (str "sbx") "name" named refl)
        (fill-Filled "name" (name_default d) d)

  full_environment : Filled "environment" (str "sbx") (fills d)
  unfolding string_eq
  full_environment =
      Filled-same "environment" (str "sbx") placed (fills d)
        (fill-other "subnet_size" (str "small") "environment" placed refl)
        (fill-Filled "environment" (str "sbx") named)

  same_domain : get "business_domain" (fills d) ≡ get "business_domain" d
  unfolding string_eq
  same_domain = fills-past "business_domain" refl refl refl

  same_domains : get "business_domains" (fills d) ≡ get "business_domains" d
  unfolding string_eq
  same_domains = fills-past "business_domains" refl refl refl

  fills_twice : fills (fills d) ≡ fills d
  fills_twice =
      let same_name : name_default (fills d) ≡ name_default d = rw (get_or, same_domain) refl in
      ap
        (λ v.
          fill "subnet_size" (str "small")
            (fill "environment" (str "sbx") (fill "name" v (fills d))))
        same_name
      ∙ (ap (λ x. fill "subnet_size" (str "small") (fill "environment" (str "sbx") x))
            (fill_kept "name" (name_default d) (fills d) full_name)
          ∙ (ap (fill "subnet_size" (str "small"))
                (fill_kept "environment" (str "sbx") (fills d) full_environment)
              ∙ fill_kept "subnet_size" (str "small") (fills d)
                  (fill-Filled "subnet_size" (str "small") placed)))

  fills-Domains : Domains d → Domains (fills d)
  fills-Domains (bds, inl bd) = (rw (get_or, same_domains) bds, inl (rw (get_or, same_domain) bd))
  fills-Domains (bds, inr (v, there, first)) =
      (rw (get_or, same_domains) bds, inr (v, same_domain ∙ there, rw (get_or, same_domains) first))

-- Normalizing raw parameters that were normalized changes nothing.
pub normalize_fields_twice :
    (raw made : Fields) → normalize_fields raw ≡ ok made → normalize_fields made ≡ ok made
unfolding normalize_fields
normalize_fields_twice raw made h =
    let (d, domains, filled) =
      bind-ok (normalize_domains raw) (λ (d : Fields). ok (fills d)) made h in
    rw
      (
        sym (ok-inj filled),
        Domains-kept (fills d) (fills-Domains d (normalized-Domains raw d domains)),
        fills_twice d,
      )
      refl
