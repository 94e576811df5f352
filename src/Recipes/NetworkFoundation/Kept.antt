-- ===== src/Recipes/NetworkFoundation/Kept.antt =====
-- What a path of keys leads to in a document, and which changes keep it.
use terramate_api_wrapper.Base.{
  Bool, false, String, true, false, Option, none, some, List, [], ◌∷◌, In, all-In, ◌==◌, string_eq,
  if◌then◌else◌, ◌≡◌, refl, sym, ap, ◌∙◌, subst, arith, Bool-cases, inl, inr,
}
use terramate_api_wrapper.Value.{
  put_key, entry, Value, list, dict, Items, nil, cons, Fields, empty, get,
}
use terramate_api_wrapper.Table.{is_some}
use terramate_api_wrapper.Result.{Result, ok, ◌>>=◌, ok-inj, bind-ok}
use terramate_api_wrapper.Recipes.BundleInstance.Entries.{get-put_key, get-put}
use terramate_api_wrapper.Recipes.NetworkFoundation.{
  within_key, key_of, in_dict, get_or, within, has_key, set_key, add_missing, merge_fields,
  merge_items, sized, merge_source, source_domains, merge_env, merge_envs, merge_misplaced,
  within_domains, from_list, complete_domains, add_domains,
}
use terramate_api_wrapper.Recipes.NetworkFoundation.Settled

-- `value[key]`, where the value is a dict that has the key.
abbrev pub child : String → Option Value → Option Value
child key (some (dict d)) = get key d
child key _ = none

-- `value[k1][k2]...`
abbrev pub walk : List String → Option Value → Option Value
walk [] v = v
walk (k ∷ ks) v = walk ks (child k v)

abbrev pub domain_path : String → String → List String
domain_path environment domain =
    "environments" ∷ environment ∷ "inputs" ∷ "business_domains" ∷ domain ∷ []

-- `document["environments"][environment]["inputs"]["business_domains"][domain]`
abbrev pub domain_of : String → String → Fields → Option Value
domain_of environment domain document = walk (domain_path environment domain) (some (dict document))

-- The change leaves alone a domain with a size at the end of the path.
abbrev pub Keeps : List String → (Value → Result Value) → Type 0
Keeps path change =
    (v w : Value)
    → change v ≡ ok w
    → Settled.is_sized (walk path (some v)) ≡ true
    → walk path (some w) ≡ walk path (some v)

walk-none : (path : List String) → walk path none ≡ none
walk-none [] = refl
walk-none (k ∷ ks) = walk-none ks

module _ (key : String) (path : List String) (change : Value → Result Value)
    (keeps : Keeps path change) where
  pub kept_at_key :
      (d : Fields) (u : Value) (found : Option Value)
      → get key d ≡ found
      → change (get_or (dict empty) key d) ≡ ok u
      → Settled.is_sized (walk path found) ≡ true
      → walk path (some u) ≡ walk path found
  kept_at_key d u none e f sized_at = absurd (cc (rw (walk-none path) at sized_at))
  kept_at_key d u (some x) e f sized_at = keeps x u (rw (get_or, e) at f) sized_at

  pub within-Keeps : (q : Bool) (k : String) → Keeps (k ∷ path) (in_dict (within_key q key change))
  within-Keeps q k v w h sized_at =
      let (d, e, is_dict, f, made) = Settled.in_dict-ok (within_key q key change) v w h in
      let (u, g, put_there) = Settled.within-ok q key change d e f in
      let at_dict : Settled.is_sized (walk path (get k d)) ≡ true = rw is_dict at sized_at in
      rw (made, is_dict, put_there, get-put_key q k key u d)
        (elim (string_eq.dec key k) [
          | yes same ↦
              subst (λ x. walk path (if key == x then some u else get x d) ≡ walk path (get x d))
                same
                (rw (self key) (
                  kept_at_key d u (get key d) refl g (
                    subst (λ x. Settled.is_sized (walk path (get x d)) ≡ true) (sym same) at_dict)))
          | no differ ↦ ap (walk path) (ground (arith, differ))
        ])
    where
      self : (s : String) → (s == s) ≡ true
      self s = ground arith

module _ (path : List String) where
  pub same-Keeps : Keeps path ok
  same-Keeps v w h sized_at = ap (λ x. walk path (some x)) (sym (ok-inj h))

  pub then-Keeps :
      (before next : Value → Result Value)
      → Keeps path before
      → Keeps path next
      → Keeps path (λ v. before v >>= next)
  then-Keeps before next f g v w h sized_at =
      let (u, e, i) = bind-ok (before v) next w h in
      let once = f v u e sized_at in g u w i (ap Settled.is_sized once ∙ sized_at) ∙ once

module _ (k : String) where
  missing_kept :
      (q : Bool) (key : String) (v : Value) (d : Fields)
      → is_some (get key d) ≡ false
      → Settled.is_sized (get k d) ≡ true
      → get k (put_key q key v d) ≡ get k d
  missing_kept q key v d e sized_at = rw (get-put_key q k key v d) (elim (string_eq.dec key k) [
    | yes same ↦ absurd (ground (arith, e, sized_at, same))
    | no differ ↦ ground (arith, differ)
  ])

  add_missing-Keeps : (q : Bool) (key : String) (v : Value) → Keeps (k ∷ []) (add_missing q key v)
  unfolding add_missing has_key set_key
  add_missing-Keeps q key v (dict d) w h sized_at = elim (Bool-cases (is_some (get key d))) [
    | inl e ↦ ap (λ x. child k (some x)) (sym (ok-inj (rw e at h)))
    | inr e ↦
        ap (λ x. child k (some x)) (sym (ok-inj (rw e at h))) ∙ missing_kept q key v d e sized_at
  ]
  add_missing-Keeps q key v _ w h sized_at = absurd (cc sized_at)

  merge_fields-Keeps : (source : Fields) → Keeps (k ∷ []) (merge_fields source)
  unfolding merge_fields
  merge_fields-Keeps empty = same-Keeps (k ∷ [])
  merge_fields-Keeps (entry q key v rest) =
      then-Keeps (k ∷ []) (add_missing q key v) (merge_fields rest) (add_missing-Keeps q key v)
        (merge_fields-Keeps rest)

  merge_items-Keeps : (source : Items) → Keeps (k ∷ []) (merge_items source)
  unfolding merge_items
  merge_items-Keeps nil v w h sized_at = same-Keeps (k ∷ []) v w h sized_at
  merge_items-Keeps (cons item rest) v w h sized_at =
      let (key, e, i) =
        bind-ok (key_of item)
          (λ (key : Bool × String). add_missing key.0 key.1 (sized "small") v >>= merge_items rest)
          w h in
      then-Keeps (k ∷ []) (add_missing key.0 key.1 (sized "small")) (merge_items rest)
        (add_missing-Keeps key.0 key.1 (sized "small")) (merge_items-Keeps rest) v w i sized_at

  merge_source-Keeps : (source : Value) → Keeps (k ∷ []) (merge_source source)
  merge_source-Keeps (dict source) = merge_fields-Keeps source
  merge_source-Keeps (list source) = merge_items-Keeps source
  merge_source-Keeps _ = same-Keeps (k ∷ [])

  -- Under the keys `inputs` and `business_domains`.
  abbrev deep : String → String → List String
  deep i b = i ∷ b ∷ k ∷ []

  within_domains-Keeps :
      (i b : String) (change : Value → Result Value)
      → Keeps (k ∷ []) change
      → Keeps (deep i b) (within_domains change)
  within_domains-Keeps i b change keeps =
      within-Keeps "inputs" (b ∷ k ∷ []) (in_dict (within "business_domains" change))
        (within-Keeps "business_domains" (k ∷ []) change keeps false b) false i

  merge_env-Keeps : (i b : String) (env_val : Value) → Keeps (deep i b) (merge_env env_val)
  merge_env-Keeps i b (dict env_val) =
      within_domains-Keeps i b
        (λ target. source_domains env_val >>= λ source. merge_source source target)
        (λ v w h sized_at.
          let (source, e, f) =
            bind-ok (source_domains env_val) (λ (source : Value). merge_source source v) w h in
          merge_source-Keeps source v w f sized_at)
  merge_env-Keeps i b _ = same-Keeps (deep i b)

  merge_envs-Keeps :
      (e i b : String) (misplaced : Fields) → Keeps (e ∷ deep i b) (merge_envs misplaced)
  unfolding merge_envs
  merge_envs-Keeps e i b empty = same-Keeps (e ∷ deep i b)
  merge_envs-Keeps e i b (entry q env_name env_val rest) =
      then-Keeps (e ∷ deep i b) (in_dict (within_key q env_name (merge_env env_val)))
        (merge_envs rest)
        (within-Keeps env_name (deep i b) (merge_env env_val) (merge_env-Keeps i b env_val) q e)
        (merge_envs-Keeps e i b rest)

  pub merge_misplaced-Keeps :
      (e i b : String) (misplaced : Option Value) → Keeps (e ∷ deep i b) (merge_misplaced misplaced)
  unfolding merge_misplaced
  merge_misplaced-Keeps e i b (some (dict misplaced)) = merge_envs-Keeps e i b misplaced
  merge_misplaced-Keeps e i b none = same-Keeps (e ∷ deep i b)
  merge_misplaced-Keeps e i b (some _) = same-Keeps (e ∷ deep i b)

  complete_domains-Keeps :
      (size : String) (domains : List String) → Keeps (k ∷ []) (complete_domains size domains)
  unfolding complete_domains
  complete_domains-Keeps size domains (dict d) w h sized_at =
      ap (λ x. child k (some x)) (sym (ok-inj h))
      ∙ Settled.add_domains-sized size domains k d sized_at
  complete_domains-Keeps size domains _ w h sized_at = absurd (cc sized_at)

  pub complete-Keeps :
      (size environment : String) (domains : List String) (e i b : String)
      → Keeps
          (e ∷ deep i b)
          (in_dict (within environment (within_domains (complete_domains size domains))))
  complete-Keeps size environment domains e i b =
      within-Keeps environment (deep i b) (within_domains (complete_domains size domains))
        (within_domains-Keeps i b (complete_domains size domains)
          (complete_domains-Keeps size domains))
        false e

-- What a change has made stands at its key.
pub within-child :
    (key : String) (change : Value → Result Value) (v w : Value)
    → in_dict (within key change) v ≡ ok w
    → (x : Value) × (u : Value) × (change x ≡ ok u) × (child key (some w) ≡ some u)
within-child key change v w h =
    let (d, e, is_dict, f, made) = Settled.in_dict-ok (within key change) v w h in
    let (u, g, put_there) = Settled.within-ok false key change d e f in
    (get_or (dict empty) key d, u, g, rw (made, put_there, get-put key key u d) (ground arith))

added-is_sized :
    (size : String) (domains : List String) (k : String) (d : Fields)
    → In k domains
    → Settled.is_sized (get k (add_domains size domains d)) ≡ true
added-is_sized size domains k d requested =
    all-In (λ domain. Settled.is_sized (get domain (add_domains size domains d))) k domains
      (Settled.add_domains-all_sized size domains d) requested

pub complete_domains-is_sized :
    (size : String) (domains : List String) (k : String) (v w : Value)
    → complete_domains size domains v ≡ ok w
    → In k domains
    → Settled.is_sized (child k (some w)) ≡ true
unfolding complete_domains
complete_domains-is_sized size domains k (dict d) w h requested =
    rw (sym (ok-inj h)) (added-is_sized size domains k d requested)
complete_domains-is_sized size domains k (list xs) w h requested =
    let (d, f, g) =
      bind-ok (from_list xs empty) (λ d. ok (dict (add_domains size domains d))) w h in
    rw (sym (ok-inj g)) (added-is_sized size domains k d requested)
complete_domains-is_sized size [] k _ w h requested = absurd requested
complete_domains-is_sized size (domain ∷ domains) k _ w h requested = absurd (cc h)
