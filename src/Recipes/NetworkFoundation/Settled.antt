-- ===== src/Recipes/NetworkFoundation/Settled.antt =====
-- Adding domains that are there changes nothing, and the patch changes nothing in what it has made.
use terramate_api_wrapper.Base.{
  Bool, false, String, Bool, true, false, Option, none, some, List, [], ◌∷◌, all, string_eq, ◌≡◌,
  refl, sym, ap, ◌∙◌, subst, arith,
}
use terramate_api_wrapper.Value.{entry, put_key, Value, quoted, list, dict, Fields, empty, get, put}
use terramate_api_wrapper.Table.{is_some}
use terramate_api_wrapper.Result.{Result, ok, ok-inj, bind-ok}
use terramate_api_wrapper.Recipes.BundleInstance.Entries.{get-put, put-put, put_found}
use terramate_api_wrapper.Recipes.NetworkFoundation.{
  within_key, in_dict, get_or, within, with_size, add_domain, add_domains, from_list,
  complete_domains, remove, pop_environments,
}

-- A dict with a `subnet_size`.
abbrev pub is_sized : Option Value → Bool
is_sized (some (dict d)) = is_some (get "subnet_size" d)
is_sized _ = false

with_size-is_sized : (size : String) (o : Option Value) → is_sized (some (with_size size o)) ≡ true
with_size-is_sized size (some (dict d)) =
    ground (arith, get-put "subnet_size" "subnet_size" (quoted size) d)
with_size-is_sized size none = ground arith
with_size-is_sized size (some _) = ground arith

with_size_found :
    (size : String) (o : Option Value) → is_sized o ≡ true → some (with_size size o) ≡ o
with_size_found size (some (dict d)) h = ground arith
with_size_found size none h = absurd (cc h)
with_size_found size (some _) h = absurd (cc h)

add_domain-is_sized :
    (size domain : String) (d : Fields) → is_sized (get domain (add_domain size domain d)) ≡ true
unfolding add_domain
add_domain-is_sized size domain d =
    rw (get-put domain domain (with_size size (get domain d)) d)
      (ground (arith, with_size-is_sized size (get domain d)))

-- A domain that has a size is left alone.
pub add_domain-sized :
    (size domain k : String) (d : Fields)
    → is_sized (get k d) ≡ true
    → get k (add_domain size domain d) ≡ get k d
unfolding add_domain
add_domain-sized size domain k d h = elim (string_eq.dec domain k) [
  | yes same ↦
      subst (λ x. get k (put x (with_size size (get x d)) d) ≡ get k d) (sym same)
        (rw (get-put k k (with_size size (get k d)) d)
          (ground (arith, with_size_found size (get k d) h)))
  | no differ ↦ rw (get-put k domain (with_size size (get domain d)) d) (ground (arith, differ))
]

add_domain_kept :
    (size domain : String) (d : Fields)
    → is_sized (get domain d) ≡ true
    → add_domain size domain d ≡ d
unfolding add_domain
add_domain_kept size domain d h =
    put_found domain (with_size size (get domain d)) d (sym (with_size_found size (get domain d) h))

pub add_domains-sized :
    (size : String) (domains : List String) (k : String) (d : Fields)
    → is_sized (get k d) ≡ true
    → get k (add_domains size domains d) ≡ get k d
unfolding add_domains
add_domains-sized size [] k d h = refl
add_domains-sized size (domain ∷ domains) k d h =
    let once = add_domain-sized size domain k d h in
    add_domains-sized size domains k (add_domain size domain d) (ap is_sized once ∙ h) ∙ once

abbrev pub all_sized : List String → Fields → Bool
all_sized domains d = all (λ domain. is_sized (get domain d)) domains

pub add_domains-all_sized :
    (size : String) (domains : List String) (d : Fields)
    → all_sized domains (add_domains size domains d) ≡ true
unfolding add_domains
add_domains-all_sized size [] d = refl
add_domains-all_sized size (domain ∷ domains) d =
    let own = add_domain-is_sized size domain d in
    let kept = ap is_sized (add_domains-sized size domains domain (add_domain size domain d) own) in
    rw (kept, own) (add_domains-all_sized size domains (add_domain size domain d))

add_domains_kept :
    (size : String) (domains : List String) (d : Fields)
    → all_sized domains d ≡ true
    → add_domains size domains d ≡ d
unfolding add_domains
add_domains_kept size [] d h = refl
add_domains_kept size (domain ∷ domains) d h =
    ap (add_domains size domains) (add_domain_kept size domain d (ground (arith, h)))
    ∙ add_domains_kept size domains d (ground (arith, h))

-- A change that leaves alone what it has made.
abbrev pub Settles : (Value → Result Value) → Type 0
Settles change = (v w : Value) → change v ≡ ok w → change w ≡ ok w

dict-Settles :
    (size : String) (domains : List String) (d : Fields)
    → complete_domains size domains (dict (add_domains size domains d))
      ≡ ok (dict (add_domains size domains d))
unfolding complete_domains
dict-Settles size domains d =
    ap (λ e. ok (dict e))
      (add_domains_kept size domains (add_domains size domains d)
        (add_domains-all_sized size domains d))

pub complete_domains-Settles :
    (size : String) (domains : List String) → Settles (complete_domains size domains)
unfolding complete_domains
complete_domains-Settles size domains (dict d) w h =
    rw (sym (ok-inj h)) (dict-Settles size domains d)
complete_domains-Settles size domains (list xs) w h =
    let (d, f, g) =
      bind-ok (from_list xs empty) (λ d. ok (dict (add_domains size domains d))) w h in
    rw (sym (ok-inj g)) (dict-Settles size domains d)
complete_domains-Settles size [] v w h = rw (sym (ok-inj {a = v} h)) refl
complete_domains-Settles size (domain ∷ domains) v w h = absurd (cc h)

-- What a change that succeeds has done.
pub within-ok :
    (q : Bool) (key : String) (change : Value → Result Value) (d e : Fields)
    → within_key q key change d ≡ ok e
    → (v : Value) × (change (get_or (dict empty) key d) ≡ ok v) × (e ≡ put_key q key v d)
unfolding within_key
within-ok q key change d e h =
    let (v, f, g) =
      bind-ok (change (get_or (dict empty) key d)) (λ (v : Value). ok (put_key q key v d)) e h in
    (v, f, sym (ok-inj g))

pub in_dict-ok :
    (change : Fields → Result Fields) (v w : Value)
    → in_dict change v ≡ ok w
    → (d : Fields) × (e : Fields) × (v ≡ dict d) × (change d ≡ ok e) × (w ≡ dict e)
in_dict-ok change (dict d) w h =
    let (e, f, g) = bind-ok (change d) (λ (e : Fields). ok (dict e)) w h in
    (d, e, refl, f, sym (ok-inj g))
in_dict-ok change v w h = (cc h)

module _ (key : String) (change : Value → Result Value) (settles : Settles change) where
  within-settles : (d e : Fields) → within key change d ≡ ok e → within key change e ≡ ok e
  unfolding within_key
  within-settles d e h =
      let (v, f, made) = within-ok false key change d e h in
      let there : get_or (dict empty) key (put key v d) ≡ v =
        rw (get_or, get-put key key v d) (ground arith) in
      rw (made, there, settles (get_or (dict empty) key d) v f) (ap ok (put-put key v v d))

  pub in_dict-within-Settles : Settles (in_dict (within key change))
  in_dict-within-Settles v w h =
      let (d, e, is_dict, f, made) = in_dict-ok (within key change) v w h in
      rw (made, within-settles d e f) refl

remove-get : (key : String) (d : Fields) → get key (remove key d) ≡ none
remove-get key empty = refl
remove-get key (entry q k v d) = ground (arith, remove-get key d)

remove_twice : (key : String) (d : Fields) → remove key (remove key d) ≡ remove key d
remove_twice key empty = refl
remove_twice key (entry q k v d) = ground (arith, remove_twice key d)

-- Nothing stands under `spec` by mistake when the environments have been taken out.
pub popped-again :
    (v : Value) (popped : Option Value × Value)
    → pop_environments v ≡ ok popped
    → pop_environments popped.1 ≡ ok (none, popped.1)
unfolding pop_environments
popped-again (dict d) popped h =
    rw (sym (ok-inj h)) (rw (remove-get "environments" d, remove_twice "environments" d) refl)
popped-again v popped h = absurd (cc h)
