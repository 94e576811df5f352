-- ===== src/Recipes/NetworkFoundation/Laws.antt =====
-- Adding domains to the network foundation: again, and next to the domains that it has.
use terramate_api_wrapper.Base.{
  false, String, true, Option, some, List, [], ◌∷◌, In, string_eq, ◌≡◌, refl, sym, ap, ◌∙◌, arith,
}
use terramate_api_wrapper.Value.{entry, Value, dict, Fields, empty, get, put}
use terramate_api_wrapper.Result.{Result, ok, ◌>>=◌, bind-ok}
use terramate_api_wrapper.Recipes.BundleInstance.{or_skeleton}
use terramate_api_wrapper.Recipes.BundleInstance.Entries.{get-put, put_found}
use terramate_api_wrapper.Recipes.BundleInstance.Laws.{put-or_skeleton}
use terramate_api_wrapper.Recipes.NetworkFoundation.{
  within_key, in_dict, get_or, within, complete_domains, within_domains, pop_environments,
  merge_misplaced, foundation_skeleton, add_business_domain_patch,
}
use terramate_api_wrapper.Recipes.NetworkFoundation.Settled
use terramate_api_wrapper.Recipes.NetworkFoundation.Kept.{
  walk, domain_of, merge_misplaced-Keeps, complete-Keeps, then-Keeps, kept_at_key, within-child,
  complete_domains-is_sized,
}

module _ (domains : List String) (size environment uuid : String) where
  abbrev patch : Fields → Result Fields
  patch = add_business_domain_patch domains size environment uuid

  abbrev complete : Value → Result Value
  complete = in_dict (within environment (within_domains (complete_domains size domains)))

  abbrev change_from : Option Value → Value → Result Value
  change_from misplaced envs = merge_misplaced misplaced envs >>= complete

  complete-Settles : Settled.Settles complete
  complete-Settles =
      Settled.in_dict-within-Settles environment (within_domains (complete_domains size domains)) (
        Settled.in_dict-within-Settles "inputs"
          (in_dict (within "business_domains" (complete_domains size domains)))
          (Settled.in_dict-within-Settles "business_domains" (complete_domains size domains)
            (Settled.complete_domains-Settles size domains)))

  abbrev doc_of : Fields → Fields
  doc_of document = or_skeleton (foundation_skeleton environment uuid) document

  -- The steps of a patch that succeeds.
  record Steps (document made : Fields) : Type 0 where
    pub popped : Option Value × Value
    pub pops : pop_environments (get_or (dict empty) "spec" (doc_of document)) ≡ ok popped
    pub envs : Value
    pub completes :
        change_from popped.0
          (get_or (dict empty) "environments" (put "spec" popped.1 (doc_of document)))
        ≡ ok envs
    pub result : made ≡ put "environments" envs (put "spec" popped.1 (doc_of document))

  patch-Steps : (document made : Fields) → patch document ≡ ok made → Steps document made
  unfolding add_business_domain_patch
  patch-Steps document made h =
      let (popped, pops, rest) =
        bind-ok (pop_environments (get_or (dict empty) "spec" (doc_of document)))
          (λ (popped : Option Value × Value).
            within "environments" (change_from popped.0) (put "spec" popped.1 (doc_of document)))
          made h in
      let (envs, completes, result) =
        Settled.within-ok false "environments" (change_from popped.0)
          (put "spec" popped.1 (doc_of document)) made rest in
      record { popped = popped; pops = pops; envs = envs; completes = completes; result = result }

  module _ (document made : Fields) (s : Steps document made) where
    abbrev base : Fields
    base = put "spec" s.popped.1 (doc_of document)

    made_environments : get "environments" made ≡ some s.envs
    made_environments =
        ap (get "environments") s.result
        ∙ rw (get-put "environments" "environments" s.envs base) (ground arith)

    made_source : get "spec" made ≡ some s.popped.1
    unfolding string_eq
    made_source =
        ap (get "spec") s.result
        ∙ (get-put "spec" "environments" s.envs base
            ∙ get-put "spec" "spec" s.popped.1 (doc_of document))

    doc_of-made : doc_of made ≡ made
    doc_of-made =
        ap doc_of s.result
        ∙ (put-or_skeleton (foundation_skeleton environment uuid) "environments" s.envs base
            ∙ sym s.result)

    complete_again : complete s.envs ≡ ok s.envs
    complete_again =
        let (v, f, g) =
          bind-ok (merge_misplaced s.popped.0 (get_or (dict empty) "environments" base)) complete
            s.envs s.completes in
        complete-Settles v s.envs g

    patch_again : patch made ≡ ok made
    unfolding add_business_domain_patch merge_misplaced within_key
    patch_again =
        rw
          (
            doc_of-made,
            get_or,
            made_source,
            Settled.popped-again (get_or (dict empty) "spec" (doc_of document)) s.popped s.pops,
            put_found "spec" s.popped.1 made made_source,
            made_environments,
            complete_again,
            put_found "environments" s.envs made made_environments,
          )
          refl

  -- The patch of the network foundation changes nothing in a document that it has made, whatever the
  -- document was before: a list of domains, environments under `spec`, or no document.
  pub add_business_domain_patch_twice :
      (document made : Fields) → patch document ≡ ok made → patch made ≡ ok made
  add_business_domain_patch_twice document made h =
      patch_again document made (patch-Steps document made h)

  -- The changes below `environments`.
  module _ (document made : Fields) (s : Steps document made) (env k : String) where
    abbrev misplaced : Option Value
    misplaced = s.popped.0

    abbrev below : List String
    below = env ∷ "inputs" ∷ "business_domains" ∷ k ∷ []

    change_kept :
        Settled.is_sized (walk below (get "environments" (doc_of document))) ≡ true
        → walk below (get "environments" made) ≡ walk below (get "environments" (doc_of document))
    unfolding string_eq
    change_kept sized_at =
        let same : get "environments" (base document made s)
            ≡ get "environments" (doc_of document) =
          get-put "environments" "spec" s.popped.1 (doc_of document) in
        ap (walk below) (made_environments document made s)
        ∙ kept_at_key "environments" below (change_from misplaced)
            (then-Keeps below (merge_misplaced misplaced) complete
              (merge_misplaced-Keeps k env "inputs" "business_domains" misplaced)
              (complete-Keeps k size environment domains env "inputs" "business_domains"))
            (base document made s) s.envs (get "environments" (doc_of document)) same s.completes
            sized_at

  -- In every environment, a business domain that has a subnet size is afterwards what it was.
  pub add_business_domain_patch-domain_of :
      (document made : Fields) (env k : String)
      → patch document ≡ ok made
      → Settled.is_sized (domain_of env k document) ≡ true
      → domain_of env k made ≡ domain_of env k document
  add_business_domain_patch-domain_of empty made env k h sized_at = absurd (cc sized_at)
  add_business_domain_patch-domain_of (entry q j v rest) made env k h sized_at =
      change_kept (entry q j v rest) made (patch-Steps (entry q j v rest) made h) env k sized_at

  -- In the environment, every requested domain has a subnet size afterwards.
  pub add_business_domain_patch-is_sized :
      (document made : Fields) (k : String)
      → patch document ≡ ok made
      → In k domains
      → Settled.is_sized (domain_of environment k made) ≡ true
  add_business_domain_patch-is_sized document made k h requested =
      let s = patch-Steps document made h in
      let (v, f, g) =
        bind-ok
          (merge_misplaced s.popped.0 (get_or (dict empty) "environments" (base document made s)))
          complete s.envs s.completes in
      let (x1, u1, h1, c1) =
        within-child environment (within_domains (complete_domains size domains)) v s.envs g in
      let (x2, u2, h2, c2) =
        within-child "inputs" (in_dict (within "business_domains" (complete_domains size domains)))
          x1 u1 h1 in
      let (x3, u3, h3, c3) =
        within-child "business_domains" (complete_domains size domains) x2 u2 h2 in
      rw (made_environments document made s, c1, c2, c3)
        (complete_domains-is_sized size domains k x3 u3 h3 requested)
