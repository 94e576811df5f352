-- ===== src/Recipes/Workspace/Stored.antt =====
-- The engine builds the Playbook again from stored parameters: the uuids of their stacks are there, and
-- they stay.
use terramate_api_wrapper.Base.{
  ℕ, suc, String, Bool, true, false, Option, none, some, List, [], ◌∷◌, ◌++◌, all, string_eq, ◌≡◌,
  refl, ap, ◌∙◌, arith, Bool-cases, Option-cases, inl, inr,
}
use terramate_api_wrapper.Table.{is_some}
use terramate_api_wrapper.Result.{ok}
use terramate_api_wrapper.Framework.{FileEdit, Playbook}
use terramate_api_wrapper.Recipes.Workspace.{
  Uuids, uuid_of, set_default_uuid, WorkspaceParams, set_given, mint, mint_stack_uuids,
  workspace_edits, domain_edits, workspace_playbook, build_workspace,
}

uuid_of-append :
    (domain : String) (us vs : Uuids) (u : String)
    → uuid_of domain us ≡ some u
    → uuid_of domain (us ++ vs) ≡ some u
uuid_of-append domain [] vs u h = absurd (cc h)
uuid_of-append domain ((k, x) ∷ us) vs u h = ground (arith, uuid_of-append domain us vs u)

uuid_of-append_missing :
    (domain uuid : String) (us : Uuids)
    → is_some (uuid_of domain us) ≡ false
    → uuid_of domain (us ++ (domain, uuid) ∷ []) ≡ some uuid
uuid_of-append_missing domain uuid [] h = ground arith
uuid_of-append_missing domain uuid ((k, x) ∷ us) h =
    ground (arith, uuid_of-append_missing domain uuid us)

set_default_uuid-keeps :
    (domain key uuid : String) (us : Uuids) (u : String)
    → uuid_of domain us ≡ some u
    → uuid_of domain (set_default_uuid key uuid us) ≡ some u
unfolding set_default_uuid
set_default_uuid-keeps domain key uuid us u h =
    ground (arith, uuid_of-append domain us ((key, uuid) ∷ []) u h)

set_default_uuid-own :
    (domain uuid : String) (us : Uuids)
    → is_some (uuid_of domain (set_default_uuid domain uuid us)) ≡ true
unfolding set_default_uuid
set_default_uuid-own domain uuid us = elim (Bool-cases (is_some (uuid_of domain us))) [
  | inl e ↦ rw (e) e
  | inr e ↦ rw (e, uuid_of-append_missing domain uuid us e) refl
]

mint-keeps :
    (new : ℕ → String) (n : ℕ) (domains : List String) (domain : String) (us : Uuids) (u : String)
    → uuid_of domain us ≡ some u
    → uuid_of domain (mint new n domains us) ≡ some u
unfolding mint
mint-keeps new n [] domain us u h = h
mint-keeps new n (key ∷ domains) domain us u h =
    mint-keeps new (suc n) domains domain (set_default_uuid key (new n) us) u
      (set_default_uuid-keeps domain key (new n) us u h)

abbrev has_uuids : List String → Uuids → Bool
has_uuids domains us = all (λ domain. is_some (uuid_of domain us)) domains

mint-has_uuids :
    (new : ℕ → String) (n : ℕ) (domains : List String) (us : Uuids)
    → has_uuids domains (mint new n domains us) ≡ true
unfolding mint
mint-has_uuids new n [] us = refl
mint-has_uuids new n (domain ∷ domains) us =
    let once = set_default_uuid domain (new n) us in
    elim (Option-cases (uuid_of domain once)) [
      | inl e ↦ absurd (ground (arith, e, set_default_uuid-own domain (new n) us))
      | inr (u, e) ↦
          rw (mint-keeps new (suc n) domains domain once u e)
            (mint-has_uuids new (suc n) domains once)
    ]

mint_kept :
    (new : ℕ → String) (n : ℕ) (domains : List String) (us : Uuids)
    → has_uuids domains us ≡ true
    → mint new n domains us ≡ us
unfolding mint set_default_uuid
mint_kept new n [] us h = refl
mint_kept new n (domain ∷ domains) us h =
    let there : is_some (uuid_of domain us) ≡ true = ground (arith, h) in
    rw there (mint_kept new (suc n) domains us (ground (arith, h)))

set_given_kept :
    (given : Option String) (domains : List String) (us : Uuids)
    → has_uuids domains us ≡ true
    → set_given given domains us ≡ us
unfolding set_default_uuid
set_given_kept none domains us h = refl
set_given_kept (some uuid) [] us h = refl
set_given_kept (some uuid) (domain ∷ []) us h = ground (arith, h)
set_given_kept (some uuid) (domain ∷ next ∷ domains) us h = refl

mint_stack_uuids_twice :
    (new later : ℕ → String) (params : WorkspaceParams)
    → mint_stack_uuids later (mint_stack_uuids new params) ≡ mint_stack_uuids new params
unfolding mint_stack_uuids
mint_stack_uuids_twice new later params =
    let domains = params.business_domains in
    let us =
      mint new 0 domains (set_given params.business_domain_uuid domains params.stack_uuids) in
    let there =
      mint-has_uuids new 0 domains
        (set_given params.business_domain_uuid domains params.stack_uuids) in
    ap (λ (x : Uuids). record params { stack_uuids = x })
      (ap (mint later 0 domains) (set_given_kept params.business_domain_uuid domains us there)
        ∙ mint_kept later 0 domains us there)

workspace_edits-ok :
    (params : WorkspaceParams) (domains : List String)
    → has_uuids domains params.stack_uuids ≡ true
    → (edits : List FileEdit) × (workspace_edits params domains ≡ ok edits)
unfolding workspace_edits
workspace_edits-ok params [] h = ([], refl)
workspace_edits-ok params (domain ∷ domains) h =
    elim (Option-cases (uuid_of domain params.stack_uuids)) [
      | inl e ↦ absurd (ground (arith, e, h))
      | inr (u, e) ↦
          let (edits, f) = workspace_edits-ok params domains (ground (arith, h)) in
          (domain_edits params domain u ++ edits, rw (e, f) refl)
    ]

build_workspace-ok :
    (new_uuid : String) (params : WorkspaceParams)
    → has_uuids params.business_domains params.stack_uuids ≡ true
    → (playbook : Playbook) × (build_workspace new_uuid params ≡ ok playbook)
unfolding build_workspace
build_workspace-ok new_uuid params h =
    let (edits, f) = workspace_edits-ok params params.business_domains h in
    (workspace_playbook new_uuid params edits, rw f refl)

minted-has_uuids :
    (new : ℕ → String) (params : WorkspaceParams)
    → has_uuids params.business_domains (mint_stack_uuids new params).stack_uuids ≡ true
unfolding mint_stack_uuids
minted-has_uuids new params =
    mint-has_uuids new 0 params.business_domains
      (set_given params.business_domain_uuid params.business_domains params.stack_uuids)

minted_domains :
    (new : ℕ → String) (params : WorkspaceParams)
    → (mint_stack_uuids new params).business_domains ≡ params.business_domains
unfolding mint_stack_uuids
minted_domains new params = refl

-- Building a workspace Playbook never fails for want of a stack uuid, and when the stored parameters are
-- validated again, with whatever new uuids, the Playbook is the same.
pub build_workspace_again :
    (new later : ℕ → String) (new_uuid : String) (params : WorkspaceParams)
    → (playbook : Playbook) × (build_workspace new_uuid (mint_stack_uuids new params) ≡ ok playbook)
      × (build_workspace new_uuid (mint_stack_uuids later (mint_stack_uuids new params))
          ≡ ok playbook)
build_workspace_again new later new_uuid params =
    let stored = mint_stack_uuids new params in
    let there : has_uuids stored.business_domains stored.stack_uuids ≡ true =
      rw (minted_domains new params) (minted-has_uuids new params) in
    let (playbook, builds) = build_workspace-ok new_uuid stored there in
    (
      playbook,
      builds,
      ap (build_workspace new_uuid) (mint_stack_uuids_twice new later params) ∙ builds,
    )
