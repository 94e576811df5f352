-- ===== src/Recipes/StackIds/Laws.antt =====
-- What registering a stack id does to the ids in the config file, and to the rest of the file.
use terramate_api_wrapper.Base.{
  ℕ, suc, ◌+◌, ◌<◌, String, true, false, ◌&&◌, none, some, List, [], ◌∷◌, ◌++◌, all, any, length,
  take, drop, ◌==◌, nat_eq, string_eq, ◌≡◌, ◌≢◌, refl, sym, ap, ◌∙◌, arith, Bool-cases, inl, inr,
  if◌then◌else◌,
}
use terramate_api_wrapper.Base.Text.{all_chars}
use terramate_api_wrapper.Base.Lines.{splitlines, ends_with_newline}
use terramate_api_wrapper.Base.Joined.{unbroken, splitlines-join, splitlines-unbroken}
use terramate_api_wrapper.Result.{Result, ok, ◌>>=◌}
use terramate_api_wrapper.Recipes.ConfigLines.{Attribute, is_key_char}
use terramate_api_wrapper.Recipes.StackIds.{
  StackGroup, comment, find_block, body, is_named, unlines, register_stack_id_patch,
}
use terramate_api_wrapper.Recipes.StackIds.Blocks.{
  Block, Block-find_block, find_block-Block, Block-body, Block-take_opening, Block-drop,
  length-append,
}
use terramate_api_wrapper.Recipes.StackIds.Entries.{quote}
use terramate_api_wrapper.Recipes.StackIds.Registered.{all-append}
use terramate_api_wrapper.Recipes.StackIds.Again.{with_inner, entered_block}
use terramate_api_wrapper.Recipes.StackIds.Lookup.{
  value_in, stack_id, is_named-value_in, value_in-is_named, value_in-insert, attributes-append,
  is_named-some, given_or, given_or-some, given_or-none,
}
use terramate_api_wrapper.Recipes.StackIds.Patched.{
  collected, attributes, registration, entered, Registration,
}

splitlines-unlines :
    (lines : List String)
    → 0 < length lines
    → all unbroken lines ≡ true
    → splitlines (unlines true lines) ≡ lines
splitlines-unlines [] h e = absurd (ground arith)
splitlines-unlines (line ∷ lines) h e = splitlines-join line lines e

module _ (group : StackGroup) (key stack_uuid : String)
    (kept_comment : unbroken (comment group) ≡ true) (chars : all_chars is_key_char key ≡ true)
    (given : key ≢ "") (uuid_chars : all_chars is_key_char stack_uuid ≡ true) (text : String)
    (ended : ends_with_newline text ≡ true) (start end : ℕ)
    (found : find_block (splitlines text) ≡ ok (start, end)) (inside : start < end) where
  abbrev lines : List String
  lines = splitlines text

  abbrev patch : String → Result String
  patch = register_stack_id_patch group key stack_uuid

  block : Block lines start end
  block = find_block-Block lines start end found inside

  kept_file :
      all unbroken block.before
        && (unbroken block.opening && (all unbroken block.inner && all unbroken block.after))
      ≡ true
  kept_file =
      sym (
        all-append block.before (block.opening ∷ (block.inner ++ block.after))
        ∙ ap (λ b. all unbroken block.before && (unbroken block.opening && b))
            (all-append block.inner block.after))
      ∙ (sym (ap (all unbroken) block.cut) ∙ splitlines-unbroken text)

  kept_inner : all unbroken block.inner ≡ true
  kept_inner = ground (arith, kept_file)

  kept_opening : unbroken block.opening ≡ true
  kept_opening = ground (arith, kept_file)

  its_body : body (start, end) lines ≡ block.inner
  its_body = Block-body lines start end block

  -- Where the key is not there, and what registration makes of the file then.
  module _ (absent : any (is_named key) block.inner ≡ false) where
    abbrev made :
        Registration group key stack_uuid kept_comment chars given uuid_chars lines start end block
          kept_inner kept_opening
    made =
        registration group key stack_uuid kept_comment chars given uuid_chars lines start end block
          kept_inner kept_opening

    abbrev new_lines : List String
    new_lines = with_inner lines start end block made.new

    abbrev once : String
    once = unlines true new_lines

    patched : patch text ≡ ok once
    unfolding register_stack_id_patch
    patched = rw (found, its_body, absent, made.succeeds, ended) refl

    once_lines : splitlines once ≡ new_lines
    once_lines =
        splitlines-unlines new_lines
          (ground (arith, length-append block.before (block.opening ∷ (made.new ++ block.after))))
          (all-append block.before (block.opening ∷ (made.new ++ block.after))
            ∙ ground (arith, all-append made.new block.after, kept_file, made.enters.kept))

    abbrev once_block : Block new_lines start (suc start + length made.new)
    once_block = entered_block lines start end block made.new made.news made.enters made.free

    once_found : find_block (splitlines once) ≡ ok (start, suc start + length made.new)
    once_found =
        ap find_block once_lines
        ∙ Block-find_block new_lines start (suc start + length made.new) once_block

    once_body : body (start, suc start + length made.new) (splitlines once) ≡ made.new
    once_body =
        ap (body (start, suc start + length made.new)) once_lines
        ∙ Block-body new_lines start (suc start + length made.new) once_block

    abbrev made_entry : Attribute
    made_entry =
        entered group key stack_uuid kept_comment chars given uuid_chars lines start end block
          kept_inner kept_opening

    once_attributes :
        attributes made.new
        ≡ attributes made.enters.before ++ made_entry ∷ attributes made.enters.behind
    once_attributes =
        ap collected made.enters.says
        ∙ (attributes-append made.enters.before (made.news ++ made.enters.behind)
            ∙ ap (λ ms. attributes made.enters.before ++ ms)
                (attributes-append made.news made.enters.behind
                  ∙ ap (λ ms. ms ++ attributes made.enters.behind) made.only))

    text_attributes :
        attributes block.inner ≡ attributes made.enters.before ++ attributes made.enters.behind
    text_attributes =
        ap attributes made.enters.parts ∙ attributes-append made.enters.before made.enters.behind

    no_value : value_in key (attributes block.inner) ≡ none
    no_value = is_named-value_in key block.inner absent

    once_value :
        (j : String)
        → value_in j (attributes made.new)
          ≡ (if key == j then some (quote stack_uuid) else value_in j (attributes block.inner))
    once_value j =
        ap (value_in j) once_attributes
        ∙ (value_in-insert j (attributes made.enters.before) made_entry
              (attributes made.enters.behind) (sym (ap (value_in key) text_attributes) ∙ no_value)
            ∙ ap (λ v. if key == j then some (quote stack_uuid) else v)
                (sym (ap (value_in j) text_attributes)))

    present_now : any (is_named key) made.new ≡ true
    present_now = value_in-is_named key (quote stack_uuid) made.new (once_value key ∙ ground arith)

    patched_twice : patch once ≡ ok once
    unfolding register_stack_id_patch
    patched_twice = rw (once_found, once_body, present_now) refl

    once-stack_id :
        (j : String)
        → stack_id j once
          ≡ ok (if key == j then some (quote stack_uuid) else value_in j (attributes block.inner))
    unfolding stack_id
    once-stack_id j = rw (once_found, once_body, once_value j) refl

    upto_body : take (suc start) (splitlines once) ≡ take (suc start) lines
    upto_body =
        ap (take (suc start)) once_lines
        ∙ (Block-take_opening new_lines start (suc start + length made.new) once_block
            ∙ sym (Block-take_opening lines start end block))

    from_closing : drop (suc start + length made.new) (splitlines once) ≡ drop end lines
    from_closing =
        ap (drop (suc start + length made.new)) once_lines
        ∙ (Block-drop new_lines start (suc start + length made.new) once_block
            ∙ sym (Block-drop lines start end block))

  -- Where the key is there.
  module _ (present : any (is_named key) block.inner ≡ true) where
    patched_kept : patch text ≡ ok text
    unfolding register_stack_id_patch
    patched_kept = rw (found, its_body, present) refl

  text_stack_id : (j : String) → stack_id j text ≡ ok (value_in j (attributes block.inner))
  unfolding stack_id
  text_stack_id j = rw (found, its_body) refl

  -- On a file that ends with a newline and has a stack ids block of more than one line, for a group
  -- whose comment is one line and a key and an id of the characters of keys: the patch raises nothing,
  -- and on the file that it makes it changes nothing.
  pub register_stack_id_patch_twice :
      (made_file : String) × (patch text ≡ ok made_file) × (patch made_file ≡ ok made_file)
  register_stack_id_patch_twice = elim (Bool-cases (any (is_named key) block.inner)) [
    | inl present ↦ (text, patched_kept present, patched_kept present)
    | inr absent ↦ (once absent, patched absent, patched_twice absent)
  ]

  -- Under the same conditions: afterwards the block has the given id for the key, in quotes, unless it
  -- had one, which is kept; the id of every other key is what it was.
  pub register_stack_id-patch-stack_id :
      (made_file : String) × (patch text ≡ ok made_file)
      × ((j : String)
          → stack_id j made_file ≡ (
              stack_id j text >>= λ old.
              ok (if key == j then some (given_or (quote stack_uuid) old) else old)))
  register_stack_id-patch-stack_id = elim (Bool-cases (any (is_named key) block.inner)) [
    | inl present ↦ (
      text,
      patched_kept present,
      λ j.
          let (value, has) = is_named-some key block.inner present in
          rw (text_stack_id j)
            (ap ok (given_or-some key j value (quote stack_uuid) (attributes block.inner) has)),
    )
    | inr absent ↦ (
      once absent,
      patched absent,
      λ j.
          once-stack_id absent j
          ∙ rw (text_stack_id j) (
              ap ok (
                given_or-none key j (quote stack_uuid) (attributes block.inner) (no_value absent))),
    )
  ]

  -- Under the same conditions: the lines up to the opening one and those from the closing one on are
  -- what they were.
  pub register_stack_id_patch-outside :
      (made_file : String) × (closing : ℕ) × (patch text ≡ ok made_file)
      × (take (suc start) (splitlines made_file) ≡ take (suc start) lines)
      × (drop closing (splitlines made_file) ≡ drop end lines)
  register_stack_id_patch-outside = elim (Bool-cases (any (is_named key) block.inner)) [
    | inl present ↦ (text, end, patched_kept present, refl, refl)
    | inr absent ↦ (
      once absent,
      suc start + length (made absent).new,
      patched absent,
      upto_body absent,
      from_closing absent,
    )
  ]
