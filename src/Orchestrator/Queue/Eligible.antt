-- ===== src/Orchestrator/Queue/Eligible.antt =====
-- Whose turn it is: what `pick` guarantees of the Step that it returns.
use terramate_api_wrapper.Base.{
  Bool, true, false, ◌&&◌, Option, none, some, List, [], ◌∷◌, In, ◌≡◌, refl, ◌⊎◌, inl, inr, ap, sym,
  subst, arith,
}
use terramate_api_wrapper.Result.{Result, ok, err, ◌>>=◌}
use terramate_api_wrapper.Models.{Request, Step, Db, find_request}
use terramate_api_wrapper.Orchestrator.Status.{is_terminal}
use terramate_api_wrapper.Orchestrator.Queue.{
  dependencies_done, joined, sort, insert_sorted, Candidate, join_with, is_serial_type,
  serial_lane_busy, Turn, skip, take, wait, turn, pick, lane_state,
}
use terramate_api_wrapper.World.{World}

module _ {A : Type 0} (le : A → A → Bool) where
  In-insert_sorted : (a x : A) (ys : List A) → In a (insert_sorted le x ys) → (a ≡ x) ⊎ In a ys
  unfolding insert_sorted
  In-insert_sorted a x [] m = m
  In-insert_sorted a x (y ∷ ys) m = ground (arith, In-insert_sorted a x ys)

  pub In-sort : (a : A) (xs : List A) → In a (sort le xs) → In a xs
  unfolding sort
  In-sort a [] m = m
  In-sort a (x ∷ xs) m = ground (arith, In-insert_sorted a x (sort le xs), In-sort a xs)

  In-insert_sorted_of : (a x : A) (ys : List A) → (a ≡ x) ⊎ In a ys → In a (insert_sorted le x ys)
  unfolding insert_sorted
  In-insert_sorted_of a x [] m = m
  In-insert_sorted_of a x (y ∷ ys) m = ground (arith, In-insert_sorted_of a x ys)

  pub In-sort_of : (a : A) (xs : List A) → In a xs → In a (sort le xs)
  unfolding sort
  In-sort_of a [] m = m
  In-sort_of a (x ∷ xs) (inl e) = In-insert_sorted_of a x (sort le xs) (inl e)
  In-sort_of a (x ∷ xs) (inr m) = In-insert_sorted_of a x (sort le xs) (inr (In-sort_of a xs m))

In-join_with :
    (found : Option Request) (x s : Step) (row : Request) (rest : List Candidate)
    → In {A = Candidate} (s, row) (join_with found x rest)
    → (s ≡ x) × (found ≡ some row) ⊎ In {A = Candidate} (s, row) rest
In-join_with none x s row rest m = inr m
In-join_with (some r) x s row rest (inl e) =
    inl (ap (λ (c : Candidate). c.0) e, ap (λ (c : Candidate). some c.1) (sym e))
In-join_with (some r) x s row rest (inr m) = inr m

In-join_with_later :
    (found : Option Request) (x : Step) (c : Candidate) (rest : List Candidate)
    → In c rest
    → In c (join_with found x rest)
In-join_with_later none x c rest m = m
In-join_with_later (some r) x c rest m = inr m

pub In-joined_of :
    (db : Db) (s : Step) (row : Request) (ss : List Step)
    → In s ss
    → find_request s.request_id db ≡ some row
    → In {A = Candidate} (s, row) (joined db ss)
unfolding joined
In-joined_of db s row [] m f = absurd m
In-joined_of db s row (x ∷ ss) (inl e) f =
    subst
      (λ y. In {A = Candidate} (s, row) (join_with (find_request y.request_id db) y (joined db ss)))
      e (rw f (inl refl))
In-joined_of db s row (x ∷ ss) (inr m) f =
    In-join_with_later (find_request x.request_id db) x (s, row) (joined db ss)
      (In-joined_of db s row ss m f)

pub In-joined :
    (db : Db) (s : Step) (row : Request) (ss : List Step)
    → In {A = Candidate} (s, row) (joined db ss)
    → In s ss × (find_request s.request_id db ≡ some row)
unfolding joined
In-joined db s row [] m = absurd m
In-joined db s row (x ∷ ss) m =
    elim (In-join_with (find_request x.request_id db) x s row (joined db ss) m) [
      | inl (e, f) ↦ (inl e, rw e f)
      | inr rest ↦ let (i, f) = In-joined db s row ss rest in (inr i, f)
    ]

module _ (w : World) where
  -- A cached answer is the answer.
  abbrev pub IsCurrent : Db → Option Bool → Type 0
  IsCurrent db lane = lane_state w lane db ≡ serial_lane_busy w db

  pub record IsTurn (db : Db) (step : Step) (row : Request) : Type 0 where
    pub live : is_terminal row.status ≡ false
    pub ready : dependencies_done db step ≡ true
    pub lane : (is_serial_type w row.type && serial_lane_busy w db) ≡ false

  turn-take :
      (db : Db) (lane after : Option Bool) (step : Step) (row : Request)
      → IsCurrent db lane
      → turn w db lane (step, row) ≡ ok (take after)
      → IsTurn db step row
  unfolding turn
  turn-take db lane after step row c h = ground arith

  turn-wait :
      (db : Db) (lane after : Option Bool) (step : Step) (row : Request)
      → IsCurrent db lane
      → turn w db lane (step, row) ≡ ok (wait after)
      → IsCurrent db after
  unfolding turn
  turn-wait db lane after step row c h = ground arith

  abbrev pub Picked : Db → Step → List Candidate → Type 0
  Picked db step cs = (row : Request) × In {A = Candidate} (step, row) cs × IsTurn db step row

  -- What `pick` returns stands in the queue, and its turn has come.
  pub pick-IsTurn :
      (db : Db) (lane after : Option Bool) (cs : List Candidate) (step : Step)
      → IsCurrent db lane
      → pick w db lane cs ≡ ok (some step, after)
      → Picked db step cs
  unfolding pick
  pick-IsTurn db lane after [] step c h = absurd (cc h)
  pick-IsTurn db lane after ((s, row) ∷ cs) step c h =
      by_turn (turn w db lane (s, row)) refl h (λ l k. pick-IsTurn db l after cs step k)
    where
      later : Picked db step cs → Picked db step ((s, row) ∷ cs)
      later (r, i, t) = (r, inr i, t)

      by_turn :
          (t : Result (Turn w))
          → turn w db lane (s, row) ≡ t
          → (t >>= λ u. elim u [
            | skip ↦ pick w db lane cs
            | take lane' ↦ ok (some s, lane')
            | wait lane' ↦ pick w db lane' cs
          ])
            ≡ ok (some step, after)
          → ((l : Option Bool)
              → IsCurrent db l
              → pick w db l cs ≡ ok (some step, after)
              → Picked db step cs)
          → Picked db step ((s, row) ∷ cs)
      by_turn (err x) e k ih = absurd (cc k)
      by_turn (ok skip) e k ih = later (ih lane c k)
      by_turn (ok (wait l)) e k ih = later (ih l (turn-wait db lane l s row c e) k)
      by_turn (ok (take l)) e k ih =
          let same : s ≡ step = cc k in
          subst (λ x. Picked db x ((s, row) ∷ cs)) same
            (row, inl refl, turn-take db lane l s row c e)

  turn-skip :
      (db : Db) (lane : Option Bool) (step : Step) (row : Request)
      → turn w db lane (step, row) ≡ ok skip
      → IsTurn db step row
      → ⊥
  unfolding turn
  turn-skip db lane step row h t = ground (arith, t.live, t.ready)

  turn-wait_lane :
      (db : Db) (lane after : Option Bool) (step : Step) (row : Request)
      → IsCurrent db lane
      → turn w db lane (step, row) ≡ ok (wait after)
      → IsTurn db step row
      → ⊥
  unfolding turn
  turn-wait_lane db lane after step row c h t = ground (arith, t.live, t.ready, t.lane)

  -- Where `pick` returns nothing, no candidate's turn has come.
  pub pick-none :
      (db : Db) (lane after : Option Bool) (cs : List Candidate) (step : Step) (row : Request)
      → IsCurrent db lane
      → pick w db lane cs ≡ ok (none, after)
      → In {A = Candidate} (step, row) cs
      → IsTurn db step row
      → ⊥
  unfolding pick
  pick-none db lane after [] step row c h m t = m
  pick-none db lane after ((s, r) ∷ cs) step row c h m t =
      by_turn (turn w db lane (s, r)) refl h (λ l k. pick-none db l after cs step row k)
    where
      moved_on : (IsTurn db s r → ⊥) → (In {A = Candidate} (step, row) cs → ⊥) → ⊥
      moved_on first rest = elim m [
        | inl e ↦ first (subst (λ (c : Candidate). IsTurn db c.0 c.1) e t)
        | inr i ↦ rest i
      ]

      by_turn :
          (u : Result (Turn w))
          → turn w db lane (s, r) ≡ u
          → (u >>= λ v. elim v [
            | skip ↦ pick w db lane cs
            | take lane' ↦ ok (some s, lane')
            | wait lane' ↦ pick w db lane' cs
          ])
            ≡ ok (none, after)
          → ((l : Option Bool)
              → IsCurrent db l
              → pick w db l cs ≡ ok (none, after)
              → In {A = Candidate} (step, row) cs
              → IsTurn db step row
              → ⊥)
          → ⊥
      by_turn (err x) e k ih = absurd (cc k)
      by_turn (ok skip) e k ih = moved_on (turn-skip db lane s r e) (λ i. ih lane c k i t)
      by_turn (ok (wait l)) e k ih =
          moved_on (turn-wait_lane db lane l s r c e)
            (λ i. ih l (turn-wait db lane l s r c e) k i t)
      by_turn (ok (take l)) e k ih = absurd (cc k)
