-- ===== src/Graph/Inference/Target.antt =====
-- The choice of the target: one candidate that scores above all others, or none.
use nodal_studio.Prelude.{
  ℕ, true, false, List, [], ◌∷◌, ◌≡◌, ◌↔◌, refl, ap, arith, some, leb, filter, all, sort, IsSorted,
  sort-IsSorted, filter-sort, length-sort, length, sym, ◌∙◌, map, place, String,
}
use nodal_studio.Graph.Ids.{SchemaTable}
use nodal_studio.Graph.Inference.{pick, by_score, score, resolve_inferred_target}

module _ {ℓ} {A : Type ℓ} where
  -- The candidates that score at least `n`.
  abbrev pub at_least : ℕ → List (A × ℕ) → List (A × ℕ)
  at_least n = filter (λ q. leb n q.1)

  none_at_least :
      (n : ℕ) (l : List (A × ℕ)) (x : A × ℕ)
      → all (by_score x) l ≡ true
      → leb n x.1 ≡ false
      → at_least n l ≡ []
  none_at_least n [] x h k = refl
  none_at_least n (y ∷ l) x h k = ground (arith, none_at_least n l x)

  pick-sorted :
      (l : List (A × ℕ)) (c : A) (n : ℕ)
      → IsSorted by_score l
      → at_least n l ≡ (c, n) ∷ []
      → pick l ≡ some c
  unfolding pick
  pick-sorted [] c n s h = cc
  pick-sorted (x ∷ []) c n s h = ground arith
  pick-sorted (x ∷ y ∷ l) c n s h = ground (arith, none_at_least n (y ∷ l) x)

  sorted-pick :
      (l : List (A × ℕ)) (c : A)
      → IsSorted by_score l
      → pick l ≡ some c
      → (n : ℕ) × (at_least n l ≡ (c, n) ∷ [])
  unfolding pick
  sorted-pick [] c s h = cc
  sorted-pick (x ∷ []) c s h = (x.1, ground arith)
  sorted-pick (x ∷ y ∷ l) c (hx, (hy, s)) h = (x.1, ground (arith, none_at_least x.1 l y))

  by_score_total : (x y : A × ℕ) → by_score x y ≡ false → by_score y x ≡ true
  by_score_total x y h = ground arith

  by_score_transitive :
      (x y z : A × ℕ) → by_score x y ≡ true → by_score y z ≡ true → by_score x z ≡ true
  by_score_transitive x y z h k = ground arith

  pub sort-by_score-IsSorted : (l : List (A × ℕ)) → IsSorted by_score (sort by_score l)
  sort-by_score-IsSorted = sort-IsSorted by_score by_score_total by_score_transitive

  at_least-sort :
      (n : ℕ) (l : List (A × ℕ)) → at_least n (sort by_score l) ≡ sort by_score (at_least n l)
  at_least-sort n = filter-sort by_score by_score_total by_score_transitive (λ q. leb n q.1)

  sort-eq-singleton : (l : List (A × ℕ)) (x : A × ℕ) → sort by_score l ≡ x ∷ [] → l ≡ x ∷ []
  unfolding sort place
  sort-eq-singleton [] x h = cc
  sort-eq-singleton (y ∷ []) x h = h
  sort-eq-singleton (y ∷ z ∷ l) x h =
      absurd (omega (arith, ap length h, length-sort by_score (y ∷ z ∷ l)))

  sort_singleton : (l : List (A × ℕ)) (x : A × ℕ) → l ≡ x ∷ [] → sort by_score l ≡ x ∷ []
  unfolding sort place
  sort_singleton l x h = rw h refl

  pick-sort_sound :
      (l : List (A × ℕ)) (c : A)
      → pick (sort by_score l) ≡ some c
      → (n : ℕ) × (at_least n l ≡ (c, n) ∷ [])
  pick-sort_sound l c h =
      let (n, best) = sorted-pick (sort by_score l) c (sort-by_score-IsSorted l) h in
      (n, sort-eq-singleton (at_least n l) (c, n) (sym (at_least-sort n l) ∙ best))

  pick-sort_complete :
      (l : List (A × ℕ)) (c : A) (n : ℕ)
      → at_least n l ≡ (c, n) ∷ []
      → pick (sort by_score l) ≡ some c
  pick-sort_complete l c n h =
      pick-sorted (sort by_score l) c n (sort-by_score-IsSorted l)
        (at_least-sort n l ∙ sort_singleton (at_least n l) (c, n) h)

-- The candidates with their scores for a source column.
abbrev pub scored : List SchemaTable → String → String → String → List (SchemaTable × ℕ)
scored candidates schema table stem = map (λ c. (c, score schema table stem c)) candidates

-- A target is resolved exactly if, for some score, it is the one candidate that scores at least as
-- much: a tie for the best score resolves to nothing.
pub resolve_inferred_target_iff :
    (candidates : List SchemaTable) (schema table stem : String) (c : SchemaTable)
    → (resolve_inferred_target candidates schema table stem ≡ some c)
      ↔ ((n : ℕ) × (at_least n (scored candidates schema table stem) ≡ (c, n) ∷ []))
unfolding resolve_inferred_target
resolve_inferred_target_iff candidates schema table stem c = (
  pick-sort_sound (scored candidates schema table stem) c,
  λ (n, h). pick-sort_complete (scored candidates schema table stem) c n h,
)
