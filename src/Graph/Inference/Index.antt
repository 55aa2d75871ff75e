-- ===== src/Graph/Inference/Index.antt =====
-- The two indexes find the same candidates as a look through all of them.
use nodal_studio.Prelude.{
  ℕ, suc, String, Bool, ◌&&◌, ◌||◌, List, [], ◌∷◌, ◌++◌, ◌≡◌, refl, arith, contains,
  contains-append, contains-of_list, fold, ◌==◌, string_eq, nat_eq, lookup-insert, lookup,
  if◌then◌else◌, eqb, ◌∙◌,
}
use mathlib.Core.Path.{ap₂}
use nodal_studio.Graph.Ids.{SchemaTable}
use nodal_studio.Graph.Inference.{
  Index, found, push, name_of, name_suffixes, Indexes, index_candidate, index_candidates, plural_of,
  matching_places,
}

-- The places, counted from `n`, of the candidates with a property.
abbrev pub places {ℓ} : {A : Type ℓ} → (A → Bool) → ℕ → List A → List ℕ
places p n [] = []
places p n (c ∷ cs) = if p c then n ∷ places p (suc n) cs else places p (suc n) cs

found-push :
    (n m : ℕ) (index : Index) (key name : String)
    → contains m (found name (push n index key))
      ≡ (contains m (found name index) || (key == name && eqb n m))
unfolding push contains
found-push n m index key name = ground (
  arith,
  lookup-insert key name (found key index ++ n ∷ []) index,
  contains-append m (found key index) (n ∷ []),
  string_eq.agree_iff key name,
)

found-pushes :
    (n m : ℕ) (index : Index) (names : List String) (name : String)
    → contains m (found name (fold (push n) index names))
      ≡ (contains m (found name index) || (contains name names && eqb n m))
unfolding contains
found-pushes n m index [] name = ground arith
found-pushes n m index (key ∷ names) name =
    ground (arith, found-pushes n m (push n index key) names name, found-push n m index key name)

found-exact :
    (s : Indexes) (cs : List SchemaTable) (m : ℕ) (name : String)
    → contains m (found name (fold index_candidate s cs).exact)
      ≡ (contains m (found name s.exact) || contains m (places (λ c. name_of c == name) s.at cs))
unfolding index_candidate contains
found-exact s [] m name = ground arith
found-exact s (c ∷ cs) m name =
    ground (
      arith,
      found-exact (index_candidate s c) cs m name,
      found-push s.at m s.exact (name_of c) name,
    )

found-suffix :
    (s : Indexes) (cs : List SchemaTable) (m : ℕ) (name : String)
    → contains m (found name (fold index_candidate s cs).suffix) ≡ (
        contains m (found name s.suffix)
        || contains m (places (λ c. contains name (name_suffixes c)) s.at cs))
unfolding index_candidate contains
found-suffix s [] m name = ground arith
found-suffix s (c ∷ cs) m name = ground (
  arith,
  found-suffix (index_candidate s c) cs m name,
  found-pushes s.at m s.suffix (name_suffixes c) name,
)

-- A candidate is named by the stem, or the plural is its name from some underscore on.
abbrev pub is_named : String → SchemaTable → Bool
is_named stem c = name_of c == stem || contains (plural_of stem) (name_suffixes c)

places-or :
    (p q : SchemaTable → Bool) (n m : ℕ) (cs : List SchemaTable)
    → (contains m (places p n cs) || contains m (places q n cs))
      ≡ contains m (places (λ c. p c || q c) n cs)
unfolding contains
places-or p q n m [] = refl
places-or p q n m (c ∷ cs) = ground (arith, places-or p q (suc n) m cs)

exact_places :
    (cs : List SchemaTable) (m : ℕ) (name : String)
    → contains m (found name (index_candidates cs).exact)
      ≡ contains m (places (λ c. name_of c == name) 0 cs)
unfolding index_candidates contains lookup
exact_places cs m name = found-exact (record { at = 0; exact = []; suffix = [] }) cs m name

suffix_places :
    (cs : List SchemaTable) (m : ℕ) (name : String)
    → contains m (found name (index_candidates cs).suffix)
      ≡ contains m (places (λ c. contains name (name_suffixes c)) 0 cs)
unfolding index_candidates contains lookup
suffix_places cs m name = found-suffix (record { at = 0; exact = []; suffix = [] }) cs m name

-- For every stem the indexes find exactly the places of the candidates that a look through all of
-- them finds.
pub matching_places-index_candidates :
    (candidates : List SchemaTable) (stem : String) (m : ℕ)
    → contains m (matching_places (index_candidates candidates) stem)
      ≡ contains m (places (is_named stem) 0 candidates)
unfolding matching_places
matching_places-index_candidates candidates stem m =
    let index = index_candidates candidates in
    let exact = found stem index.exact in
    let suffix = found (plural_of stem) index.suffix in
    contains-of_list m (exact ++ suffix)
    ∙ contains-append m exact suffix
    ∙ ap₂ ◌||◌ (exact_places candidates m stem) (suffix_places candidates m (plural_of stem))
    ∙ places-or (λ c. name_of c == stem) (λ c. contains (plural_of stem) (name_suffixes c)) 0 m
        candidates
