-- ===== src/Graph/Related/Levels.antt =====
-- The level loop collects exactly what a walk of at most that many relationships reaches.
use nodal_studio.Prelude.{
  ℕ, zero, suc, ◌+◌, String, Bool, true, false, not, ◌&&◌, ◌||◌, List, [], ◌∷◌, ◌≡◌, ◌↔◌, arith,
  inl, inr, contains, contains-add, contains-of_list, fold, any, string_eq, agree_refl, Bool-cases,
  of_list, sym, ◌∙◌,
}
use mathlib.Core.Path.{subst}
use native.Mathlib.Nat.{zero-add}
use nodal_studio.Model.{LogicalRelationship}
use nodal_studio.Graph.Ids.{SchemaTable}
use nodal_studio.Graph.Related.{adjacency, Search, visit, expand, level_loop, related_table_ids}
use nodal_studio.Graph.Links.{Adjacency, neighbors, near}
use nodal_studio.Graph.Walks.{Within, root, hop, Within-suc, Within-map}
use nodal_studio.Graph.Related.Linked.{linked, near-adjacency}

included-visits :
    (s : Search) (ns : List String) (v : String)
    → contains v (fold visit s ns).included ≡ (contains v s.included || contains v ns)
unfolding visit contains
included-visits s [] v = ground arith
included-visits s (n ∷ ns) v =
    ground (arith, included-visits (visit s n) ns v, contains-add n v s.included)

next-visits :
    (s : Search) (ns : List String) (v : String)
    → contains v (fold visit s ns).next
      ≡ (contains v s.next || (contains v ns && not (contains v s.included)))
unfolding visit contains
next-visits s [] v = ground arith
next-visits s (n ∷ ns) v = ground (
  arith,
  next-visits (visit s n) ns v,
  contains-add n v s.included,
  contains-add n v s.next,
  string_eq.agree_iff n v,
)

module _ (adj : Adjacency) where
  -- `v` is a neighbor of one of `ids`.
  abbrev beside : List String → String → Bool
  beside ids v = any (λ id. near adj id v) ids

  included-expands :
      (s : Search) (ids : List String) (v : String)
      → contains v (fold (expand adj) s ids).included ≡ (contains v s.included || beside ids v)
  unfolding expand
  included-expands s [] v = ground arith
  included-expands s (id ∷ ids) v =
      ground
        (arith, included-expands (expand adj s id) ids v, included-visits s (neighbors adj id) v)

  next-expands :
      (s : Search) (ids : List String) (v : String)
      → contains v (fold (expand adj) s ids).next
        ≡ (contains v s.next || (beside ids v && not (contains v s.included)))
  unfolding expand
  next-expands s [] v = ground arith
  next-expands s (id ∷ ids) v = ground (
    arith,
    next-expands (expand adj s id) ids v,
    next-visits s (neighbors adj id) v,
    included-visits s (neighbors adj id) v,
  )

  -- One round of the level loop.
  abbrev round : Search → Search
  round s = fold (expand adj) (record s { next = [] }) s.next

  beside-intro :
      (ids : List String) (u v : String)
      → contains u ids ≡ true
      → near adj u v ≡ true
      → beside ids v ≡ true
  unfolding contains
  beside-intro [] u v h k = cc
  beside-intro (id ∷ ids) u v h k = ground (arith, beside-intro ids u v, string_eq.agree_iff id u)

  beside-elim :
      (ids : List String) (v : String)
      → beside ids v ≡ true
      → (u : String) × (contains u ids ≡ true) × (near adj u v ≡ true)
  unfolding contains
  beside-elim [] v h = cc
  beside-elim (id ∷ ids) v h = elim (Bool-cases (near adj id v)) [
    | inl here ↦ (id, ground (arith, agree_refl id), here)
    | inr other ↦ let (u, listed, n) = beside-elim ids v (ground arith) in (u, ground arith, n)
  ]

module _ (adj : Adjacency) (roots : List String) where
  -- The invariant of the loop after `n` levels.
  record Inv (n : ℕ) (s : Search) : Type 0 where
    sound : (v : String) → contains v s.included ≡ true → Within (near adj) roots n v
    complete : (v : String) → Within (near adj) roots n v → contains v s.included ≡ true
    frontier : (v : String) → contains v s.next ≡ true → contains v s.included ≡ true
    closed :
        (u v : String)
        → contains u s.included ≡ true
        → near adj u v ≡ true
        → contains u s.next ≡ false
        → contains v s.included ≡ true

  now :
      (s : Search) (v : String)
      → contains v (round adj s).included ≡ (contains v s.included || beside adj s.next v)
  now s v = included-expands adj (record s { next = [] }) s.next v

  fresh :
      (s : Search) (v : String)
      → contains v (round adj s).next ≡ (beside adj s.next v && not (contains v s.included))
  unfolding contains
  fresh s v = next-expands adj (record s { next = [] }) s.next v

  round_sound :
      (n : ℕ) (s : Search) (v : String)
      → Inv n s
      → contains v (round adj s).included ≡ true
      → Within (near adj) roots (suc n) v
  round_sound n s v h m = elim (Bool-cases (contains v s.included)) [
    | inl old ↦ Within-suc (h.sound v old)
    | inr new ↦
        let (u, listed, k) = beside-elim adj s.next v (ground (arith, now s v)) in
        hop (h.sound u (h.frontier u listed)) k
  ]

  round_step :
      (n : ℕ) (s : Search) (u v : String)
      → Inv n s
      → contains u s.included ≡ true
      → near adj u v ≡ true
      → contains v (round adj s).included ≡ true
  round_step n s u v h m k = elim (Bool-cases (contains u s.next)) [
    | inl active ↦ ground (arith, now s v, beside-intro adj s.next u v active k)
    | inr done ↦ ground (arith, now s v, h.closed u v m k done)
  ]

  round_complete :
      (n : ℕ) (s : Search) (v : String)
      → Inv n s
      → Within (near adj) roots (suc n) v
      → contains v (round adj s).included ≡ true
  round_complete n s v h (root r) = ground (arith, now s v, h.complete v (root r))
  round_complete n s v h (hop {u} w k) = round_step n s u v h (h.complete u w) k

  Inv-round : (n : ℕ) (s : Search) → Inv n s → Inv (suc n) (round adj s)
  Inv-round n s h = record {
    sound = λ v. round_sound n s v h;
    complete = λ v. round_complete n s v h;
    frontier = λ v m. ground (arith, now s v, fresh s v);
    closed = λ u v m k e. round_step n s u v h (ground (arith, now s u, fresh s u)) k;
  }

  Inv-level_loop : (depth n : ℕ) (s : Search) → Inv n s → Inv (depth + n) (level_loop adj depth s)
  unfolding level_loop
  Inv-level_loop zero n s h = rw (zero-add) h
  Inv-level_loop (suc depth) n s h =
      let e : depth + suc n ≡ suc depth + n = omega arith in
      subst (λ k. Inv k (level_loop adj depth (round adj s))) e
        (Inv-level_loop depth (suc n) (round adj s) (Inv-round n s h))

  Within-zero : {v : String} → Within (near adj) roots zero v → contains v roots ≡ true
  Within-zero (root h) = h

  Inv-start : Inv zero (record { included = of_list roots; next = of_list roots })
  Inv-start = record {
    sound = λ v m. root (ground (arith, contains-of_list v roots));
    complete = λ v w. ground (arith, contains-of_list v roots, Within-zero w);
    frontier = λ v m. m;
    closed = λ u v m k e. cc;
  }

-- Exactly the tables that a walk of at most `depth` relationships reaches from a root are related.
-- Two tables are linked if a foreign key of a listed table, or a live logical relationship between
-- known tables, joins them in either direction.
pub related_table_ids_iff :
    (tables : List SchemaTable) (roots : List String) (depth : ℕ)
    (logical : List LogicalRelationship) (v : String)
    → (contains v (related_table_ids tables roots depth logical) ≡ true)
      ↔ Within (linked tables logical) roots depth v
unfolding related_table_ids
related_table_ids_iff tables roots depth logical v =
    let adj = adjacency tables logical in
    let inv = Inv-level_loop adj roots depth 0 _ (Inv-start adj roots) in
    let e : depth + 0 ≡ depth = omega arith in
    let same = near-adjacency tables logical in
    (
      λ m.
          Within-map (λ x y k. sym (same x y) ∙ k)
            (subst (λ n. Within (near adj) roots n v) e (inv.sound v m)),
      λ w.
          inv.complete v (
            subst (λ n. Within (near adj) roots n v) (sym e)
              (Within-map (λ x y k. same x y ∙ k) w)),
    )
