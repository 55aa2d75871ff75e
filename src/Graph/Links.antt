-- ===== src/Graph/Links.antt =====
-- The adjacency maps of graph/schema-graph.ts and graph/layout-components.ts: a Map of Sets.
use nodal_studio.Prelude.{
  String, Bool, true, ◌&&◌, ◌||◌, List, [], none, some, ◌≡◌, refl, arith, contains, contains-add,
  add, lookup-insert, lookup, insert, or_else, is_some, ◌==◌, string_eq, Option-cases, inl, inr,
}

abbrev pub Adjacency : Type 0
Adjacency = List (String × List String)

-- `adjacency.get(id) ?? []`
abbrev pub neighbors : Adjacency → String → List String
neighbors adj id = or_else (lookup id adj) []

abbrev pub has : String → Adjacency → Bool
has id adj = is_some (lookup id adj)

-- `adjacency.get(from)?.add(to)`
unfoldable pub link : String → String → Adjacency → Adjacency
link from to adj = elim (lookup from adj) [ none ↦ adj | some s ↦ insert from (add to s) adj ]

unfoldable pub join : String → String → Adjacency → Adjacency
unfolding link
join a b adj = link b a (link a b adj)

-- `y` stands in the set of `x`.
abbrev pub near : Adjacency → String → String → Bool
near adj x y = contains y (neighbors adj x)

-- A relationship between `a` and `b` joins `x` and `y`, in one direction or the other.
abbrev pub joins : String → String → String → String → Bool
joins a b x y = (a == x && b == y) || (b == x && a == y)

has-link : (a b x : String) (adj : Adjacency) → has x (link a b adj) ≡ has x adj
unfolding link
has-link a b x adj = elim (Option-cases (lookup a adj)) [
  | inl e ↦ rw (e, link) refl
  | inr (s, e) ↦ ground (arith, lookup-insert a x (add b s) adj, string_eq.agree_iff a x)
]

near-link :
    (a b x y : String) (adj : Adjacency)
    → near (link a b adj) x y ≡ (near adj x y || (has a adj && (a == x && b == y)))
unfolding link
near-link a b x y adj = elim (Option-cases (lookup a adj)) [
  | inl e ↦ rw e (ground arith)
  | inr (s, e) ↦
      rw e (
        ground
          (arith, lookup-insert a x (add b s) adj, contains-add b y s, string_eq.agree_iff a x))
]

pub has-join : (a b x : String) (adj : Adjacency) → has x (join a b adj) ≡ has x adj
unfolding join
has-join a b x adj = rw (has-link, has-link) refl

-- Between tables that are both known, `join` adds the pair in both directions.
pub near-join :
    (a b x y : String) (adj : Adjacency)
    → has a adj ≡ true
    → has b adj ≡ true
    → near (join a b adj) x y ≡ (near adj x y || joins a b x y)
unfolding join
near-join a b x y adj p q =
    ground (arith, near-link b a x y (link a b adj), near-link a b x y adj, has-link a b b adj)
