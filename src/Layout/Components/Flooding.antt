-- ===== src/Layout/Components/Flooding.antt =====
-- One flood of a component: what its loop keeps, and that it ends with an empty queue.
use nodal_studio.Prelude.{
  ℕ, zero, suc, ◌+◌, ◌≤◌, String, true, false, not, ◌&&◌, ◌||◌, List, [], ◌∷◌, none, some, is_some,
  ◌≡◌, refl, arith, Bool-cases, inl, inr, lookup, insert, lookup-insert, fold, ◌==◌, string_eq,
  agree_refl, contains, contains-append, filter, length, length-append, length-filter,
  if◌then◌else◌, sym, ◌∙◌, Option-cases, List-cases, length-zero, ◌⊎◌,
}
use nodal_studio.Graph.Links.{Adjacency, neighbors, near}
use nodal_studio.Layout.Components.{
  LayoutNodeInput, LayoutEdgeInput, Owner, Flood, owned, reach, flood, adjacency, is_listed,
}
use nodal_studio.Layout.Components.Connected.{
  Connected, here, along, Connected-sym, Connected-trans, near-adjacency, near-sym, near-listed,
}

-- The owners after the neighbors `ns` were reached.
owner-reaches :
    (k : ℕ) (s : Flood) (ns : List String) (v : String)
    → lookup v (fold (reach k) s ns).by_node
      ≡ (if owned v s then lookup v s.by_node else if contains v ns then some k else none)
unfolding reach contains
owner-reaches k s [] v = ground arith
owner-reaches k s (n ∷ ns) v = ground (
  arith,
  owner-reaches k (reach k s n) ns v,
  lookup-insert n v k s.by_node,
  string_eq.agree_iff n v,
)

queue-reaches :
    (k : ℕ) (s : Flood) (ns : List String) (v : String)
    → contains v (fold (reach k) s ns).queue
      ≡ (contains v s.queue || (contains v ns && not (owned v s)))
unfolding reach contains
queue-reaches k s [] v = ground arith
queue-reaches k s (n ∷ ns) v = ground (
  arith,
  queue-reaches k (reach k s n) ns v,
  lookup-insert n v k s.by_node,
  string_eq.agree_iff n v,
  contains-append v s.queue (n ∷ []),
)

-- The nodes that no component owns.
abbrev pub free : List LayoutNodeInput → Owner → ℕ
free nodes by_node = length (filter (λ node. not (is_some (lookup node.id by_node))) nodes)

pub free-length :
    (nodes : List LayoutNodeInput) (by_node : Owner) → free nodes by_node ≤ length nodes
free-length nodes by_node = length-filter (λ node. not (is_some (lookup node.id by_node))) nodes

free-insert :
    (nodes : List LayoutNodeInput) (by_node : Owner) (id : String) (k : ℕ)
    → free nodes (insert id k by_node) ≤ free nodes by_node
free-insert [] by_node id k = omega arith
free-insert (n ∷ nodes) by_node id k =
    ground (arith, free-insert nodes by_node id k, lookup-insert id n.id k by_node)

free-insert_listed :
    (nodes : List LayoutNodeInput) (by_node : Owner) (id : String) (k : ℕ)
    → is_listed nodes id ≡ true
    → lookup id by_node ≡ none
    → suc (free nodes (insert id k by_node)) ≤ free nodes by_node
free-insert_listed [] by_node id k h e = cc
free-insert_listed (n ∷ nodes) by_node id k h e = ground (
  arith,
  free-insert_listed nodes by_node id k,
  free-insert nodes by_node id k,
  lookup-insert id n.id k by_node,
  string_eq.agree_iff n.id id,
  string_eq.agree_iff id n.id,
)

free-reaches :
    (nodes : List LayoutNodeInput) (k : ℕ) (s : Flood) (ns : List String)
    → ((v : String) → contains v ns ≡ true → is_listed nodes v ≡ true)
    → length (fold (reach k) s ns).queue + free nodes (fold (reach k) s ns).by_node
      ≤ length s.queue + free nodes s.by_node
unfolding reach contains
free-reaches nodes k s [] h = omega arith
free-reaches nodes k s (n ∷ ns) h = ground (
  arith,
  free-reaches nodes k (reach k s n) ns (λ v p. h v (ground arith)),
  free-insert_listed nodes s.by_node n k (h n (ground (arith, agree_refl n))),
  length-append s.queue (n ∷ []),
)

flood-done :
    (adj : Adjacency) (k fuel : ℕ) (s : Flood) → s.queue ≡ [] → flood adj k (suc fuel) s ≡ s
unfolding flood
flood-done adj k fuel s e = ground arith

flood-next :
    (adj : Adjacency) (k fuel : ℕ) (s : Flood) (id : String) (rest : List String)
    → s.queue ≡ id ∷ rest
    → flood adj k (suc fuel) s
      ≡ flood adj k fuel (fold (reach k) (record s { queue = rest }) (neighbors adj id))
unfolding flood
flood-next adj k fuel s id rest e = ground arith

module _ (nodes : List LayoutNodeInput) (edges : List LayoutEdgeInput) where
  -- What the loop over the queue keeps.
  pub record Inv (k : ℕ) (s : Flood) : Type 0 where
    pub sound :
        (u v : String) (j : ℕ)
        → lookup u s.by_node ≡ some j
        → lookup v s.by_node ≡ some j
        → Connected nodes edges u v
    pub closed :
        (u v : String) (j : ℕ)
        → lookup u s.by_node ≡ some j
        → near (adjacency nodes edges) u v ≡ true
        → contains u s.queue ≡ false
        → lookup v s.by_node ≡ some j
    pub active : (u : String) → contains u s.queue ≡ true → lookup u s.by_node ≡ some k
    pub bound : (u : String) (j : ℕ) → lookup u s.by_node ≡ some j → j ≤ k

  module _ (k : ℕ) (s : Flood) (id : String) (rest : List String) (inv : Inv k s)
      (split : s.queue ≡ id ∷ rest) where
    abbrev popped : Flood
    popped = record s { queue = rest }

    abbrev ns : List String
    ns = neighbors (adjacency nodes edges) id

    abbrev next : Flood
    next = fold (reach k) popped ns

    queued : (v : String) → contains v s.queue ≡ (id == v || contains v rest)
    unfolding contains
    queued v = rw split refl

    id_owner : lookup id s.by_node ≡ some k
    id_owner = inv.active id (ground (arith, queued id, agree_refl id))

    -- A neighbor of `id` belongs to the component after the step.
    neighbor_owner : (v : String) → contains v ns ≡ true → lookup v next.by_node ≡ some k
    neighbor_owner v m = elim (Option-cases (lookup v s.by_node)) [
      | inl e ↦ ground (arith, owner-reaches k popped ns v)
      | inr (j, e) ↦ elim (Bool-cases (contains v s.queue)) [
        | inl q ↦ ground (arith, owner-reaches k popped ns v, inv.active v q)
        | inr q ↦
            let back = inv.closed v id j e (near-sym nodes edges id v m) q in
            ground (arith, owner-reaches k popped ns v, sym back ∙ id_owner)
      ]
    ]

    -- An owner after the step is one before it, or `k` for a neighbor of `id`.
    owner-next :
        (v : String) (j : ℕ)
        → lookup v next.by_node ≡ some j
        → (lookup v s.by_node ≡ some j)
          ⊎ ((j ≡ k) × (contains v ns ≡ true) × (lookup v s.by_node ≡ none))
    owner-next v j e = elim (Option-cases (lookup v s.by_node)) [
      | inl f ↦ inr (ground (arith, owner-reaches k popped ns v))
      | inr (i, f) ↦ inl (ground (arith, owner-reaches k popped ns v))
    ]

    touching : (v : String) → contains v ns ≡ true → Connected nodes edges id v
    touching v m = along here (sym (near-adjacency nodes edges id v) ∙ m)

    sound_next :
        (u v : String) (j : ℕ)
        → lookup u next.by_node ≡ some j
        → lookup v next.by_node ≡ some j
        → Connected nodes edges u v
    sound_next u v j e f = elim (owner-next u j e) [
      | inl a ↦ elim (owner-next v j f) [
        | inl b ↦ inv.sound u v j a b
        | inr (same, m, _) ↦
            Connected-trans (inv.sound u id j a (ground (arith, id_owner))) (touching v m)
      ]
      | inr (same, m, _) ↦ elim (owner-next v j f) [
        | inl b ↦
            Connected-trans (Connected-sym (touching u m))
              (inv.sound id v j (ground (arith, id_owner)) b)
        | inr (_, n, _) ↦ Connected-trans (Connected-sym (touching u m)) (touching v n)
      ]
    ]

    closed_next :
        (u v : String) (j : ℕ)
        → lookup u next.by_node ≡ some j
        → near (adjacency nodes edges) u v ≡ true
        → contains u next.queue ≡ false
        → lookup v next.by_node ≡ some j
    closed_next u v j e m q = elim (owner-next u j e) [
      | inl a ↦ elim (Bool-cases (id == u)) [
        | inl p ↦
            let same : id ≡ u = (string_eq.agree_iff id u).0 p in
            (let found : lookup v next.by_node ≡ some k = neighbor_owner v (rw same m) in
              let own : lookup id s.by_node ≡ some j = rw same a in ground (arith, id_owner))
        | inr p ↦ ground (
          arith,
          owner-reaches k popped ns v,
          inv.closed u v j a m,
          queued u,
          queue-reaches k popped ns u,
        )
      ]
      | inr (same, n, f) ↦ ground (arith, queue-reaches k popped ns u)
    ]

    pub Inv-step : Inv k next
    Inv-step = record {
      sound = sound_next;
      closed = closed_next;
      active = λ u q. ground (
        arith,
        queue-reaches k popped ns u,
        neighbor_owner u,
        inv.active u,
        queued u,
        owner-reaches k popped ns u,
      );
      bound = λ u j e. elim (owner-next u j e) [
        | inl a ↦ inv.bound u j a
        | inr (same, _, _) ↦ omega arith
      ];
    }

    pub fuel-step :
        (fuel : ℕ)
        → length s.queue + free nodes s.by_node ≤ suc fuel
        → length next.queue + free nodes next.by_node ≤ fuel
    fuel-step fuel h =
        let size : length s.queue ≡ suc (length rest) = rw split refl in
        omega
          (arith, free-reaches nodes k popped ns (λ v m. near-listed nodes edges id v m), h, size)

  -- With enough fuel the loop ends with an empty queue and keeps its invariant.
  pub flood-Inv :
      (k fuel : ℕ) (s : Flood)
      → Inv k s
      → length s.queue + free nodes s.by_node ≤ fuel
      → Inv k (flood (adjacency nodes edges) k fuel s)
        × ((flood (adjacency nodes edges) k fuel s).queue ≡ [])
  unfolding flood
  flood-Inv k zero s inv h = (inv, length-zero s.queue (omega arith))
  flood-Inv k (suc fuel) s inv h = elim (List-cases s.queue) [
    | inl e ↦ rw (flood-done _ k fuel s e) (inv, e)
    | inr (id, rest, e) ↦
        rw (flood-next _ k fuel s id rest e)
          (flood-Inv k fuel _ (Inv-step k s id rest inv e) (fuel-step k s id rest inv e fuel h))
  ]

-- An owned node stays owned.
pub owned-flood :
    (nodes : List LayoutNodeInput) (edges : List LayoutEdgeInput) (k fuel : ℕ) (s : Flood)
    (v : String)
    → owned v s ≡ true
    → owned v (flood (adjacency nodes edges) k fuel s) ≡ true
unfolding flood
owned-flood nodes edges k zero s v h = h
owned-flood nodes edges k (suc fuel) s v h = elim (List-cases s.queue) [
  | inl e ↦ rw (flood-done _ k fuel s e) h
  | inr (id, rest, e) ↦
      let ns = neighbors (adjacency nodes edges) id in
      rw (flood-next _ k fuel s id rest e) (
        owned-flood nodes edges k fuel _ v
          (ground (arith, owner-reaches k (record s { queue = rest }) ns v)))
]
