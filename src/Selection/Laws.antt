-- ===== src/Selection/Laws.antt =====
-- What a selection keeps, and what an addition to a domain changes.
use nodal_studio.Prelude.{
  suc, ◌+◌, ◌-◌, ◌≤◌, Bool, true, false, not, ◌&&◌, ◌||◌, List, [], ◌∷◌, map, contains, add,
  of_list, fold, length, Attempt, thrown, returned, is_returned, Attempt-cases, all-add_all,
  returned_injective, string_eq, ◌==◌, ◌≡◌, refl, ◌∙◌, ap, arith, any, all, contains-add,
  contains-of_list, is_set, is_set-add, length-append, Bool-cases, inl, inr, is_set,
}
use nodal_studio.Model.{DatabaseSnapshot, ObjectKey, object_key, object_key_eq, DomainGroup}
use nodal_studio.Graph.Comparison.{tables_of}
use nodal_studio.Selection.{
  SelectableNode, current_keys, is_deleted, add_selected, selected_current_table_keys, Membership,
  Addition, add_members, finish, input_of, domain_membership_addition,
}

-- The node is selected, is no ghost of a deleted table, and has the key.
abbrev pub selects : ObjectKey → SelectableNode → Bool
selects key node =
    node.selected && (not (is_deleted node.change_status) && object_key node.table.key == key)

contains-add_selected :
    (current result : List ObjectKey) (node : SelectableNode) (key : ObjectKey)
    → contains key (add_selected current result node)
      ≡ (contains key result || (selects key node && contains key current))
unfolding add_selected
contains-add_selected current result node key = ground (
  arith,
  contains-add (object_key node.table.key) key result,
  object_key_eq.agree_iff (object_key node.table.key) key,
)

contains-add_all_selected :
    (current result : List ObjectKey) (nodes : List SelectableNode) (key : ObjectKey)
    → contains key (fold (add_selected current) result nodes)
      ≡ (contains key result || (any (selects key) nodes && contains key current))
contains-add_all_selected current result [] key = ground arith
contains-add_all_selected current result (node ∷ nodes) key = ground (
  arith,
  contains-add_all_selected current (add_selected current result node) nodes key,
  contains-add_selected current result node key,
)

is_set-add_all_selected :
    (current result : List ObjectKey) (nodes : List SelectableNode)
    → is_set result ≡ true
    → is_set (fold (add_selected current) result nodes) ≡ true
unfolding add_selected
is_set-add_all_selected current result [] h = h
is_set-add_all_selected current result (node ∷ nodes) h =
    is_set-add_all_selected current (add_selected current result node) nodes
      (ground (arith, is_set-add (object_key node.table.key) result h))

-- The selected current keys are, without repetition, exactly the keys of selected nodes that are no
-- ghosts of deleted tables and that a table of the snapshot has.
pub selected_current_table_keys_lem :
    (nodes : List SelectableNode) (snapshot : DatabaseSnapshot) (key : ObjectKey)
    → (contains key (selected_current_table_keys nodes snapshot) ≡ (
        any (selects key) nodes
        && contains key (map (λ table. object_key table.key) (tables_of snapshot))))
      × (is_set (selected_current_table_keys nodes snapshot) ≡ true)
unfolding selected_current_table_keys contains is_set
selected_current_table_keys_lem nodes snapshot key = (
  contains-add_all_selected (current_keys snapshot) [] nodes key
      ∙ ap (λ b. any (selects key) nodes && b)
          (contains-of_list key (map (λ table. object_key table.key) (tables_of snapshot))),
  is_set-add_all_selected (current_keys snapshot) [] nodes refl,
)

-- What the loop does to the members and to the count.
record Grown (keys : List ObjectKey) (m n : Membership) : Type 0 where
  members :
      (key : ObjectKey) → contains key n.members ≡ (contains key m.members || contains key keys)
  unique : is_set m.members ≡ true → is_set n.members ≡ true
  count : length n.members + m.added_count ≡ length m.members + n.added_count
  bound : n.added_count ≤ m.added_count + length keys

length-add :
    (key : ObjectKey) (s : List ObjectKey)
    → contains key s ≡ false
    → length (add key s) ≡ suc (length s)
unfolding add
length-add key s h = ground (arith, length-append s (key ∷ []))

add_members-Grown :
    (current keys : List ObjectKey) (m n : Membership)
    → add_members current keys m ≡ returned n
    → Grown keys m n
unfolding add_members contains
add_members-Grown current [] m n h =
    let same : m ≡ n = returned_injective h in
    rw (← same)
      (record { members = λ key. ground arith; unique = λ u. u; count = refl; bound = omega arith })
add_members-Grown current (key ∷ keys) m n h =
    elim (Bool-cases (key.kind == "table" && contains key current)) [
      | inr e ↦ absurd (ground arith)
      | inl e ↦ elim (Bool-cases (contains key m.members)) [
        | inl old ↦
            let g = add_members-Grown current keys m n (ground arith) in
            record {
              members = λ k. ground (arith, g.members k, object_key_eq.agree_iff key k);
              unique = g.unique;
              count = g.count;
              bound = omega (arith, g.bound);
            }
        | inr new ↦
            let next : Membership = record {
              members = add key m.members;
              added_count = suc m.added_count;
            } in
            let g = add_members-Grown current keys next n (ground arith) in
            record {
              members = λ k. ground (arith, g.members k, contains-add key k m.members);
              unique = λ u. g.unique (is_set-add key m.members u);
              count = omega (arith, g.count, length-add key m.members new);
              bound = omega (arith, g.bound);
            }
      ]
    ]

-- An addition that succeeds leaves the domain with exactly its members and the selected keys, counts
-- each selected key once, as added or as a member already, and grows the domain by the added keys.
pub domain_membership_addition-grows :
    (snapshot : DatabaseSnapshot) (group : DomainGroup) (selected : List ObjectKey) (r : Addition)
    → domain_membership_addition snapshot group selected ≡ returned r
    → ((key : ObjectKey)
        → contains key r.input.table_keys
          ≡ (contains key group.table_keys || contains key selected))
      × (r.added_count + r.already_member_count ≡ length (of_list selected))
      × (length r.input.table_keys ≡ length (of_list group.table_keys) + r.added_count)
unfolding domain_membership_addition
domain_membership_addition-grows snapshot group selected r h =
    let start : Membership = record { members = of_list group.table_keys; added_count = 0 } in
    elim (Bool-cases (group.source_id == snapshot.source_id)) [
      | inr e ↦ absurd (ground arith)
      | inl e ↦
          elim (Attempt-cases (add_members (current_keys snapshot) (of_list selected) start)) [
            | inl (message, f) ↦ absurd (ground arith)
            | inr (m, f) ↦
                let g = add_members-Grown (current_keys snapshot) (of_list selected) start m f in
                let made : Addition = record {
                  input = input_of group m.members;
                  added_count = m.added_count;
                  already_member_count = length (of_list selected) - m.added_count;
                } in
                let same : made ≡ r = returned_injective (ground arith) in
                rw (← same) (
                  λ key. ground (
                    arith,
                    g.members key,
                    contains-of_list key group.table_keys,
                    contains-of_list key selected,
                  ),
                  omega (arith, g.bound),
                  omega (arith, g.count),
                )
          ]
    ]

is_returned-add_members :
    (current keys : List ObjectKey) (m : Membership)
    → is_returned (add_members current keys m)
      ≡ all (λ key. key.kind == "table" && contains key current) keys
unfolding add_members
is_returned-add_members current [] m = refl
is_returned-add_members current (key ∷ keys) m = ground (
  arith,
  is_returned-add_members current keys m,
  is_returned-add_members current keys
      (record { members = add key m.members; added_count = suc m.added_count }),
)

is_returned-finish :
    (group : DomainGroup) (selected : List ObjectKey) (o : Attempt Membership)
    → is_returned (finish group selected o) ≡ is_returned o
is_returned-finish group selected (thrown message) = refl
is_returned-finish group selected (returned m) = refl

-- An addition succeeds exactly if the domain belongs to the snapshot's data source and every selected
-- key is one of a current table.
pub is_returned-domain_membership_addition :
    (snapshot : DatabaseSnapshot) (group : DomainGroup) (selected : List ObjectKey)
    → is_returned (domain_membership_addition snapshot group selected) ≡ (
        group.source_id == snapshot.source_id
        && all (λ key. key.kind == "table" && contains key (current_keys snapshot)) selected)
unfolding domain_membership_addition
is_returned-domain_membership_addition snapshot group selected =
    let start : Membership = record { members = of_list group.table_keys; added_count = 0 } in
    ground (
      arith,
      is_returned-finish group (of_list selected)
          (add_members (current_keys snapshot) (of_list selected) start),
      is_returned-add_members (current_keys snapshot) (of_list selected) start,
      all-add_all (λ key. key.kind == "table" && contains key (current_keys snapshot)) [] selected,
    )
