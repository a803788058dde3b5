-- ===== src/Studio/Cascade/Fuel.antt =====
-- src/studio/include/atp/studio/expose_cascade.hpp: the loop of `cascade_lost_aliases` as a relation, and
-- its rounds.
use ani_tools_platform.Prelude.{
  ℕ, zero, suc, ◌≤◌, ◌<◌, ◌≡◌, refl, true, false, ◌||◌, [], ◌∷◌, Option, none, some, length, Text,
  arith, Bool-cases, Option-cases, inl, inr,
}
use ani_tools_platform.Config.Model.{GroupNode, ports}
use ani_tools_platform.Studio.NodeRef.{is_empty, cut_at_last_dot, parse}
use ani_tools_platform.Studio.Lookup.{find_group}
use ani_tools_platform.Studio.Cascade.{
  with_ports, change_group, LostAliases, none_lost, CascadeCount, no_count, drop_references,
  add_count, cascade, cascade_lost_aliases,
}

-- The parent of a path after a round, and what the round makes of the rest.
abbrev pub after_round : GroupNode → Text → LostAliases → GroupNode → GroupNode
after_round root path lost parent =
    change_group (parse path).group
      (with_ports (λ p. (drop_references (parse path).name lost (ports parent)).0)) root

abbrev pub lost_in_round : Text → LostAliases → GroupNode → LostAliases
lost_in_round path lost parent = (drop_references (parse path).name lost (ports parent)).1

abbrev pub count_round : Text → LostAliases → CascadeCount → GroupNode → CascadeCount
count_round path lost n parent =
    add_count n (ports parent) (drop_references (parse path).name lost (ports parent)).0
      (lost_in_round path lost parent)

-- What the loop comes to from a root, a path, the aliases that are lost and what is counted so far,
-- without a bound on its rounds.
pub data Cascades
    : GroupNode → Text → LostAliases → CascadeCount → GroupNode × CascadeCount → Type 0 where
  settled :
      {root : GroupNode} {path : Text} {lost : LostAliases} {n : CascadeCount}
      → (is_empty path || none_lost lost) ≡ true
      → Cascades root path lost n (root, n)
  no_parent :
      {root : GroupNode} {path : Text} {lost : LostAliases} {n : CascadeCount}
      → (is_empty path || none_lost lost) ≡ false
      → find_group root (parse path).group ≡ none
      → Cascades root path lost n (root, n)
  one_round :
      {root : GroupNode} {path : Text} {lost : LostAliases} {n : CascadeCount} {parent : GroupNode}
      {result : GroupNode × CascadeCount}
      → (is_empty path || none_lost lost) ≡ false
      → find_group root (parse path).group ≡ some parent
      → Cascades
          (after_round root path lost parent)
          (parse path).group
          (lost_in_round path lost parent)
          (count_round path lost n parent)
          result
      → Cascades root path lost n result

abbrev pub front_length : Option (Text × Text) → ℕ
front_length none = 0
front_length (some (front, back)) = length front

-- What stands in front of the last dot is shorter than the path.
pub cut_at_last_dot-shorter :
    (c : ℕ) (cs : Text) → front_length (cut_at_last_dot (c ∷ cs)) ≤ length cs
unfolding cut_at_last_dot
cut_at_last_dot-shorter c [] = ground arith
cut_at_last_dot-shorter c (d ∷ cs) = elim (Option-cases (cut_at_last_dot (d ∷ cs))) [
  | inl missing ↦ rw missing (ground arith)
  | inr (parts, there) ↦
      let shorter = rw there at (cut_at_last_dot-shorter d cs) in rw there (omega arith)
]

parse-front : (path : Text) → length (parse path).group ≡ front_length (cut_at_last_dot path)
unfolding parse
parse-front path = elim (Option-cases (cut_at_last_dot path)) [
  | inl missing ↦ rw (parse, missing) refl
  | inr (parts, there) ↦ rw (parse, there) refl
]

parse-shorter : (path : Text) → is_empty path ≡ false → length (parse path).group < length path
parse-shorter [] h = absurd cc
parse-shorter (c ∷ cs) h =
    rw (parse-front (c ∷ cs)) (let shorter = cut_at_last_dot-shorter c cs in omega arith)

cascade-Cascades :
    (fuel : ℕ) (root : GroupNode) (path : Text) (lost : LostAliases) (n : CascadeCount)
    → length path ≤ fuel
    → Cascades root path lost n (cascade fuel root path lost n)
unfolding cascade
cascade-Cascades zero root [] lost n bound = settled refl
cascade-Cascades zero root (c ∷ cs) lost n bound = absurd (omega arith)
cascade-Cascades (suc fuel) root path lost n bound =
    elim (Bool-cases (is_empty path || none_lost lost)) [
      | inl over ↦ rw over (settled over)
      | inr on ↦ elim (Option-cases (find_group root (parse path).group)) [
        | inl missing ↦ rw (on, missing) (no_parent on missing)
        | inr (parent, there) ↦
            rw (on, there)
              (one_round on there (
                cascade-Cascades fuel (after_round root path lost parent) (parse path).group
                  (lost_in_round path lost parent) (count_round path lost n parent)
                  (let shorter = parse-shorter path (nonempty path on) in omega arith)))
      ]
    ]
  where
    nonempty : (path : Text) → (is_empty path || none_lost lost) ≡ false → is_empty path ≡ false
    nonempty [] h = absurd cc
    nonempty (c ∷ cs) h = refl

-- Whatever the groups, the path and the lost aliases: the rounds counted by the length of the path lead to
-- where the loop ends, with what it has changed and counted until then.
pub cascade_lost_aliases-Cascades :
    (root : GroupNode) (path : Text) (lost : LostAliases)
    → Cascades root path lost no_count (cascade_lost_aliases root path lost)
unfolding cascade_lost_aliases
cascade_lost_aliases-Cascades root path lost =
    cascade-Cascades (length path) root path lost no_count (omega arith)
