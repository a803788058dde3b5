-- ===== src/Runtime/Runner/Layout/Threads.antt =====
-- The thread of each group, by recursion over the tree, and the map that
-- src/runtime/include/atp/runtime/pipeline_runner.hpp builds in one loop.
use ani_tools_platform.Prelude.{
  ℕ, suc, ◌≡◌, refl, sym, ◌∙◌, ap, false, List, [], ◌∷◌, ◌++◌, append_assoc, append-nil, Option,
  none, some, arith, ok, All,
}
use ani_tools_platform.Prelude.Assoc.{lookup, put, lookup-put, nat_eq}
use ani_tools_platform.Io.Output.{member}
use ani_tools_platform.Io.Output.Connect.{Distinct, member-append}
use ani_tools_platform.Runtime.Tree.{
  Group, Children, group, end, leaf, sub, addresses, addresses_in,
}
use ani_tools_platform.Runtime.Runner.Layout.{
  GroupNode, collect_groups, collect_in, Threads, thread_at, inherited, map_threads,
}

-- A group runs on the thread that it is assigned to, and otherwise on that of the group around it.
unfoldable pub own_thread : List (ℕ × ℕ) → ℕ → ℕ → ℕ
own_thread assigned around a = elim (lookup a assigned) [ none ↦ around | some t ↦ t ]

unfoldable mutual
  unfolding own_thread

  pub threads_of : List (ℕ × ℕ) → ℕ → Group → Threads
  threads_of assigned around (group i cs) =
      (i.address, own_thread assigned around i.address)
      ∷ threads_in assigned (own_thread assigned around i.address) cs

  pub threads_in : List (ℕ × ℕ) → ℕ → Children → Threads
  threads_in assigned around end = []
  threads_in assigned around (leaf n a cs) = threads_in assigned around cs
  threads_in assigned around (sub n d g cs) =
      threads_of assigned around g ++ threads_in assigned around cs

abbrev pub keys : Threads → List ℕ
keys [] = []
keys ((a, t) ∷ l) = a ∷ keys l

unfoldable pub puts : Threads → Threads → Threads
puts [] m = m
puts ((a, t) ∷ l) m = puts l (put a t m)

-- How many of the groups are assigned, on top of `k`.
unfoldable pub count_assigned : List (ℕ × ℕ) → Threads → ℕ → ℕ
count_assigned assigned [] k = k
count_assigned assigned ((a, t) ∷ l) k =
    count_assigned assigned l (elim (lookup a assigned) [ none ↦ k | some own ↦ suc k ])

puts-append : (l r m : Threads) → puts (l ++ r) m ≡ puts r (puts l m)
unfolding puts
puts-append [] r m = refl
puts-append ((a, t) ∷ l) r m = puts-append l r (put a t m)

count_assigned-append :
    (assigned : List (ℕ × ℕ)) (l r : Threads) (k : ℕ)
    → count_assigned assigned (l ++ r) k ≡ count_assigned assigned r (count_assigned assigned l k)
unfolding count_assigned
count_assigned-append assigned [] r k = refl
count_assigned-append assigned ((a, t) ∷ l) r k = count_assigned-append assigned l r _

keys-append : (l r : Threads) → keys (l ++ r) ≡ keys l ++ keys r
keys-append [] r = refl
keys-append ((a, t) ∷ l) r = ap (◌∷◌ a) (keys-append l r)

lookup-puts : (p : ℕ) (l m : Threads) → member p (keys l) ≡ false → lookup p (puts l m) ≡ lookup p m
unfolding puts member
lookup-puts p [] m h = refl
lookup-puts p ((a, t) ∷ l) m h = ground (arith, lookup-puts p l (put a t m), lookup-put a p t m)

mutual
  unfolding threads_of addresses

  pub keys-threads_of :
      (assigned : List (ℕ × ℕ)) (around : ℕ) (g : Group)
      → keys (threads_of assigned around g) ≡ addresses g
  keys-threads_of assigned around (group i cs) =
      ap (◌∷◌ i.address) (keys-threads_in assigned (own_thread assigned around i.address) cs)

  keys-threads_in :
      (assigned : List (ℕ × ℕ)) (around : ℕ) (cs : Children)
      → keys (threads_in assigned around cs) ≡ addresses_in cs
  keys-threads_in assigned around end = refl
  keys-threads_in assigned around (leaf n a cs) = keys-threads_in assigned around cs
  keys-threads_in assigned around (sub n d g cs) =
      keys-append (threads_of assigned around g) (threads_in assigned around cs)
      ∙ cc (keys-threads_of assigned around g, keys-threads_in assigned around cs)

Distinct-split : (xs ys : List ℕ) → Distinct (xs ++ ys) → Distinct xs × Distinct ys
unfolding member
Distinct-split [] ys d = (tt, d)
Distinct-split (x ∷ xs) ys d = ground (arith, member-append x xs ys, Distinct-split xs ys d.1)

not_member-append :
    (a : ℕ) (xs ys : List ℕ)
    → member a (xs ++ ys) ≡ false
    → (member a xs ≡ false) × (member a ys ≡ false)
not_member-append a xs ys h = ground (arith, member-append a xs ys)

pub lookup-put_self : (a t : ℕ) (m : Threads) → lookup a (put a t m) ≡ some t
lookup-put_self a t m = ground (arith, lookup-put a a t m)

thread_at-eq : (a t : ℕ) (m : Threads) → lookup a m ≡ some t → thread_at a m ≡ ok t
thread_at-eq a t m h = ground arith

-- What the loop does to its map and its count over one group and its subgroups.
abbrev Walked : List (ℕ × ℕ) → Threads → List GroupNode → Threads → ℕ → Type 0
Walked assigned placed nodes m k =
    (rest : List GroupNode)
    → map_threads assigned (nodes ++ rest) (m, k)
      ≡ map_threads assigned rest (puts placed m, count_assigned assigned placed k)

mutual
  unfolding map_threads collect_groups threads_of puts count_assigned addresses

  walk_group :
      (assigned : List (ℕ × ℕ)) (g : Group) (parent : Option ℕ) (around : ℕ) (m : Threads) (k : ℕ)
      → Distinct (addresses g)
      → inherited parent m ≡ ok around
      → Walked assigned (threads_of assigned around g) (collect_groups g parent) m k
  walk_group assigned (group i cs) parent around m k d h rest =
      let own : ℕ = own_thread assigned around i.address in
      let k' : ℕ = elim (lookup i.address assigned) [ none ↦ k | some t ↦ suc k ] in
      ground (
        arith,
        h,
        walk_children assigned cs i.address own (put i.address own m) k' d.1 d.0
            (lookup-put_self i.address own m) rest,
      )

  walk_children :
      (assigned : List (ℕ × ℕ)) (cs : Children) (p around : ℕ) (m : Threads) (k : ℕ)
      → Distinct (addresses_in cs)
      → member p (addresses_in cs) ≡ false
      → lookup p m ≡ some around
      → Walked assigned (threads_in assigned around cs) (collect_in cs p) m k
  walk_children assigned end p around m k d fresh h rest = refl
  walk_children assigned (leaf n a cs) p around m k d fresh h rest =
      walk_children assigned cs p around m k d fresh h rest
  walk_children assigned (sub n dt g cs) p around m k d fresh h rest =
      let placed = threads_of assigned around g in
      let apart = Distinct-split (addresses g) (addresses_in cs) d in
      let outside = not_member-append p (addresses g) (addresses_in cs) fresh in
      rw append_assoc (
        walk_group assigned g (some p) around m k apart.0 (thread_at-eq p around m h)
          (collect_in cs p ++ rest)
        ∙ walk_children assigned cs p around (puts placed m) (count_assigned assigned placed k)
            apart.1 outside.1
            (lookup-puts p placed m (rw (keys-threads_of assigned around g) outside.0) ∙ h) rest
        ∙ rw (puts-append placed, count_assigned-append assigned placed) refl)

-- The map that the loop builds from a whole pipeline.
pub map_threads-eq :
    (assigned : List (ℕ × ℕ)) (g : Group)
    → Distinct (addresses g)
    → map_threads assigned (collect_groups g none) ([], 0)
      ≡ ok (puts (threads_of assigned 0 g) [], count_assigned assigned (threads_of assigned 0 g) 0)
unfolding map_threads
map_threads-eq assigned g d =
    ap (λ l. map_threads assigned l ([], 0)) (sym (append-nil (collect_groups g none)))
    ∙ walk_group assigned g none 0 [] 0 d refl []

-- What was put under distinct keys is found again.
pub lookup-puts-All :
    (l m : Threads) → Distinct (keys l) → All (λ e. lookup e.0 (puts l m) ≡ some e.1) l
unfolding puts
lookup-puts-All [] m d = tt
lookup-puts-All ((a, t) ∷ l) m d =
    (lookup-puts a l (put a t m) d.0 ∙ lookup-put_self a t m, lookup-puts-All l (put a t m) d.1)
