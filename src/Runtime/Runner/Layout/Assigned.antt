-- ===== src/Runtime/Runner/Layout/Assigned.antt =====
-- src/runtime/include/atp/runtime/pipeline_runner.hpp: the assignments that `build_thread_map`
-- counts.
use ani_tools_platform.Prelude.{
  ℕ, suc, ◌+◌, ◌≤◌, ◌≡◌, refl, sym, ap, ◌⊎◌, inl, inr, true, false, List, [], ◌∷◌, none, some, ◌==◌,
  arith, if◌then◌else◌, ok, err, length, All, Bool-cases,
}
use ani_tools_platform.Prelude.Assoc.{lookup, nat_eq}
use ani_tools_platform.Io.Output.{member}
use ani_tools_platform.Io.Output.Connect.{Distinct}
use ani_tools_platform.Runtime.Tree.{Group, addresses}
use ani_tools_platform.Runtime.Runner.{foreign_group}
use ani_tools_platform.Runtime.Runner.Layout.{collect_groups, Threads, build_thread_map}
use ani_tools_platform.Runtime.Runner.Layout.Threads.{
  threads_of, keys, puts, count_assigned, keys-threads_of, map_threads-eq, lookup-puts-All,
}

-- How many of `xs` are among `ys`.
hits : List ℕ → List ℕ → ℕ
hits [] ys = 0
hits (x ∷ xs) ys = (if member x ys then 1 else 0) + hits xs ys

hits-cons :
    (x : ℕ) (xs ys : List ℕ)
    → Distinct ys
    → member x xs ≡ false
    → hits ys (x ∷ xs) ≡ (if member x ys then 1 else 0) + hits ys xs
unfolding hits member
hits-cons x xs [] d h = refl
hits-cons x xs (y ∷ ys) d h = ground (arith, hits-cons x xs ys d.1 h)

hits-nil : (ys : List ℕ) → hits ys [] ≡ 0
unfolding hits member
hits-nil [] = refl
hits-nil (y ∷ ys) = omega (arith, hits-nil ys)

hits_comm : (xs ys : List ℕ) → Distinct xs → Distinct ys → hits xs ys ≡ hits ys xs
unfolding hits
hits_comm [] ys dx dy = sym (hits-nil ys)
hits_comm (x ∷ xs) ys dx dy = omega (arith, hits-cons x xs ys dy dx.0, hits_comm xs ys dx.1 dy)

hits-le : (xs ys : List ℕ) → hits xs ys ≤ length xs
unfolding hits
hits-le [] ys = omega arith
hits-le (x ∷ xs) ys = ground (arith, hits-le xs ys)

hits-All : (xs ys : List ℕ) → hits xs ys ≡ length xs → All (λ x. member x ys ≡ true) xs
unfolding hits
hits-All [] ys h = tt
hits-All (x ∷ xs) ys h = ground (arith, hits-le xs ys, hits-All xs ys)

hits_of_All : (xs ys : List ℕ) → All (λ x. member x ys ≡ true) xs → hits xs ys ≡ length xs
unfolding hits
hits_of_All [] ys h = refl
hits_of_All (x ∷ xs) ys h = ground (arith, hits_of_All xs ys)

member-keys :
    (a : ℕ) (assigned : Threads)
    → (elim (lookup a assigned) [ none ↦ false | some t ↦ true ]) ≡ member a (keys assigned)
unfolding lookup member
member-keys a [] = refl
member-keys a ((j, t) ∷ rest) = ground (arith, member-keys a rest)

count-hits :
    (assigned l : Threads) (k : ℕ) → count_assigned assigned l k ≡ k + hits (keys l) (keys assigned)
unfolding count_assigned hits
count-hits assigned [] k = omega arith
count-hits assigned ((a, t) ∷ l) k =
    ground (arith, member-keys a assigned, count-hits assigned l k, count-hits assigned l (suc k))

length-keys : (l : Threads) → length (keys l) ≡ length l
length-keys [] = refl
length-keys ((a, t) ∷ l) = ap suc (length-keys l)

abbrev pub AllInside : Threads → Group → Type 0
AllInside assigned g = All (λ a. member a (addresses g) ≡ true) (keys assigned)

count-eq-hits :
    (assigned : Threads) (g : Group)
    → Distinct (addresses g)
    → Distinct (keys assigned)
    → count_assigned assigned (threads_of assigned 0 g) 0 ≡ hits (keys assigned) (addresses g)
count-eq-hits assigned g d e = omega (
  arith,
  count-hits assigned (threads_of assigned 0 g) 0,
  ap (λ l. hits l (keys assigned)) (keys-threads_of assigned 0 g),
  hits_comm (addresses g) (keys assigned) d e,
)

-- For a tree of distinct groups the map of threads is built exactly when every assigned group is
-- part of the pipeline, and it then gives every group the thread that it is assigned to, or that of
-- the group around it, or the first thread at the root. Otherwise the start is refused as having an
-- assigned group that is not part of the pipeline.
pub build_thread_map_lem :
    (assigned : Threads) (g : Group)
    → Distinct (addresses g)
    → Distinct (keys assigned)
    → (AllInside assigned g
        × (All
            (λ e. lookup e.0 (puts (threads_of assigned 0 g) []) ≡ some e.1)
            (threads_of assigned 0 g))
        × (build_thread_map assigned (collect_groups g none)
            ≡ ok (puts (threads_of assigned 0 g) [])))
      ⊎ ((¬ AllInside assigned g)
          × (build_thread_map assigned (collect_groups g none) ≡ err foreign_group))
unfolding build_thread_map
build_thread_map_lem assigned g d e =
    elim (Bool-cases (count_assigned assigned (threads_of assigned 0 g) 0 == length assigned)) [
      | inl same ↦ inl (
        hits-All (keys assigned) (addresses g)
            (ground (arith, same, count-eq-hits assigned g d e, length-keys assigned)),
        lookup-puts-All (threads_of assigned 0 g) [] (rw (keys-threads_of assigned 0 g) d),
        rw (map_threads-eq assigned g d, same) refl,
      )
      | inr other ↦ inr (
        λ all. absurd (
            ground (
              arith,
              count-eq-hits assigned g d e,
              length-keys assigned,
              other,
              hits_of_All (keys assigned) (addresses g) all,
            )),
        rw (map_threads-eq assigned g d, other) refl,
      )
    ]
