-- ===== src/Runtime/Cascade/Initialize.antt =====
-- The initialisation cascade of src/runtime/include/atp/runtime/group.hpp and its rollback.
use mathlib.Core.List.{reverse}
use ani_tools_platform.Prelude.{ℕ, ◌≡◌, refl, List, [], ◌∷◌, ◌++◌, arith}
use ani_tools_platform.Runtime.Tree.{Group, Children, group, end, leaf, sub, leaves, leaves_in}
use ani_tools_platform.Runtime.Cascade.{
  Modules, Trace, Child, plain, subgroup, initialize_leaf, stop_leaf, stop, roll_back, initialize,
  initialize_children,
}
use ani_tools_platform.Runtime.Cascade.Flat.{
  stop_all, stop_all-append, initialize_all, initialize_all-done, initialize_all-append,
}
use ani_tools_platform.Runtime.Cascade.Stop.{stop-eq-stop_all}

flat_done : List Child → List ℕ
flat_done [] = []
flat_done (plain a ∷ done) = a ∷ flat_done done
flat_done (subgroup g ∷ done) = reverse (leaves g) ++ flat_done done

module _ (m : Modules) where
  roll_back_flat :
      (done : List Child) (t : Trace) → roll_back m done t ≡ (stop_all m (flat_done done) t).0
  unfolding roll_back flat_done stop_all
  roll_back_flat [] t = refl
  roll_back_flat (plain a ∷ done) t = roll_back_flat done (stop_leaf m a t).0
  roll_back_flat (subgroup g ∷ done) t =
      rw (stop_all-append m, ← stop-eq-stop_all m g t) (roll_back_flat done (stop m g t).0)

  mutual
    unfolding initialize leaves flat_done initialize_all

    initialize_flat : (g : Group) (t : Trace) → initialize m g t ≡ initialize_all m (leaves g) [] t
    initialize_flat (group i cs) t = initialize_children_flat cs [] t

    initialize_children_flat :
        (cs : Children) (done : List Child) (t : Trace)
        → initialize_children m cs done t ≡ initialize_all m (leaves_in cs) (flat_done done) t
    initialize_children_flat end done t = refl
    initialize_children_flat (leaf n a cs) done t = ground (
      arith,
      initialize_children_flat cs (plain a ∷ done) (initialize_leaf m a t).0,
      roll_back_flat done (initialize_leaf m a t).0,
    )
    initialize_children_flat (sub n d g cs) done t = ground (
      arith,
      initialize_flat g t,
      initialize_all-append m (leaves g) (leaves_in cs) (flat_done done) t,
      initialize_all-done m (leaves g) [] (flat_done done) t,
      initialize_children_flat cs (subgroup g ∷ done) (initialize m g t).0,
      roll_back_flat done (initialize m g t).0,
    )

  -- However the modules are nested in groups, initialising a group calls `initialize` on its modules
  -- in insertion order; if one throws, exactly the modules initialised before it are stopped, in the
  -- reverse order, whatever those stops throw, and the exception of the module that failed goes on.
  pub initialize-eq-initialize_all :
      (g : Group) (t : Trace) → initialize m g t ≡ initialize_all m (leaves g) [] t
  initialize-eq-initialize_all g t = initialize_flat g t
