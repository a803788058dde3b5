-- ===== src/Runtime/Cascade/Stop.antt =====
-- The stop and start cascades of src/runtime/include/atp/runtime/group.hpp, whatever the nesting.
use mathlib.Core.List.{reverse, reverse-append, reverse-cons}
use ani_tools_platform.Prelude.{◌≡◌, refl, arith}
use ani_tools_platform.Runtime.Tree.{Group, Children, group, end, leaf, sub, leaves, leaves_in}
use ani_tools_platform.Runtime.Cascade.{
  Modules, Trace, start_leaf, stop, stop_children, start, start_children,
}
use ani_tools_platform.Runtime.Cascade.Flat.{
  stop_all, start_all, start_all-append, stop_all-append, first-none,
}

module _ (m : Modules) where
  mutual
    unfolding stop leaves stop_all

    stop_flat : (g : Group) (t : Trace) → stop m g t ≡ stop_all m (reverse (leaves g)) t
    stop_flat (group i cs) t = stop_children_flat cs t

    stop_children_flat :
        (cs : Children) (t : Trace) → stop_children m cs t ≡ stop_all m (reverse (leaves_in cs)) t
    stop_children_flat end t = refl
    stop_children_flat (leaf n a cs) t =
        rw
          (
            reverse-cons a (leaves_in cs),
            stop_all-append m,
            ← stop_children_flat cs t,
            first-none m,
          )
          refl
    stop_children_flat (sub n d g cs) t =
        rw
          (
            reverse-append (leaves g) (leaves_in cs),
            stop_all-append m,
            ← stop_children_flat cs t,
            ← stop_flat g,
          )
          refl

  -- However the modules are nested in groups, stopping a group calls `stop` once on each of its
  -- modules, in the reverse of the insertion order, goes on past those that throw, and rethrows the
  -- first exception.
  pub stop-eq-stop_all : (g : Group) (t : Trace) → stop m g t ≡ stop_all m (reverse (leaves g)) t
  stop-eq-stop_all g t = stop_flat g t

  mutual
    unfolding start leaves start_all

    start_flat : (g : Group) (t : Trace) → start m g t ≡ start_all m (leaves g) t
    start_flat (group i cs) t = start_children_flat cs t

    start_children_flat :
        (cs : Children) (t : Trace) → start_children m cs t ≡ start_all m (leaves_in cs) t
    start_children_flat end t = refl
    start_children_flat (leaf n a cs) t =
        ground (arith, start_children_flat cs (start_leaf m a t).0)
    start_children_flat (sub n d g cs) t = ground (
      arith,
      start_flat g t,
      start_all-append m (leaves g) (leaves_in cs) t,
      start_children_flat cs (start m g t).0,
    )

  -- Starting a group calls `start` on its modules in insertion order, up to the first that throws.
  pub start-eq-start_all : (g : Group) (t : Trace) → start m g t ≡ start_all m (leaves g) t
  start-eq-start_all g t = start_flat g t
