-- ===== src/Runtime/Tree.antt =====
-- src/runtime/include/atp/runtime/group.hpp: the tree of groups and modules. An object is known by
-- its address, a number; a module that is no group is known by nothing else, its code being the
-- plugin's.
use ani_tools_platform.Prelude.{ℕ, Bool, List, [], ◌∷◌, ◌++◌, Text}

pub data WorkStatus : Type 0 where
  idle busy : WorkStatus

-- The members of a group, but for its children. `inputs` and `outputs` are the aliases that it
-- exposes, `connections` the pairs of an output and an input, in creation order.
pub record GroupInfo : Type 0 where
  pub address : ℕ
  pub name : Text
  pub metrics_enabled : Bool
  pub connections : List (ℕ × ℕ)
  pub inputs : List (Text × ℕ)
  pub outputs : List (Text × ℕ)

-- The children in insertion order: each has a name in the group's scope, and a subgroup a flag that
-- it is detached.
mutual
  pub data Group : Type 0 where
    group : GroupInfo → Children → Group

  pub data Children : Type 0 where
    end : Children
    leaf : Text → ℕ → Children → Children
    sub : Text → Bool → Group → Children → Children

abbrev pub info : Group → GroupInfo
info (group i cs) = i

abbrev pub children : Group → Children
children (group i cs) = cs

abbrev pub address : Group → ℕ
address g = (info g).address

-- The modules of the subtree that are no groups, in insertion order.
unfoldable mutual
  pub leaves : Group → List ℕ
  leaves (group i cs) = leaves_in cs

  pub leaves_in : Children → List ℕ
  leaves_in end = []
  leaves_in (leaf n a cs) = a ∷ leaves_in cs
  leaves_in (sub n d g cs) = leaves g ++ leaves_in cs

-- The addresses of a group and of the groups inside it, each before its subgroups.
unfoldable mutual
  pub addresses : Group → List ℕ
  addresses (group i cs) = i.address ∷ addresses_in cs

  pub addresses_in : Children → List ℕ
  addresses_in end = []
  addresses_in (leaf n a cs) = addresses_in cs
  addresses_in (sub n d g cs) = addresses g ++ addresses_in cs
