-- ===== src/Config/Node/Laws.antt =====
-- The entries of the objects of include/atp/config/node.hpp.
use ani_tools_platform.Prelude.{◌≡◌, refl, List, [], ◌∷◌, Text, ap}
use ani_tools_platform.Config.Node.{Node, to_list, to_items, to_entries, to_fields}

pub to_list-to_items : (js : List Node) → to_list (to_items js) ≡ js
unfolding to_list to_items
to_list-to_items [] = refl
to_list-to_items (j ∷ js) = ap (λ l. j ∷ l) (to_list-to_items js)

pub to_entries-to_fields : (es : List (Text × Node)) → to_entries (to_fields es) ≡ es
unfolding to_entries to_fields
to_entries-to_fields [] = refl
to_entries-to_fields ((k, v) ∷ es) = ap (λ l. (k, v) ∷ l) (to_entries-to_fields es)
