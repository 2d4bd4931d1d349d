-- ===== src/Counting/Project.antt =====
-- `project_items_from` of src/2-items/Count.cxx: the counter of some of the frequent items, made from
-- the counter of all. `none` is the `exit` at an infrequent item, or an access outside a vector.
use bitdrill.Base.{ℕ, ◌&&◌, Option, some, none, List, [], ◌∷◌, length, get_elem?, set}
use bitdrill.Base.{if◌then◌else◌, ltb, leb, ◌>>=◌}
use bitdrill.Graph.{resize_list, num_uedges, vertex_induced_subgraph}
use bitdrill.TransactionSet.{has_item, insert_sorted}
use bitdrill.Counting.{TsCounter}

-- The loop of `project_items_from` that copies the counts, and exits at an infrequent item.
unfoldable pub copy_counts : List ℕ → ℕ → List ℕ → List ℕ → Option (List ℕ)
copy_counts [] support from count = some count
copy_counts (item ∷ items) support from count = do
  c ← get_elem? from item
  let rest = copy_counts items support from (set count item c)
  if ltb item (length count) && leb support c then rest else none

-- The set of the vertices of the items.
unfoldable pub vertices_of : List ℕ → List (Option ℕ) → Option (List ℕ)
unfolding insert_sorted has_item
vertices_of [] item_f = some []
vertices_of (item ∷ items) item_f = do
  vertex ← get_elem? item_f item
  v ← vertex
  rest ← vertices_of items item_f
  some (if has_item rest v then rest else insert_sorted v rest)

-- `project_items_from (counter, items)`.
unfoldable pub project_items_from : TsCounter → List ℕ → TsCounter → Option TsCounter
unfolding copy_counts vertices_of vertex_induced_subgraph num_uedges
project_items_from counter items c = do
  count ←
      copy_counts items counter.support counter.count (resize_list (length counter.count) 0 c.count)
  fitems ← vertices_of items counter.item_f
  f2 ← vertex_induced_subgraph counter.f2 fitems c.f2
  f2_load ← vertex_induced_subgraph counter.f2_load fitems c.f2_load
  some (record c {
    support = counter.support;
    frequent = items;
    item_f = counter.item_f;
    f_item = counter.f_item;
    count = count;
    f2 = f2;
    f2_load = f2_load;
    f2_edges = num_uedges f2;
  })
