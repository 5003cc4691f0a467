-- ===== src/Tests/Levels.antt =====
-- Level sets and degrees of freedom of small levels.
use dis_co_tec.Prelude.{arith, ◌≡◌, refl, [], ◌∷◌, keep_if, length, product, true}
use dis_co_tec.Prelude.Int.{pos, ◌+ℤ◌, ◌-ℤ◌, sum_ℤ}
use dis_co_tec.Level.{
  LevelVector, ok, get_num_dof_nodal_grid, get_num_dof_hierarchical_subspaces, get_down_set,
}
use dis_co_tec.Level.DownSet.{box, length-get_down_set}
use dis_co_tec.Level.Dof.{nodal-hierarchical}
use dis_co_tec.Level.Truncated.{create_truncated_rec, budget, please_add}
use dis_co_tec.Level.Truncated.Closed.{
  accepted, accepted-anti, create_truncated_rec-keep_if, fits_budget,
}

abbrev grid : LevelVector
grid = 2 ∷ 3 ∷ []

nodal-hierarchical_example :
    get_num_dof_nodal_grid grid (1 ∷ 2 ∷ [])
    ≡ ok (get_num_dof_hierarchical_subspaces (get_down_set grid) (1 ∷ 2 ∷ []))
nodal-hierarchical_example =
    nodal-hierarchical grid (1 ∷ 2 ∷ []) refl (omega arith, (omega arith, tt))

length-get_down_set_example : length (get_down_set grid) ≡ product grid
length-get_down_set_example = length-get_down_set grid

create_truncated_rec_example :
    create_truncated_rec grid 1 (pos 1 ∷ pos 2 ∷ []) [] []
    ≡ keep_if (accepted 1 (pos 1 ∷ pos 2 ∷ []) []) (box grid)
create_truncated_rec_example = create_truncated_rec-keep_if 1 (pos 1 ∷ pos 2 ∷ []) 2 (3 ∷ [])

grid_accepted : accepted 1 (pos 1 ∷ pos 2 ∷ []) [] (1 ∷ 3 ∷ []) ≡ true
unfolding accepted ◌+ℤ◌ ◌-ℤ◌ sum_ℤ fits_budget budget please_add
grid_accepted = refl

accepted-anti_example : accepted 1 (pos 1 ∷ pos 2 ∷ []) [] (1 ∷ 2 ∷ []) ≡ true
accepted-anti_example =
    accepted-anti 1 (pos 1 ∷ pos 2 ∷ []) (1 ∷ 2 ∷ []) (1 ∷ 3 ∷ []) (omega arith, (omega arith, tt))
      grid_accepted
