-- ===== src/Services/Round/Weights.antt =====
-- `select_top_n_pool` of src/canterlot/utils/weighting.py. The weights are floating-point numbers that the
-- code only compares here, so they are numbers in the order of the weights.
use canterlot_api.Base.{
  ℕ, Bool, List, [], ◌∷◌, map, ◌&&◌, ◌||◌, ltb, leb, ◌==◌, take, if◌then◌else◌,
}
use canterlot_api.Models.{CatalogEntry}

-- the key of `sorted`: the weight, heaviest first, then `suggested_at`
abbrev pub comes_before : (ℕ → ℕ) → CatalogEntry → CatalogEntry → Bool
comes_before weights d e =
    ltb (weights e.book_id) (weights d.book_id)
    || weights d.book_id == weights e.book_id && leb d.suggested_at e.suggested_at

-- `sorted`, which is stable
abbrev pub placed_in : (ℕ → ℕ) → CatalogEntry → List CatalogEntry → List CatalogEntry
placed_in weights e [] = e ∷ []
placed_in weights e (d ∷ ds) =
    if comes_before weights e d then e ∷ d ∷ ds else d ∷ placed_in weights e ds

abbrev pub sorted : (ℕ → ℕ) → List CatalogEntry → List CatalogEntry
sorted weights [] = []
sorted weights (e ∷ es) = placed_in weights e (sorted weights es)

abbrev pub pool_max : ℕ
pool_max = 5

abbrev pub select_top_n_pool : List CatalogEntry → (ℕ → ℕ) → List ℕ
select_top_n_pool entries weights =
    map (λ (e : CatalogEntry). e.book_id) (take pool_max (sorted weights entries))
