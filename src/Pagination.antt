-- ===== src/Pagination.antt =====
-- src/canterlot/pagination.py
pub mod Whole
use canterlot_api.Base.{ℕ, ◌+◌, ◌-◌, ◌*◌, ◌/◌, Bool, List, map, length, take, drop, ltb}

pub record Page (A : Type 0) : Type 0 where
  pub items : List A
  pub total_items : ℕ
  pub current_page : ℕ
  pub page_size : ℕ

module _ {A : Type 0} where
  -- `items[start:end]`; pages count from 1. `page` and `limit` are 1 at least, as the validation of a
  -- request's parameters and of the page itself demands.
  abbrev pub page_of : List A → ℕ → ℕ → Page A
  page_of items page limit = record {
    items = take limit (drop ((page - 1) * limit) items);
    total_items = length items;
    current_page = page;
    page_size = limit;
  }

  -- The same values around the mapped items.
  abbrev pub page_map : {B : Type 0} → (A → B) → Page A → Page B
  page_map f p = record {
    items = map f p.items;
    total_items = p.total_items;
    current_page = p.current_page;
    page_size = p.page_size;
  }

  -- `-(-total_items // page_size)`, the quotient rounded up
  abbrev pub total_pages : Page A → ℕ
  total_pages p = (p.total_items + p.page_size - 1) / p.page_size

  abbrev pub has_next : Page A → Bool
  has_next p = ltb p.current_page (total_pages p)

  abbrev pub has_previous : Page A → Bool
  has_previous p = ltb 1 p.current_page
