-- ===== src/Product/Normalize/Pages/Bounds.antt =====
-- How many pages frontend/lib/product-api/normalize.ts counts where the answer does not say.
use Prim.Native.Nat.{◌/◌, max}
use reinforcement_learning_c.Prelude.{
  ℕ, ◌+◌, ◌-◌, ◌*◌, ◌≤◌, ◌<◌, ◌≡◌, ◌⊎◌, inl, inr, suc, zero, String, none, Ensures, Ensures-eq-ok,
  >>=-Ensures_any, ok, List, [], ◌∷◌, refl, arith,
}
use reinforcement_learning_c.Json.{Number, Json, Fields, natural_part}
use reinforcement_learning_c.Product.Normalize.{first, optional_integer}
use reinforcement_learning_c.Product.Normalize.Experiments.{
  ExperimentListItem, experiment_list_item,
}
use reinforcement_learning_c.Product.Normalize.Catalog.{map_items}
use reinforcement_learning_c.Product.Normalize.Pages.{
  Candidate, list_candidate, experiment_page, whole, page_count, ExperimentPage, page_with,
}

ceiling_bounds : (t s : ℕ) → 0 < s → (t ≤ (t + s - 1) / s * s) × ((t + s - 1) / s * s < t + s)
ceiling_bounds t s h = grind arith

-- There is one page at least, the pages hold all items, and all but the last are full.
pub record IsPageCount (count size total : ℕ) : Type 0 where
  pub one : 1 ≤ count
  pub enough : total ≤ count * size
  pub no_more : (count ≡ 1) ⊎ ((count - 1) * size < total)

max-IsPageCount : (q t s : ℕ) → 0 < s → t ≤ q * s → q * s < t + s → IsPageCount (max 1 q) s t
max-IsPageCount zero t s pos low high = record {
  one = omega arith;
  enough = grind arith;
  no_more = inl refl;
}
max-IsPageCount (suc k) t s pos low high =
    let same : max 1 (suc k) ≡ suc k = omega arith in
    rw same (record { one = omega arith; enough = low; no_more = inr (grind arith) })

page_count-IsPageCount :
    (total size : Number)
    → IsPageCount (page_count total size) (max (natural_part size) 1) (natural_part total)
unfolding page_count
page_count-IsPageCount total size =
    let pos : 0 < max (natural_part size) 1 = omega arith in
    let (low, high) = ceiling_bounds (natural_part total) (max (natural_part size) 1) pos in
    max-IsPageCount _ (natural_part total) (max (natural_part size) 1) pos low high

abbrev total_pages_keys : List String
total_pages_keys = "total_pages" ∷ "totalPages" ∷ "pages" ∷ []

-- The number of pages of a page of the list, where it was counted.
pub IsCounted : ExperimentPage → Type 0
IsCounted p =
    (count : ℕ) × (p.total_pages ≡ whole count)
    × IsPageCount count (max (natural_part p.page_size) 1) (natural_part p.total_items)

page_with-IsCounted :
    (metadata : Fields) (items : List ExperimentListItem) (page size : ℕ)
    → optional_integer (first total_pages_keys metadata) ≡ none
    → IsCounted (page_with metadata items page size)
unfolding page_with IsCounted
page_with-IsCounted metadata items page size unsaid =
    let p : ExperimentPage = page_with metadata items page size in
    (
      page_count p.total_items p.page_size,
      rw unsaid,
      page_count-IsPageCount p.total_items p.page_size,
    )

-- Where the answer does not say how many pages there are, the page that is read names one page at
-- least, these pages hold all items that it names, and all of them but the last are full.
pub experiment_page-IsCounted :
    (payload : Json) (page size : ℕ) {c : Candidate} {p : ExperimentPage}
    → list_candidate payload ≡ ok c
    → optional_integer (first total_pages_keys c.metadata) ≡ none
    → experiment_page payload page size ≡ ok p
    → IsCounted p
unfolding experiment_page
experiment_page-IsCounted payload page size {c} listed unsaid e =
    let kept : Ensures IsCounted (experiment_page payload page size) = rw listed (
      >>=-Ensures_any IsCounted (map_items experiment_list_item c.items) _
        λ items. page_with-IsCounted c.metadata items page size unsaid) in
    Ensures-eq-ok IsCounted (experiment_page payload page size) kept e
