-- ===== src/Web/Site/Paging.antt =====
-- The links to the pages of a table: those that have rows, and 21 at most.
use flashaccess.Base.{
  ℕ, zero, suc, ◌+◌, ◌*◌, ltb, ◌&&◌, Option, none, some, List, [], ◌∷◌, if◌then◌else◌, itoa, ℤ, ◌≡◌,
  subst, arith,
}
use flashaccess.Web.Site.{PageLink}
use flashaccess.Web.Site.Pages.{page_links, is_at}

unfoldable pub link_at {ℓ} : {A : Type ℓ} → ℕ → List A → Option A
link_at k [] = none
link_at zero (x ∷ xs) = some x
link_at (suc k) (x ∷ xs) = link_at k xs

-- the link to the page number `k`, counted from 0
abbrev pub link_to : ℕ → ℕ → ℤ → PageLink
link_to k limit offset = record {
  label = itoa (k + 1);
  offset = k * limit;
  active = is_at offset (k * limit);
}

page_links-link_at :
    (left i limit total k : ℕ) (offset : ℤ)
    → link_at k (page_links left i limit total offset) ≡ (
        if ltb k left && ltb ((i + k) * limit) total
        then some (link_to (i + k) limit offset)
        else none)
unfolding link_at page_links
page_links-link_at zero i limit total k offset = ground arith
page_links-link_at (suc left) i limit total zero offset = ground arith
page_links-link_at (suc left) i limit total (suc k) offset =
    ground (arith, page_links-link_at left (i + 1) limit total k offset)

-- The links of a page of a table are those to the first 21 of its pages that have rows: the link
-- number `k` is the one to the rows from `k * limit` on, where there are such rows and `k < 21`, and
-- there is none otherwise.
page_links-link_to :
    (limit total k : ℕ) (offset : ℤ)
    → link_at k (page_links 21 0 limit total offset)
      ≡ (if ltb k 21 && ltb (k * limit) total then some (link_to k limit offset) else none)
page_links-link_to limit total k offset =
    subst
      (λ j.
        link_at k (page_links 21 0 limit total offset)
        ≡ (if ltb k 21 && ltb (j * limit) total then some (link_to j limit offset) else none))
      (omega arith) (page_links-link_at 21 0 limit total k offset)
