-- ===== src/GitlabClient/Pages/Exact.antt =====
-- A listing that is read page by page is read whole.
use gitlab_copilot_agent.Prelude.{
  ℕ, zero, suc, ◌+◌, ◌*◌, ◌≤◌, ◌<◌, Text, List, [], ◌∷◌, ◌++◌, false, some, Option, ◌≡◌, refl, inl,
  inr, Bool-cases, ltb, ltb→lt, arith, sym, ◌∙◌, ap, length, take, drop, length-take, length-drop,
}
use native.Mathlib.Nat.{zero-add, suc-add}
use mathlib.Core.List.{append-nil}
use gitlab_copilot_agent.Effects.{Result, ok, Py}
use gitlab_copilot_agent.Json.{Json}
use gitlab_copilot_agent.GitlabClient.{Response, Http, HttpLog, sent, page_size}
use gitlab_copilot_agent.GitlabClient.Recover.{IsFinal, request-accepted}
use gitlab_copilot_agent.GitlabClient.Pages.{
  Params, page_request, page_items, after_page, pages, paginate,
}

module _ {ℓ} {A : Type ℓ} where
  take-nil : (n : ℕ) → take {A = A} n [] ≡ []
  take-nil zero = refl
  take-nil (suc n) = refl

  take-add : (m n : ℕ) (xs : List A) → take (m + n) xs ≡ take m xs ++ take n (drop m xs)
  take-add zero n xs = rw zero-add refl
  take-add (suc m) n [] = rw (take-nil (suc m + n), take-nil n) refl
  take-add (suc m) n (x ∷ xs) = rw suc-add (ap (λ (ys : List A). x ∷ ys) (take-add m n xs))

  take-all : (n : ℕ) (xs : List A) → length xs ≤ n → take n xs ≡ xs
  take-all zero [] h = refl
  take-all (suc n) [] h = refl
  take-all zero (x ∷ xs) h = absurd (omega arith)
  take-all (suc n) (x ∷ xs) h = ap (λ (ys : List A). x ∷ ys) (take-all n xs (omega arith))

-- What GitLab shows on the page after `p` pages.
abbrev pub page_after : List Json → ℕ → List Json
page_after items p = take page_size (drop (page_size * p) items)

at_least : (a b : ℕ) → ltb a b ≡ false → b ≤ a
at_least a b h = ground arith

module _ (http : Http) (items_of : Response → Result (List Json)) (path : Text) (params : Params)
    (items : List Json) where
  -- Each page of the listing is answered, accepted and read.
  pub record IsListed : Type 0 where
    pub page : ℕ → Response
    pub answered :
        (p : ℕ) (log : HttpLog) → http.answer log (page_request path params (suc p)) ≡ ok (page p)
    pub final : (p : ℕ) → IsFinal http (page p)
    pub read : (p : ℕ) → items_of (page p) ≡ ok (page_after items p)

module _ (http : Http) (items_of : Response → Result (List Json)) (path : Text) (params : Params)
    (items : List Json) (listed : IsListed http items_of path params items) where
  page_items-listed :
      (p : ℕ) (log : HttpLog)
      → page_items http items_of path params (suc p) log
        ≡ (ok (page_after items p), log ++ sent (page_request path params (suc p)) ∷ [])
  unfolding page_items
  page_items-listed p log =
      rw
        (
          request-accepted http (page_request path params (suc p)) log (listed.page p)
              (listed.answered p log) (listed.final p),
          listed.read p,
        )
        refl

  -- What the loop has after one more page.
  taken :
      (p : ℕ) → take (page_size * p) items ++ page_after items p ≡ take (page_size * suc p) items
  taken p = sym (take-add (page_size * p) page_size items) ∙ ap (λ n. take n items) (omega arith)

  short_listing :
      (p : ℕ) → length (page_after items p) < page_size → length items ≤ page_size * p + page_size
  short_listing p short = ground (
    arith,
    length-take page_size (drop (page_size * p) items),
    length-drop (page_size * p) items,
    short,
  )

  -- A page that is not full is the last.
  last_page :
      (p : ℕ)
      → length (page_after items p) < page_size
      → take (page_size * p) items ++ page_after items p ≡ items
  last_page p short =
      taken p ∙ take-all (page_size * suc p) items (omega (arith, short_listing p short))

  full_listing :
      (p : ℕ) → page_size ≤ length (page_after items p) → page_size * suc p ≤ length items
  full_listing p full = ground (
    arith,
    length-take page_size (drop (page_size * p) items),
    length-drop (page_size * p) items,
    full,
  )

  joined :
      (p : ℕ) (ys : List Json)
      → page_after items p ≡ ys
      → take (page_size * p) items ++ ys ≡ take (page_size * suc p) items
  joined p ys e = ap (λ (zs : List Json). take (page_size * p) items ++ zs) (sym e) ∙ taken p

  whole :
      (p : ℕ) (ys : List Json)
      → page_after items p ≡ ys
      → length ys < page_size
      → take (page_size * p) items ++ ys ≡ items
  whole p ys e short =
      ap (λ (zs : List Json). take (page_size * p) items ++ zs) (sym e) ∙ last_page p (rw e short)

  after_page-listed :
      (p : ℕ) (more : List Json → Py HttpLog (Option (List Json))) (log : HttpLog) (ys : List Json)
      → page_after items p ≡ ys
      → (page_size * suc p ≤ length items
          → (more (take (page_size * suc p) items) log).0 ≡ ok (some items))
      → (after_page http items_of (take (page_size * p) items) more ys log).0 ≡ ok (some items)
  unfolding after_page
  after_page-listed p more log [] e h =
      ap (λ (all : List Json). ok (some all))
        (sym (append-nil (take (page_size * p) items)) ∙ whole p [] e (omega arith))
  after_page-listed p more log (y ∷ ys) e h = elim (Bool-cases (ltb (length (y ∷ ys)) page_size)) [
    | inl short ↦ rw short (
        ap (λ (all : List Json). ok (some all))
          (whole p (y ∷ ys) e (ltb→lt (length (y ∷ ys)) page_size short)))
    | inr full ↦
        rw (full, joined p (y ∷ ys) e)
          (h (full_listing p (rw e (at_least (length (y ∷ ys)) page_size full))))
  ]

  pages-listed :
      (fuel p : ℕ) (log : HttpLog)
      → page_size * p ≤ length items
      → length items < page_size * (p + fuel)
      → (pages http items_of fuel path params (suc p) (take (page_size * p) items) log).0
        ≡ ok (some items)
  unfolding pages
  pages-listed zero p log read enough = absurd (omega arith)
  pages-listed (suc fuel) p log read enough = rw (page_items-listed p log) (
      after_page-listed p (pages http items_of fuel path params (suc (suc p))) _
        (page_after items p) refl (λ more. pages-listed fuel (suc p) _ more (omega arith)))

  -- Where GitLab answers each page of a listing, a hundred items to a page, and the answers are accepted and read, `_paginate`
  -- returns the whole listing, in order and with nothing twice: also when its length is a multiple of a hundred, so that the page after the
  -- last is empty, and when the listing is empty. The loop ends: a page for each full hundred, and one, are enough.
  pub paginate-listed :
      (fuel : ℕ) (log : HttpLog)
      → length items < page_size * fuel
      → (paginate http items_of fuel path params log).0 ≡ ok (some items)
  unfolding paginate
  paginate-listed fuel log enough = pages-listed fuel 0 log (omega arith) (omega arith)
