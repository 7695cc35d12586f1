-- ===== src/WalletReads/Paging.antt =====
-- Following the cursors of `listByWalletId` reads the whole history of a wallet, newest first, each row
-- once.
use mathlib.Core.Path.{subst}
use mathlib.Core.List.{append_assoc, append-nil}
use prestohq_assessment.Prelude.{
  ℕ, zero, suc, ◌+◌, ◌-◌, ◌≤◌, ◌<◌, String, ◌≡◌, refl, sym, ap, ◌∙◌, inl, inr, true, false, Option,
  none, some, [], ◌∷◌, ◌++◌, ltb, find, arith, Bool-cases,
}
use prestohq_assessment.Prelude.Lists.{
  length, take, Split, cut_at, take_all, take-take-suc, length-take-le, length-take-suc,
}
use prestohq_assessment.Db.{State, WalletTransactionEntity}
use prestohq_assessment.Exec.{Result, ok, err}
use prestohq_assessment.Journal.{Rows, by_id}
use prestohq_assessment.WalletReads.Distinct.{Distinct, Distinct-before, Distinct-history}
use prestohq_assessment.WalletReads.{
  PageQuery, ListWalletTransactionsParams, ListWalletTransactionsResult, history, math_max,
  page_limit, last_id, page_of, list_by_wallet_id,
}

-- What the service relies on: without a cursor a query starts at the first row, with one it starts
-- behind the first row of that identifier.
pub record IsPageQuery (query : PageQuery) : Type 0 where
  pub from_start : (rows : Rows) (n : ℕ) → query.find_many rows none n ≡ take n rows
  pub from_cursor :
      (before behind : Rows) (r : WalletTransactionEntity) (n : ℕ)
      → find (by_id r.id) before ≡ none
      → query.find_many (before ++ r ∷ behind) (some r.id) n ≡ take n behind

-- The limit that is used lies between 1 and 100, whatever was asked.
pub page_limit_bounds : (limit : Option ℕ) → (1 ≤ page_limit limit) × (page_limit limit ≤ 100)
unfolding page_limit
page_limit_bounds none = ground arith
page_limit_bounds (some n) = ground arith

-- A page has at most as many rows as its limit.
pub length-page_of-le : (limit : ℕ) (rows : Rows) → length (page_of limit rows).items ≤ limit
unfolding page_of
length-page_of-le limit rows = elim (Bool-cases (ltb limit (length rows))) [
  | inl more ↦ rw more (length-take-le limit rows)
  | inr all ↦ rw all (ground arith)
]

-- What the caller of `listByWalletId` may rely on: a page of no more rows than the limit allows
abbrev pub IsBounded : Option ℕ → Result ListWalletTransactionsResult × State → Type 0
IsBounded none (ok page, s) = length page.items ≤ 20
IsBounded (some n) (ok page, s) = (length page.items ≤ 100) × (length page.items ≤ math_max n 1)
IsBounded limit (err e, s) = ⊥

within :
    (limit : Option ℕ) (rows : Rows) (s : State)
    → IsBounded limit (ok (page_of (page_limit limit) rows), s)
unfolding page_limit
within none rows s = length-page_of-le 20 rows
within (some n) rows s =
    let size = length-page_of-le (page_limit (some n)) rows in
    (omega (arith, size, page_limit_bounds (some n)), ground (arith, size))

last_id-append : (rows : Rows) (r : WalletTransactionEntity) → last_id (rows ++ r ∷ []) ≡ some r.id
unfolding last_id
last_id-append [] r = refl
last_id-append (q ∷ []) r = refl
last_id-append (q ∷ p ∷ rows) r = last_id-append (p ∷ rows) r

-- A client that follows the cursors, for at most so many pages
unfoldable pub collect : (Option String → Rows) → Result ListWalletTransactionsResult × State → Rows
collect next (err e, s) = []
collect next (ok page, s) =
    page.items ++ (elim page.next_cursor [ none ↦ [] | some c ↦ next (some c) ])

unfoldable pub read_all :
    PageQuery → String → (limit : Option ℕ) → (pages : ℕ) → (cursor : Option String) → State → Rows
read_all query w limit zero cursor s = []
read_all query w limit (suc pages) cursor s =
    collect (λ c. read_all query w limit pages c s)
      (list_by_wallet_id query (record { wallet_id = w; limit = limit; cursor = cursor }) s)

-- A page whose query shows all that is left, and one that does not
page_of-last :
    (k : ℕ) (l : Rows)
    → length l ≤ k
    → page_of k (take (suc k) l) ≡ record { items = l; next_cursor = none }
unfolding page_of
page_of-last k l h =
    let whole : take (suc k) l ≡ l = take_all (suc k) l (omega arith) in
    let short : ltb k (length l) ≡ false = ground arith in rw (whole, short)

page_of-more :
    (k : ℕ) (l : Rows) (p : Split k l)
    → suc k < length l
    → page_of (suc k) (take (suc (suc k)) l)
      ≡ record { items = p.before ++ p.here ∷ []; next_cursor = some p.here.id }
unfolding page_of
page_of-more k l p h =
    let many : ltb (suc k) (length (take (suc (suc k)) l)) ≡ true =
      rw (length-take-suc (suc k) l h) (ground arith) in
    rw (many, take-take-suc (suc k) l, p.front, last_id-append p.before p.here)

module _ (query : PageQuery) (laws : IsPageQuery query) (w : String) (limit : Option ℕ) (s : State)
    (k : ℕ) (size : page_limit limit ≡ suc k) (distinct : Distinct (history w s.journal)) where
  page_shown :
      (cursor : Option String) (left : Rows)
      → query.find_many (history w s.journal) cursor (suc (suc k)) ≡ take (suc (suc k)) left
      → query.find_many (history w s.journal) cursor (page_limit limit + 1)
        ≡ take (suc (suc k)) left
  page_shown cursor left shown =
      let more : page_limit limit + 1 ≡ suc (suc k) = omega (arith, size) in rw more shown

  parts :
      (read left : Rows) (p : Split k left)
      → history w s.journal ≡ read ++ left
      → history w s.journal ≡ (read ++ p.before) ++ p.here ∷ p.behind
  parts read left p whole =
      whole ∙ ap (λ l. read ++ l) p.whole ∙ sym (append_assoc read p.before (p.here ∷ p.behind))

  -- What the next query shows, behind the last row of a page
  next_shown :
      (read left : Rows) (p : Split k left)
      → history w s.journal ≡ read ++ left
      → query.find_many (history w s.journal) (some p.here.id) (suc (suc k))
        ≡ take (suc (suc k)) p.behind
  next_shown read left p whole =
      let split : history w s.journal ≡ (read ++ p.before) ++ p.here ∷ p.behind =
        parts read left p whole in
      let new : find (by_id p.here.id) (read ++ p.before) ≡ none =
        Distinct-before (read ++ p.before) p.behind p.here (subst Distinct split distinct) in
      subst (λ l. query.find_many l (some p.here.id) (suc (suc k)) ≡ take (suc (suc k)) p.behind)
        (sym split) (laws.from_cursor (read ++ p.before) p.behind p.here (suc (suc k)) new)

  read_on :
      (read left : Rows) (p : Split k left)
      → history w s.journal ≡ read ++ left
      → history w s.journal ≡ ((read ++ p.before) ++ p.here ∷ []) ++ p.behind
  read_on read left p whole =
      parts read left p whole ∙ sym (append_assoc (read ++ p.before) (p.here ∷ []) p.behind)

  page_back : (left : Rows) (p : Split k left) → (p.before ++ p.here ∷ []) ++ p.behind ≡ left
  page_back left p = append_assoc p.before (p.here ∷ []) p.behind ∙ sym p.whole

  read_rest :
      (pages : ℕ) (read left : Rows) (cursor : Option String)
      → history w s.journal ≡ read ++ left
      → query.find_many (history w s.journal) cursor (suc (suc k)) ≡ take (suc (suc k)) left
      → length left < pages
      → read_all query w limit pages cursor s ≡ left
  unfolding read_all list_by_wallet_id collect
  read_rest zero read left cursor whole shown h = absurd (omega arith)
  read_rest (suc pages) read left cursor whole shown h =
      elim (Bool-cases (ltb (suc k) (length left))) [
        | inr last ↦
            rw
              (page_shown cursor left shown, size, page_of-last (suc k) left (ground (arith, last)))
              (append-nil left)
        | inl more ↦
            let p : Split k left = cut_at k left (ground (arith, more)) in
            let rest : read_all query w limit pages (some p.here.id) s ≡ p.behind =
              read_rest pages ((read ++ p.before) ++ p.here ∷ []) p.behind (some p.here.id)
                (read_on read left p whole) (next_shown read left p whole)
                (omega (arith, p.shorter)) in
            rw
              (
                page_shown cursor left shown,
                size,
                page_of-more k left p (ground (arith, more)),
                rest,
              )
              (page_back left p)
      ]

-- Reading a wallet's history page by page gives the whole history, newest first and each row once,
-- whatever page size is asked for, when the journal's ids are distinct and the client asks for more
-- pages than there are rows.
pub read_all-history :
    (query : PageQuery) (w : String) (limit : Option ℕ) (pages : ℕ) (s : State)
    → IsPageQuery query
    → Distinct s.journal
    → length (history w s.journal) < pages
    → read_all query w limit pages none s ≡ history w s.journal
read_all-history query w limit pages s laws distinct enough =
    read_rest query laws w limit s (page_limit limit - 1) (omega (arith, page_limit_bounds limit))
      (Distinct-history w s.journal distinct) pages [] (history w s.journal) none refl
      (laws.from_start (history w s.journal) (suc (suc (page_limit limit - 1)))) enough

-- Listing a wallet's transactions never fails, and the page has at most 100 rows: at most as many as the
-- limit asks for, where it asks for at least one, and at most 20 without a limit.
pub list_by_wallet_id-IsBounded :
    (query : PageQuery) (p : ListWalletTransactionsParams) (s : State)
    → IsBounded p.limit (list_by_wallet_id query p s)
unfolding list_by_wallet_id page_limit
list_by_wallet_id-IsBounded query p s =
    let rows = query.find_many (history p.wallet_id s.journal) p.cursor (page_limit p.limit + 1) in
    within p.limit rows s
