-- ===== src/CacheExchange/Pull.antt =====
-- Following the cursor of selectCacheExchangeEntries (src/cache_exchange.ts) reads every entry that
-- a peer may get, and only those.
use bit_relay.Prelude.{
  ℕ, ◌≤◌, ◌<◌, max, ◌≡◌, inl, inr, refl, sym, ap, ◌∙◌, List, [], ◌∷◌, ◌++◌, arith, length, keep,
  zero, suc, length-append, le_or_lt,
}
use bit_relay.CacheExchange.{
  CacheExchangeRecord, CacheExchangeEntry, SelectArgs, select_from, select_cache_exchange_entries,
}
use bit_relay.CacheExchange.Select.{
  Rising, due, due_none, Reads, Reads-cons, select_from-rises, select_from-Reads,
}

module _ (args : SelectArgs) (limit : ℕ) where
  passed :
      (r : CacheExchangeRecord) (rs : List CacheExchangeRecord)
      → r.cursor ≤ args.after
      → select_from args limit (r ∷ rs) [] args.after ≡ select_from args limit rs [] args.after
  unfolding select_from
  passed r rs le = ground arith

  -- From the start of a page, where the records up to its cursor are passed over.
  start-rises :
      (low : ℕ) (rs : List CacheExchangeRecord)
      → Rising low rs
      → args.after ≤ (select_from args limit rs [] args.after).1
  unfolding select_from
  start-rises low [] h = omega arith
  start-rises low (r ∷ rs) (up, h) = elim (le_or_lt r.cursor args.after) [
    | inl le ↦ rw (passed r rs le) (start-rises r.cursor rs h)
    | inr lt ↦ select_from-rises args limit (r ∷ rs) args.after [] args.after (lt, h) (omega arith)
  ]

  start-Reads :
      (low : ℕ) (rs : List CacheExchangeRecord)
      → Rising low rs
      → 0 < limit
      → Reads args limit rs [] (due args args.after rs) (select_from args limit rs [] args.after)
  unfolding select_from keep
  start-Reads low [] h some_room = (refl, omega arith, λ h. refl)
  start-Reads low (r ∷ rs) (up, h) some_room = elim (le_or_lt r.cursor args.after) [
    | inl le ↦
        let rises = start-rises r.cursor rs h in
        rw (passed r rs le) (
          Reads-cons args limit r rs [] (due args args.after (r ∷ rs)) [] (due args args.after rs)
            (select_from args limit rs [] args.after) (omega arith)
            (sym (due_none args args.after r rs le)) (start-Reads r.cursor rs h some_room))
    | inr lt ↦
        select_from-Reads args limit (r ∷ rs) args.after [] args.after (lt, h) (omega arith)
          (omega arith) some_room
  ]

-- A client that asks for the page after each cursor until a page is empty.
unfoldable pub pull_all : ℕ → List CacheExchangeRecord → SelectArgs → List CacheExchangeEntry
unfolding select_cache_exchange_entries
pull_all zero records args = []
pull_all (suc fuel) records args =
    let (entries, next_cursor) = select_cache_exchange_entries records args in
    elim entries [
      | [] ↦ []
      | e ∷ es ↦ e ∷ es ++ pull_all fuel records (record args { after = next_cursor })
    ]

pub select-Reads :
    (args : SelectArgs) (low : ℕ) (records : List CacheExchangeRecord)
    → Rising low records
    → Reads args
        (max 1 args.limit)
        records
        []
        (due args args.after records)
        (select_cache_exchange_entries records args)
unfolding select_cache_exchange_entries
select-Reads args low records h = start-Reads args (max 1 args.limit) low records h (omega arith)

pull_all-cons :
    (fuel : ℕ) (records : List CacheExchangeRecord) (args : SelectArgs) (e : CacheExchangeEntry)
    (es : List CacheExchangeEntry) (next : ℕ)
    → select_cache_exchange_entries records args ≡ (e ∷ es, next)
    → pull_all (suc fuel) records args
      ≡ e ∷ es ++ pull_all fuel records (record args { after = next })
unfolding pull_all
pull_all-cons fuel records args e es next h =
    let cursor : (select_cache_exchange_entries records args).1 ≡ next = ap (λ page. page.1) h in
    rw (h, cursor, pull_all)

pull_all-nil :
    (fuel : ℕ) (records : List CacheExchangeRecord) (args : SelectArgs) (next : ℕ)
    → select_cache_exchange_entries records args ≡ ([], next)
    → pull_all (suc fuel) records args ≡ []
unfolding pull_all
pull_all-nil fuel records args next h = rw (h, pull_all)

-- Where cursors rise along the records, a client that follows the cursor until a page is empty gets
-- exactly the entries due to it, in order and each once, when it asks more often than entries are
-- due.
pub pull_all-due :
    (fuel : ℕ) (records : List CacheExchangeRecord) (args : SelectArgs) (low : ℕ)
    → Rising low records
    → length (due args args.after records) < fuel
    → pull_all fuel records args ≡ due args args.after records
unfolding pull_all
pull_all-due zero records args low h lt = absurd (omega arith)
pull_all-due (suc fuel) records args low h lt =
    go (λ next. pull_all-due fuel records (record args { after = next }) low h)
      (select_cache_exchange_entries records args) refl (select-Reads args low records h)
  where
    go :
        ((next : ℕ)
          → length (due args next records) < fuel
          → pull_all fuel records (record args { after = next }) ≡ due args next records)
        → (page : List CacheExchangeEntry × ℕ) → select_cache_exchange_entries records args ≡ page
        → Reads args (max 1 args.limit) records [] (due args args.after records) page
        → pull_all (suc fuel) records args ≡ due args args.after records
    go rest ([], next) e (all, short, last) =
        pull_all-nil fuel records args next e ∙ (sym (last (omega arith)) ∙ all)
    go rest (x ∷ xs, next) e (all, short, last) =
        let size = length-append (x ∷ xs) (due args next records) in
        let total = ap length all in
        pull_all-cons fuel records args x xs next e
        ∙ (ap (λ more. x ∷ xs ++ more) (rest next (omega (arith, size, total))) ∙ all)
