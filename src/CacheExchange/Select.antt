-- ===== src/CacheExchange/Select.antt =====
-- What a page of exchanged entries holds, and that following the cursor reads them all.
use bit_relay.Prelude.{
  le_or_lt, Bool-cases, ℕ, ◌≤◌, ◌<◌, ◌≡◌, inl, inr, refl, ap, ◌∙◌, true, false, not, ◌&&◌, List, [],
  ◌∷◌, ◌++◌, map, arith, ltb, length, keep, length-append, append_assoc,
}
use bit_relay.CacheExchange.{
  CacheExchangeRecord, CacheExchangeEntry, SelectArgs, is_skipped, entry_of, select_from,
}

-- Cursors rise along the records, from above `low`.
abbrev pub Rising : ℕ → List CacheExchangeRecord → Type 0
Rising low [] = Unit
Rising low (r ∷ rs) = (low < r.cursor) × Rising r.cursor rs

-- The entries that a peer may still get, from a cursor on.
abbrev pub due : SelectArgs → ℕ → List CacheExchangeRecord → List CacheExchangeEntry
due args after rs = map entry_of (keep (λ r. ltb after r.cursor && not (is_skipped args r)) rs)

due_above :
    (args : SelectArgs) (after low : ℕ) (rs : List CacheExchangeRecord)
    → Rising low rs
    → after ≤ low
    → due args after rs ≡ due args low rs
unfolding keep
due_above args after low [] h le = refl
due_above args after low (r ∷ rs) (up, h) le =
    ground (arith, due_above args after r.cursor rs h, due_above args low r.cursor rs h)

pub due_none :
    (args : SelectArgs) (after : ℕ) (r : CacheExchangeRecord) (rs : List CacheExchangeRecord)
    → r.cursor ≤ after
    → due args after (r ∷ rs) ≡ due args after rs
unfolding keep
due_none args after r rs le = ground arith

module _ (args : SelectArgs) (r : CacheExchangeRecord) (rs : List CacheExchangeRecord) where
  due_skipped :
      (after : ℕ)
      → after < r.cursor
      → Rising r.cursor rs
      → is_skipped args r ≡ true
      → due args r.cursor rs ≡ due args after (r ∷ rs)
  unfolding keep
  due_skipped after lt h e = ground (arith, due_above args after r.cursor rs h)

  due_taken :
      (after : ℕ)
      → after < r.cursor
      → Rising r.cursor rs
      → is_skipped args r ≡ false
      → entry_of r ∷ due args r.cursor rs ≡ due args after (r ∷ rs)
  unfolding keep
  due_taken after lt h e = ground (arith, due_above args after r.cursor rs h)

  module _ (limit nc : ℕ) (entries : List CacheExchangeEntry) (lt : args.after < r.cursor) where
    select_from_skipped :
        is_skipped args r ≡ true
        → select_from args limit (r ∷ rs) entries nc ≡ select_from args limit rs entries r.cursor
    unfolding select_from
    select_from_skipped e = ground arith

    select_from_full :
        is_skipped args r ≡ false
        → limit ≤ length (entries ++ entry_of r ∷ [])
        → select_from args limit (r ∷ rs) entries nc ≡ (entries ++ entry_of r ∷ [], r.cursor)
    unfolding select_from
    select_from_full e full = ground arith

    select_from_taken :
        is_skipped args r ≡ false
        → length (entries ++ entry_of r ∷ []) < limit
        → select_from args limit (r ∷ rs) entries nc
          ≡ select_from args limit rs (entries ++ entry_of r ∷ []) r.cursor
    unfolding select_from
    select_from_taken e room = ground arith

-- The loop only moves the cursor on.
pub select_from-rises :
    (args : SelectArgs) (limit : ℕ) (rs : List CacheExchangeRecord) (low : ℕ)
    (entries : List CacheExchangeEntry) (nc : ℕ)
    → Rising low rs
    → nc ≤ low
    → nc ≤ (select_from args limit rs entries nc).1
unfolding select_from
select_from-rises args limit [] low entries nc h le = omega arith
select_from-rises args limit (r ∷ rs) low entries nc (up, h) le =
    let longer = entries ++ entry_of r ∷ [] in
    ground (
      arith,
      select_from-rises args limit rs r.cursor entries nc h (omega arith),
      select_from-rises args limit rs r.cursor entries r.cursor h (omega arith),
      select_from-rises args limit rs r.cursor longer r.cursor h (omega arith),
    )

-- The page and what is due after its cursor are what was due, a page is no longer than its limit,
-- and a page with room left leaves nothing.
abbrev pub Reads :
    SelectArgs
    → ℕ
    → List CacheExchangeRecord
    → List CacheExchangeEntry
    → List CacheExchangeEntry
    → List CacheExchangeEntry × ℕ
    → Type 0
Reads args limit rs entries owed page =
    (page.0 ++ due args page.1 rs ≡ entries ++ owed)
    × (length page.0 ≤ limit)
    × (length page.0 < limit → due args page.1 rs ≡ [])

-- A record at or below the cursor of a page is behind it.
pub Reads-cons :
    (args : SelectArgs) (limit : ℕ) (r : CacheExchangeRecord) (rs : List CacheExchangeRecord)
    (entries owed more left : List CacheExchangeEntry) (page : List CacheExchangeEntry × ℕ)
    → r.cursor ≤ page.1
    → more ++ left ≡ entries ++ owed
    → Reads args limit rs more left page
    → Reads args limit (r ∷ rs) entries owed page
Reads-cons args limit r rs entries owed more left page le e (all, short, last) =
    let behind = due_none args page.1 r rs le in
    (ap (λ d. page.0 ++ d) behind ∙ (all ∙ e), short, λ h. behind ∙ last h)

pub select_from-Reads :
    (args : SelectArgs) (limit : ℕ) (rs : List CacheExchangeRecord) (low : ℕ)
    (entries : List CacheExchangeEntry) (nc : ℕ)
    → Rising low rs
    → nc ≤ low
    → args.after ≤ nc
    → length entries < limit
    → Reads args limit rs entries (due args nc rs) (select_from args limit rs entries nc)
unfolding select_from keep
select_from-Reads args limit [] low entries nc h le after lt = (refl, omega arith, λ h. refl)
select_from-Reads args limit (r ∷ rs) low entries nc (up, h) le after lt =
    let longer = entries ++ entry_of r ∷ [] in
    let rises = λ (es : List CacheExchangeEntry).
      select_from-rises args limit rs r.cursor es r.cursor h (omega arith) in
    let reads = λ (es : List CacheExchangeEntry) (short : length es < limit).
      select_from-Reads args limit rs r.cursor es r.cursor h (omega arith) (omega arith) short in
    let grown = length-append entries (entry_of r ∷ []) in
    let now : args.after < r.cursor = omega arith in
    let owed = due args nc (r ∷ rs) in
    let cons = Reads-cons args limit r rs entries owed in
    elim (Bool-cases (is_skipped args r)) [
      | inl skipped ↦ rw (select_from_skipped args r rs limit nc entries now skipped) (
          cons entries (due args r.cursor rs) (select_from args limit rs entries r.cursor)
            (rises entries)
            (ap (λ d. entries ++ d) (due_skipped args r rs nc (omega arith) h skipped))
            (reads entries lt))
      | inr taken ↦
          let more : longer ++ due args r.cursor rs ≡ entries ++ owed =
            append_assoc entries (entry_of r ∷ []) (due args r.cursor rs)
            ∙ ap (λ d. entries ++ d) (due_taken args r rs nc (omega arith) h taken) in
          elim (le_or_lt limit (length longer)) [
            | inl full ↦ rw (select_from_full args r rs limit nc entries now taken full) (
                cons longer (due args r.cursor rs) (longer, r.cursor) (omega arith) more
                  (refl, omega (arith, grown), λ short. absurd (omega arith)))
            | inr room ↦ rw (select_from_taken args r rs limit nc entries now taken room) (
                cons longer (due args r.cursor rs) (select_from args limit rs longer r.cursor)
                  (rises longer) more (reads longer room))
          ]
    ]
