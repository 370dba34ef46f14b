-- ===== src/CacheExchange/Allowed.antt =====
-- What selectCacheExchangeEntries lets through (src/cache_exchange.ts).
use bit_relay.Prelude.{
  ℕ, ◌≤◌, ◌<◌, max, ◌≡◌, ◌≢◌, ◌⊎◌, inl, inr, refl, sym, subst, List, [], ◌∷◌, true, false, not,
  ◌&&◌, Option, none, some, String, eq_iff, arith, length, keep, All, Bool-cases, ltb, str_eq,
  All-append_left,
}
use bit_relay.CacheExchange.{
  CacheExchangeRecord, CacheExchangeEntry, SelectArgs, is_skipped, entry_of, when_given,
  select_cache_exchange_entries,
}
use bit_relay.CacheExchange.Select.{Rising, due}
use bit_relay.CacheExchange.Pull.{select-Reads}

-- An entry after the cursor, within its hops, of the room asked for, and not from the peer itself.
abbrev pub Allowed : SelectArgs → ℕ → CacheExchangeEntry → Type 0
Allowed args after e =
    (after < e.cursor)
    × (e.hop_count ≤ e.max_hops)
    × ((args.room ≡ none) ⊎ (args.room ≡ some "") ⊎ (args.room ≡ some e.envelope.room))
    × ((e.origin ≡ "") ⊎ (args.peer ≢ some e.origin))

room_lem :
    (o : Option String) (room : String)
    → (o ≡ none)
      ⊎ (o ≡ some "")
      ⊎ (o ≡ some room)
      ⊎ (when_given o (λ r. not (str_eq room r)) ≡ true)
room_lem none room = inl refl
room_lem (some String.[]) room = inr (inl refl)
room_lem (some (String.◌∷◌ c s)) room = ground (arith, eq_iff room (String.◌∷◌ c s))

peer_lem :
    (o : Option String) (origin : String)
    → (origin ≡ "") ⊎ (o ≢ some origin) ⊎ (when_given o (λ peer. str_eq origin peer) ≡ true)
peer_lem o String.[] = inl refl
peer_lem none (String.◌∷◌ c s) = inr (inl (λ e. cc))
peer_lem (some String.[]) (String.◌∷◌ c s) = inr (inl (λ e. cc))
peer_lem (some (String.◌∷◌ d t)) (String.◌∷◌ c s) =
    elim (Bool-cases (str_eq (String.◌∷◌ c s) (String.◌∷◌ d t))) [
      | inl same ↦ inr (inr same)
      | inr other ↦ inr (inl (λ e. ground (arith, eq_iff (String.◌∷◌ c s) (String.◌∷◌ d t))))
    ]

entry_of-Allowed :
    (args : SelectArgs) (after : ℕ) (r : CacheExchangeRecord)
    → after < r.cursor
    → is_skipped args r ≡ false
    → Allowed args after (entry_of r)
entry_of-Allowed args after r lt e = (
  lt,
  ground arith,
  elim (room_lem args.room r.envelope.room) [
    | inl a ↦ inl a
    | inr (inl b) ↦ inr (inl b)
    | inr (inr (inl c)) ↦ inr (inr c)
    | inr (inr (inr d)) ↦ absurd (ground arith)
  ],
  elim (peer_lem args.peer r.origin) [
    | inl a ↦ inl a
    | inr (inl b) ↦ inr b
    | inr (inr c) ↦ absurd (ground arith)
  ],
)

due-Allowed :
    (args : SelectArgs) (after : ℕ) (rs : List CacheExchangeRecord)
    → All (Allowed args after) (due args after rs)
unfolding keep
due-Allowed args after [] = tt
due-Allowed args after (r ∷ rs) =
    let rest = due-Allowed args after rs in
    elim (Bool-cases (ltb after r.cursor && not (is_skipped args r))) [
      | inl due_here ↦
          rw (due_here, All) (entry_of-Allowed args after r (ground arith) (ground arith), rest)
      | inr not_due ↦ rw (not_due, All) rest
    ]

-- Where cursors rise along the records, a page holds at most its limit of entries, or one where the
-- limit is 0, and each is after the cursor asked for, within its hops, of the room asked for, and
-- not of the asking peer's own origin.
pub select-Allowed :
    (args : SelectArgs) (low : ℕ) (records : List CacheExchangeRecord)
    → Rising low records
    → All (Allowed args args.after) (select_cache_exchange_entries records args).0
      × (length (select_cache_exchange_entries records args).0 ≤ max 1 args.limit)
select-Allowed args low records h =
    let (all, short, last) = select-Reads args low records h in
    let page = select_cache_exchange_entries records args in
    (
      All-append_left (Allowed args args.after) page.0 (due args page.1 records)
          (subst (All (Allowed args args.after)) (sym all) (due-Allowed args args.after records)),
      short,
    )
