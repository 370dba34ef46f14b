-- ===== src/IssueSync/RoundTrip.antt =====
-- A snapshot restores the engine (src/issue_sync_engine.ts).
use mathlib.Core.Path.{ap₂}
use bit_relay.Prelude.{
  ℕ, ◌≤◌, ◌≡◌, refl, ap, sym, ◌∙◌, true, false, List, [], ◌∷◌, ◌++◌, none, some, String,
  if◌then◌else◌, leb, length, arith, All, append_assoc, append-nil, length-append, subst, eq_iff,
  eq_refl, Bool-cases, inl, inr,
}
use bit_relay.Map
use bit_relay.Map.{Map}
use bit_relay.Map.Listed.{listed, listed-All, listed-Distinct, get-listed_own, IsOwn, SameEntries}
use bit_relay.Map.Order.{IsOrdered, named, listed-IsOrdered, named-listed}
use bit_relay.Map.Keys.{set_new, length-keys}
use bit_relay.Text.{trim, is_empty}
use bit_relay.Json.{Json, entries, items, prop, as_record}
use bit_relay.IssueSync.{DlqEntry, EngineOptions, Engine, entries_of}
use bit_relay.IssueSync.Invariant.{IsEngine}
use bit_relay.IssueSync.Snapshot.{
  snapshot_deliveries, json_of_entry, items_of, snapshot, restore_deliveries, restore_dlq, restore,
  entry_of_value,
}

-- A text with no white space around it, and not empty.
abbrev pub IsName : String → Type 0
IsName s = (trim s ≡ s) × (is_empty s ≡ false)

-- What applyDelivery and the webhook handler store: trimmed ids and events.
abbrev pub IsStored : String × DlqEntry → Type 0
IsStored (id, entry) = IsName id × (trim entry.event ≡ entry.event) × (entry.delivery_id ≡ id)

module _ {ℓ} {V : Type ℓ} where
  pub append-there : (k : String) (v : V) (acc m : Map V) → Map.has k (acc ++ (k, v) ∷ m) ≡ true
  unfolding Map.get Map.has
  append-there k v [] m = ground (arith, eq_refl k)
  append-there k v ((j, w) ∷ acc) m = ground (arith, append-there k v acc m)

  pub append-absent :
      (k : String) (v : V) (acc m : Map V) → Map.Distinct (acc ++ (k, v) ∷ m) → Map.get k acc ≡ none
  unfolding Map.get Map.has
  append-absent k v [] m d = refl
  append-absent k v ((j, w) ∷ acc) m d =
      ground (arith, append-absent k v acc m d.1, append-there k v acc m, eq_iff j k, d.0)

restore-deliveries :
    (m acc : Map ℕ)
    → All (λ e. IsName e.0) m
    → Map.Distinct (acc ++ m)
    → restore_deliveries (entries (snapshot_deliveries m)) acc ≡ acc ++ m
unfolding restore_deliveries snapshot_deliveries
restore-deliveries [] acc names d = sym (append-nil acc)
restore-deliveries ((id, ts) ∷ m) acc (name, names) d =
    let there : is_empty (trim id) ≡ false = rw (name.0) name.1 in
    let new = append-absent id ts acc m d in
    let grown = set_new id ts acc new in
    let shifted = append_assoc acc ((id, ts) ∷ []) m in
    rw (there, restore_deliveries, there, grown)
      (restore-deliveries m (acc ++ (id, ts) ∷ []) names (subst Map.Distinct (sym shifted) d)
        ∙ shifted)

restore-entry :
    (o : EngineOptions) (now : ℕ) (id : String) (e : DlqEntry)
    → IsStored (id, e)
    → entry_of_value o now (as_record (json_of_entry e)) ≡ some e
unfolding json_of_entry prop Map.get
restore-entry o now id e (name, event, filed) =
    let name' : trim e.delivery_id ≡ e.delivery_id = rw filed (name.0) in
    let there : is_empty (trim e.delivery_id) ≡ false = rw (name', filed) (name.1) in
    rw (there, name', event)

module _ {ℓ} {V : Type ℓ} where
  append-get :
      (k : String) (v : V) (acc m : Map V)
      → Map.get k acc ≡ none
      → Map.get k (acc ++ (k, v) ∷ m) ≡ some v
  unfolding Map.get
  append-get k v [] m h = ground (arith, eq_refl k)
  append-get k v ((j, w) ∷ acc) m h = ground (arith, append-get k v acc m)

  append-full :
      (most : ℕ) (acc m : Map V) → most ≤ length acc → length (acc ++ m) ≤ most → acc ++ m ≡ acc
  append-full most acc [] full le = append-nil acc
  append-full most acc (x ∷ m) full le = absurd (omega (arith, length-append acc (x ∷ m)))

  keys-append : (m n : Map V) → Map.keys (m ++ n) ≡ Map.keys m ++ Map.keys n
  keys-append [] n = refl
  keys-append ((k, v) ∷ m) n = ap (◌∷◌ k) (keys-append m n)

abbrev values : Map DlqEntry → List DlqEntry
values [] = []
values ((k, e) ∷ m) = e ∷ values m

entries-values :
    (m acc : Map DlqEntry) → Map.Distinct (acc ++ m) → entries_of (Map.keys m) (acc ++ m) ≡ values m
unfolding entries_of
entries-values [] acc d = refl
entries-values ((k, e) ∷ m) acc d =
    let shifted = append_assoc acc ((k, e) ∷ []) m in
    let found = append-get k e acc m (append-absent k e acc m d) in
    let rest = entries-values m (acc ++ (k, e) ∷ []) (subst Map.Distinct (sym shifted) d) in
    let rest' : entries_of (Map.keys m) (acc ++ (k, e) ∷ m) ≡ values m =
      subst (λ q. entries_of (Map.keys m) q ≡ values m) shifted rest in
    rw (found, entries_of) (ap (◌∷◌ e) rest')

module _ (o : EngineOptions) (now : ℕ) where
  restore_dlq-more :
      (value : Json) (vs : List Json) (dlq : Map DlqEntry) (order : List String) (e : DlqEntry)
      → entry_of_value o now (as_record value) ≡ some e
      → restore_dlq o now (value ∷ vs) dlq order ≡ (
          if leb o.max_dlq_entries (length (order ++ e.delivery_id ∷ []))
          then (Map.set e.delivery_id e dlq, order ++ e.delivery_id ∷ [])
          else restore_dlq o now vs (Map.set e.delivery_id e dlq) (order ++ e.delivery_id ∷ []))
  unfolding restore_dlq
  restore_dlq-more value vs dlq order e h = rw (h, restore_dlq)

  restore-queue :
      (m acc : Map DlqEntry)
      → All IsStored m
      → Map.Distinct (acc ++ m)
      → length (acc ++ m) ≤ o.max_dlq_entries
      → restore_dlq o now (items (items_of (values m))) acc (Map.keys acc)
        ≡ (acc ++ m, Map.keys (acc ++ m))
  unfolding restore_dlq
  restore-queue [] acc stored d le = rw (append-nil acc)
  restore-queue ((k, e) ∷ m) acc (here, stored) d le =
      let acc' = acc ++ (k, e) ∷ [] in
      let shifted = append_assoc acc ((k, e) ∷ []) m in
      let more =
        restore_dlq-more (json_of_entry e) (items (items_of (values m))) acc (Map.keys acc) e
          (restore-entry o now k e here) in
      let set : Map.set e.delivery_id e acc ≡ acc' =
        ap (λ j. Map.set j e acc) here.2 ∙ set_new k e acc (append-absent k e acc m d) in
      let order : Map.keys acc ++ e.delivery_id ∷ [] ≡ Map.keys acc' =
        ap (λ j. Map.keys acc ++ j ∷ []) here.2 ∙ sym (keys-append acc ((k, e) ∷ [])) in
      let le' : length (acc' ++ m) ≤ o.max_dlq_entries =
        subst (λ q. length q ≤ o.max_dlq_entries) (sym shifted) le in
      more
      ∙ (ap₂
            (λ q ids.
              if leb o.max_dlq_entries (length ids)
              then (q, ids)
              else restore_dlq o now (items (items_of (values m))) q ids)
            set order
          ∙ elim (Bool-cases (leb o.max_dlq_entries (length (Map.keys acc')))) [
            | inl full ↦
                let last =
                  append-full o.max_dlq_entries acc' m (ground (arith, length-keys acc')) le' in
                rw full (ap (λ q. (q, Map.keys q)) (sym last ∙ shifted))
            | inr room ↦ rw room (
                restore-queue m acc' stored (subst Map.Distinct (sym shifted) d) le'
                ∙ ap (λ q. (q, Map.keys q)) shifted)
          ])

pub restored-engine :
    (o : EngineOptions) (now : ℕ) (e : Engine)
    → IsEngine o e
    → All (λ d. IsName d.0) e.delivery_ids
    → All IsStored e.dlq
    → restore o now (snapshot e) ≡ record e { delivery_ids = listed e.delivery_ids }
unfolding restore snapshot
restored-engine o now e w names stored =
    let (d, order, filed, bound) = w.1 in
    let ids =
      restore-deliveries (listed e.delivery_ids) []
        (listed-All (λ d. IsName d.0) e.delivery_ids names)
        (listed-Distinct e.delivery_ids w.0.0) in
    let listing : entries_of e.dlq_order e.dlq ≡ values e.dlq =
      ap (λ keys. entries_of keys e.dlq) order ∙ entries-values e.dlq [] d in
    let queue : restore_dlq o now (items (items_of (entries_of e.dlq_order e.dlq))) [] []
        ≡ (e.dlq, Map.keys e.dlq) =
      rw listing (restore-queue o now e.dlq [] stored d bound) in
    rw (ids, queue)
      (ap (λ keys. record e { delivery_ids = listed e.delivery_ids; dlq_order = keys }) (sym order))

-- The same deliveries, each with its time, and the same queue of failed ones in the same order.
pub record SameEngine (e e' : Engine) : Type 0 where
  pub deliveries : SameEntries e.delivery_ids e'.delivery_ids
  pub dlq : e'.dlq ≡ e.dlq
  pub dlq_order : e'.dlq_order ≡ e.dlq_order

-- A well-formed engine whose ids and events are trimmed, as applyDelivery and the webhook handler store them, and
-- that knows no delivery `__proto__`, is restored from its snapshot: each delivery is there with its
-- time and no other, and the failed deliveries are as they were, in the same order. The deliveries
-- come back in the order of an object: the ids that are array indices first, from the lowest, and then
-- the other ids in the order they had.
pub restore-snapshot :
    (o : EngineOptions) (now : ℕ) (e : Engine)
    → IsEngine o e
    → All (λ d. IsName d.0) e.delivery_ids
    → All IsStored e.dlq
    → IsOwn e.delivery_ids
    → (let after = restore o now (snapshot e) in
        SameEngine e after
        × IsOrdered after.delivery_ids
        × (named after.delivery_ids ≡ named e.delivery_ids))
restore-snapshot o now e w names stored own =
    subst
      (λ after.
        SameEngine e after
        × IsOrdered after.delivery_ids
        × (named after.delivery_ids ≡ named e.delivery_ids))
      (sym (restored-engine o now e w names stored))
      (
        record {
          deliveries = λ k. sym (get-listed_own k e.delivery_ids w.0.0 own);
          dlq = refl;
          dlq_order = refl;
        },
        listed-IsOrdered e.delivery_ids,
        named-listed e.delivery_ids w.0.0 own,
      )
